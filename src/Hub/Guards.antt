-- ===== src/Hub/Guards.antt =====
-- Who may do what: the owner's messages in contracts/hub/src/contract.rs, the transfer of ownership,
-- and what becomes of a validator that is paused or removed.
use liquid_staking.Base.{
  String, Bool, true, false, Bool-cases, some, none, List, [], ◌∷◌, ◌++◌, Result, ok, err, load,
  load-eq-ok, require, require-eq-ok, ◌>>=◌, >>=-elim, if◌then◌else◌, ◌≡◌, inl, inr, refl, sym, ap,
  ◌∙◌, arith, str_eq, eq_iff, contains, not_whitelisted, unauthorized_new_owner,
}
use liquid_staking.Types.{FeeType, wallet, fee_split}
use liquid_staking.Chain.{Env, Chain, Response}
use liquid_staking.State.{State, assert_owner}
use liquid_staking.Helpers.{query_delegation, query_delegations}
use liquid_staking.Math.Removal.{compute_redelegations_for_removal}
use liquid_staking.Hub.Withdraw as Withdrawing
use liquid_staking.Hub.Validators as Validators
use liquid_staking.Hub.Validators.{without, with_validator}
use liquid_staking.Hub.Ownership as Owning
use liquid_staking.Hub.Contract.{
  ExecuteMsg, receive, bond, withdraw_unbonded, withdraw_unbonded_admin, add_validator,
  remove_validator, remove_validator_ex, pause_validator, unpause_validator, transfer_ownership,
  accept_ownership, harvest, rebalance, reconcile, submit_batch, set_unbond_period,
  transfer_fee_account, update_fee, update_entropy, submit_proof, callback, MessageInfo, execute,
}

-- The messages that are meant for the owner.
abbrev pub is_for_owner : ExecuteMsg → Bool
is_for_owner (receive m) = false
is_for_owner (bond r) = false
is_for_owner (withdraw_unbonded r) = false
is_for_owner (withdraw_unbonded_admin a) = true
is_for_owner (add_validator v) = true
is_for_owner (remove_validator v) = true
is_for_owner (remove_validator_ex v) = true
is_for_owner (pause_validator v) = true
is_for_owner (unpause_validator v) = true
is_for_owner (transfer_ownership o) = true
is_for_owner accept_ownership = false
is_for_owner harvest = false
is_for_owner (rebalance m) = false
is_for_owner reconcile = false
is_for_owner submit_batch = false
is_for_owner (set_unbond_period p) = true
is_for_owner (transfer_fee_account t a) = true
is_for_owner (update_fee f) = true
is_for_owner (update_entropy e) = false
is_for_owner (submit_proof n v) = false
is_for_owner (callback m) = false

owned :
    {B : Type 0} (st : State) (sender : String) (f : Unit {0} → Result B) {b : B}
    → (assert_owner st sender >>= f) ≡ ok b
    → st.owner ≡ some sender
unfolding assert_owner
owned st sender f h = >>=-elim (assert_owner st sender) f h λ _ e _.
    >>=-elim (load st.owner) _ e λ owner e₁ e₂.
      let same : str_eq sender owner ≡ true = require-eq-ok _ _ e₂ in
      load-eq-ok _ e₁ ∙ ap some (sym ((eq_iff sender owner).0 same))

-- A message for the owner is accepted from the owner alone.
pub execute_owner_only :
    (c : Chain) (env : Env) (info : MessageInfo) (m : ExecuteMsg) (st st' : State) (msgs : Response)
    → execute c env info m st ≡ ok (st', msgs)
    → is_for_owner m ≡ true
    → st.owner ≡ some info.sender
unfolding execute Withdrawing.withdraw_unbonded_admin Validators.add_validator
    Validators.remove_validator Validators.remove_validator_ex Validators.pause_validator
    Validators.unpause_validator Owning.transfer_ownership Owning.set_unbond_period
    Owning.transfer_fee_account Owning.update_fee
execute_owner_only c env info (receive m) st st' msgs h o = cc
execute_owner_only c env info (bond r) st st' msgs h o = cc
execute_owner_only c env info (withdraw_unbonded r) st st' msgs h o = cc
execute_owner_only c env info (withdraw_unbonded_admin a) st st' msgs h o =
    >>=-elim (c.addr_validate a) _ h λ r _ h₁. owned st info.sender _ h₁
execute_owner_only c env info (add_validator v) st st' msgs h o = owned st info.sender _ h
execute_owner_only c env info (remove_validator v) st st' msgs h o = owned st info.sender _ h
execute_owner_only c env info (remove_validator_ex v) st st' msgs h o = owned st info.sender _ h
execute_owner_only c env info (pause_validator v) st st' msgs h o = owned st info.sender _ h
execute_owner_only c env info (unpause_validator v) st st' msgs h o = owned st info.sender _ h
execute_owner_only c env info (transfer_ownership x) st st' msgs h o = owned st info.sender _ h
execute_owner_only c env info accept_ownership st st' msgs h o = cc
execute_owner_only c env info harvest st st' msgs h o = cc
execute_owner_only c env info (rebalance m) st st' msgs h o = cc
execute_owner_only c env info reconcile st st' msgs h o = cc
execute_owner_only c env info submit_batch st st' msgs h o = cc
execute_owner_only c env info (set_unbond_period p) st st' msgs h o = owned st info.sender _ h
execute_owner_only c env info (transfer_fee_account t a) st st' msgs h o = owned st info.sender _ h
execute_owner_only c env info (update_fee f) st st' msgs h o = owned st info.sender _ h
execute_owner_only c env info (update_entropy e) st st' msgs h o = cc
execute_owner_only c env info (submit_proof n v) st st' msgs h o = cc
execute_owner_only c env info (callback m) st st' msgs h o = cc

-- Ownership moves in two steps: naming a new owner leaves the owner in place, and then whoever accepts
-- becomes the owner if it is the one named, and is refused if not.
pub transfer_then_accept :
    (c : Chain) (st st' : State) (msgs : Response) (sender named new_owner other : String)
    → Owning.transfer_ownership c sender named st ≡ ok (st', msgs)
    → c.addr_validate named ≡ ok new_owner
    → (st'.owner ≡ some sender)
      × (Owning.accept_ownership other st' ≡ (
          if str_eq other new_owner
          then ok (record st' { owner = some other; new_owner = none }, [])
          else err unauthorized_new_owner))
unfolding Owning.transfer_ownership Owning.accept_ownership
transfer_then_accept c st st' msgs sender named new_owner other h valid =
    >>=-elim (assert_owner st sender) _ h λ _ e h₁.
      >>=-elim (c.addr_validate named) _ h₁ λ address e₁ h₂.
        let same : address ≡ new_owner = cc in
        let after : record st { new_owner = some address } ≡ st' = cc in
        let kept : st'.owner ≡ some sender =
          ap (λ (s : State). s.owner) (sym after) ∙ owned st sender _ h in
        let proposed : st'.new_owner ≡ some new_owner =
          ap (λ (s : State). s.new_owner) (sym after) ∙ ap some same in
        (
          kept,
          elim (Bool-cases (str_eq other new_owner)) [
            | inl e ↦ rw (kept, proposed, e) refl
            | inr e ↦ rw (kept, proposed, e) refl
          ],
        )

contains-append : (vs : List String) (v : String) → contains (vs ++ v ∷ []) v ≡ true
contains-append [] v = ground (arith, eq_iff v v)
contains-append (w ∷ vs) v = ground (arith, contains-append vs v)

-- A validator that is added to the active ones is among them.
pub contains-with_validator :
    (v : String) (vs : List String) → contains (with_validator v vs) v ≡ true
unfolding with_validator
contains-with_validator v vs = elim (Bool-cases (contains vs v)) [
  | inl e ↦ rw e e
  | inr e ↦ rw e (contains-append vs v)
]

-- Dropping a validator drops it alone.
pub contains-without :
    (v w : String) (vs : List String)
    → contains (without v vs) w ≡ (if str_eq w v then false else contains vs w)
unfolding without
contains-without v w [] = ground arith
contains-without v w (x ∷ xs) =
    ground (arith, contains-without v w xs, eq_iff x v, eq_iff w v, eq_iff x w)

-- A successful removal takes the validator off the whitelist, and leaves it among the active
-- validators, whether it was there or not.
pub remove_validator_leaves_active :
    (c : Chain) (env : Env) (sender v : String) (st st' : State) (msgs : Response)
    → Validators.remove_validator c env sender v st ≡ ok (st', msgs)
    → (all active : List String) × (st'.validators ≡ some all)
      × (contains all v ≡ false)
      × (st'.validators_active ≡ some active)
      × (contains active v ≡ true)
unfolding Validators.remove_validator
remove_validator_leaves_active c env sender v st st' msgs h =
    >>=-elim (assert_owner st sender) _ h λ _ _ h. >>=-elim (load st.denom) _ h λ denom _ h.
      >>=-elim (load st.validators) _ h λ all _ h.
        >>=-elim (require (contains all v) not_whitelisted) _ h λ _ _ h.
          let validators = without v all in
          >>=-elim (load st.validators_active) _ h λ active _ h.
            >>=-elim (query_delegations c validators env.contract denom) _ h λ ds _ h.
              >>=-elim (query_delegation c v env.contract denom) _ h λ d _ h.
                >>=-elim (compute_redelegations_for_removal d ds denom) _ h λ rs _ h.
                  >>=-elim (c.query_balance env.contract denom) _ h λ balance _ h.
                    let after : record st {
                      validators = some validators;
                      validators_active = some (with_validator v active);
                      prev_denom = some balance;
                    }
                        ≡ st' =
                      cc in
                    let gone : contains validators v ≡ false =
                      ground (arith, contains-without v v all, eq_iff v v) in
                    (
                      validators,
                      with_validator v active,
                      ap (λ (s : State). s.validators) (sym after),
                      gone,
                      ap (λ (s : State). s.validators_active) (sym after),
                      contains-with_validator v active,
                    )

-- A validator that is paused was active; afterwards it is not, and all others are active as
-- before.
pub pause_validator_stops :
    (sender v w : String) (st st' : State) (msgs : Response)
    → Validators.pause_validator sender v st ≡ ok (st', msgs)
    → (before after : List String) × (st.validators_active ≡ some before)
      × (st'.validators_active ≡ some after)
      × (contains before v ≡ true)
      × (contains after w ≡ (if str_eq w v then false else contains before w))
unfolding Validators.pause_validator
pause_validator_stops sender v w st st' msgs h = >>=-elim (assert_owner st sender) _ h λ _ _ h.
    >>=-elim (load st.validators_active) _ h λ active e h.
      >>=-elim (require (contains active v) not_whitelisted) _ h λ _ e₁ h.
        let done : record st { validators_active = some (without v active) } ≡ st' = cc in
        (
          active,
          without v active,
          load-eq-ok _ e,
          ap (λ (s : State). s.validators_active) (sym done),
          require-eq-ok _ _ e₁,
          contains-without v w active,
        )

-- Reading back the name of a kind of fee account gives the kind.
pub fee_type_round_trip : (t : FeeType) → Owning.fee_type_of (Owning.fee_type_name t) ≡ ok t
unfolding Owning.fee_type_of Owning.fee_type_name
fee_type_round_trip wallet = refl
fee_type_round_trip fee_split = refl
