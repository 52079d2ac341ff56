-- ===== src/Hub/Invariant/Deployed.antt =====
-- A hub with the version that is stored beside it: `instantiate`, `execute`, `reply` and `migrate` of
-- contracts/hub/src/contract.rs, in any order.
use liquid_staking.Base.{some, ok, >>=-elim, ◌≡◌, sym, Option, refl, ◌∙◌, ap}
use mathlib.Core.Path.{subst}
use liquid_staking.Chain.{Env, Chain, Response}
use liquid_staking.State.{State}
use liquid_staking.Hub.Contract.{ExecuteMsg, MessageInfo, execute}
use liquid_staking.Hub.Instantiate as Hubs
use liquid_staking.Hub.Instantiate.{InstantiateMsg, no_state}
use liquid_staking.Coins.FromStr.{Alphabet}
use liquid_staking.Hub.Replies.{Reply, reply}
use liquid_staking.Hub.Migrate.{
  Storage, ContractVersion, current, instantiate, migrate, migrate_from, arm_of,
}
use liquid_staking.Hub.Invariant.{IsSound}
use liquid_staking.Hub.Invariant.Reachable.{Reachable, start, step, replied, Reachable-IsSound}

-- The storage of a contract that starts with `instantiate`, each call in a block and on a chain of its
-- own.
pub data Deployed : Storage → Type 0 where
  deployed :
      (c : Chain) (env : Env) (msg : InstantiateMsg) {s : Storage} {msgs : Response}
      → instantiate c env msg ≡ ok (s, msgs)
      → Deployed s
  executed :
      (c : Chain) (env : Env) (info : MessageInfo) (m : ExecuteMsg) {s : Storage} {st : State}
      {msgs : Response}
      → Deployed s
      → execute c env info m s.hub ≡ ok (st, msgs)
      → Deployed (record s { hub = st })
  answered :
      (u : Alphabet) (c : Chain) (env : Env) (r : Reply) {s : Storage} {st : State}
      {msgs : Response}
      → Deployed s
      → reply u c env r s.hub ≡ ok (st, msgs)
      → Deployed (record s { hub = st })
  migrated :
      (c : Chain) (env : Env) {s s' : Storage} → Deployed s → migrate c env s ≡ ok s' → Deployed s'

instantiate_inv :
    (c : Chain) (env : Env) (msg : InstantiateMsg) (s : Storage) (msgs : Response)
    → instantiate c env msg ≡ ok (s, msgs)
    → (Hubs.instantiate c env msg no_state ≡ ok (s.hub, msgs)) × (s.contract_version ≡ some current)
unfolding instantiate
instantiate_inv c env msg s msgs h =
    >>=-elim (Hubs.instantiate c env msg no_state) _ h
      λ made e h₁. let same : (made.0, made.1) ≡ (s.hub, msgs) = cc in (e ∙ ap ok same, cc)

-- A migration from the newest version changes nothing.
migrate-current :
    (c : Chain) (env : Env) (s : Storage)
    → s.contract_version ≡ some current
    → migrate c env s ≡ ok s
unfolding migrate migrate_from arm_of
migrate-current c env s e =
    let stays : migrate c env (record s { contract_version = some current })
        ≡ ok (record s { contract_version = some current }) =
      refl in
    let same : record s { contract_version = some current } ≡ s =
      ap (λ (v : Option ContractVersion). record s { contract_version = v }) (sym e) in
    subst (λ (s : Storage). migrate c env s ≡ ok s) same stays

-- The version of a deployed hub is the newest one, and the hub is in a state that messages and replies
-- lead to.
pub Deployed-Reachable :
    {s : Storage} → Deployed s → (s.contract_version ≡ some current) × Reachable s.hub
Deployed-Reachable (deployed c env msg {s} {msgs} h) =
    let (e, version) = instantiate_inv c env msg s msgs h in (version, start c env msg e)
Deployed-Reachable (executed c env info m d h) =
    let (version, r) = Deployed-Reachable d in (version, step c env info m r h)
Deployed-Reachable (answered u c env p d h) =
    let (version, r) = Deployed-Reachable d in (version, replied u c env p r h)
Deployed-Reachable (migrated c env {s} {s'} d h) =
    let (version, r) = Deployed-Reachable d in
    let same : s ≡ s' = let stays = migrate-current c env s version in cc in
    subst (λ (s : Storage). (s.contract_version ≡ some current) × Reachable s.hub) same (version, r)

-- Every hub that starts with a successful `instantiate` is sound after any messages and replies that it
-- accepts and any migrations of it that succeed, and its stored version is the newest one.
pub Deployed-IsSound :
    {s : Storage} → Deployed s → (s.contract_version ≡ some current) × IsSound s.hub
Deployed-IsSound d = let (version, r) = Deployed-Reachable d in (version, Reachable-IsSound r)
