-- ===== src/Token.antt =====
-- contracts/token/src/lib.rs: the Steak token, which is `cw20-base` behind two guards. The messages,
-- the storage and the handler of that library are parameters.
use liquid_staking.Base.{
  String, Option, some, none, Result, ok, err, load, load-eq-ok, require-eq-ok, ◌>>=◌, ◌>>◌,
  >>=-elim, require, str_eq, eq_iff, ◌≡◌, ap, sym, refl, ◌⊎◌, inl, inr, not_minter,
  burn_from_disabled,
}

-- How the guards tell the messages of the library apart.
pub data MessageKind : Type 0 where
  burn burn_from other : MessageKind

-- `TOKEN_INFO` as far as the guards read it: the minter, if there is one.
pub record TokenInfo : Type 0 where
  pub mint : Option String

module _ {Storage Message Response : Type 0} (kind : Message → MessageKind)
    (token_info : Storage → Option TokenInfo)
    (cw20_execute : String → Message → Storage → Result (Storage × Response)) where
  abbrev check_minter : String → Option String → Result (Unit {0})
  check_minter sender none = ok tt
  check_minter sender (some minter) = require (str_eq sender minter) not_minter

  unfoldable pub assert_minter : Storage → String → Result (Unit {0})
  assert_minter storage sender = do info ← load (token_info storage); check_minter sender info.mint

  -- The `match` in front of `cw20_execute`.
  unfoldable pub guard_message : MessageKind → Storage → String → Result (Unit {0})
  guard_message burn storage sender = assert_minter storage sender
  guard_message burn_from storage sender = err burn_from_disabled
  guard_message other storage sender = ok tt

  unfoldable pub execute_token : String → Message → Storage → Result (Storage × Response)
  execute_token sender msg storage = do
    guard_message (kind msg) storage sender
    cw20_execute sender msg storage

  check_minter_lem :
      (sender : String) (mint : Option String)
      → check_minter sender mint ≡ ok tt
      → (mint ≡ none) ⊎ (mint ≡ some sender)
  check_minter_lem sender none h = inl refl
  check_minter_lem sender (some minter) h =
      inr (ap some (sym ((eq_iff sender minter).0 (require-eq-ok _ _ h))))

  guard_message_lem :
      (k : MessageKind) (storage : Storage) (sender : String)
      → guard_message k storage sender ≡ ok tt
      → (k ≡ other)
        ⊎ ((k ≡ burn)
            × (info : TokenInfo) × (token_info storage ≡ some info)
            × ((info.mint ≡ none) ⊎ (info.mint ≡ some sender)))
  unfolding guard_message assert_minter
  guard_message_lem burn storage sender h =
      >>=-elim (load (token_info storage)) _ h
        λ info e h₁. inr (refl, info, load-eq-ok _ e, check_minter_lem sender info.mint h₁)
  guard_message_lem burn_from storage sender h = cc
  guard_message_lem other storage sender h = inl refl

  -- A message that the token accepts is accepted by the library with the same effect; it is no
  -- `burn_from`, and if it is a `burn` of a token with a minter, the minter has sent it.
  pub execute_guards :
      (sender : String) (msg : Message) (storage storage' : Storage) (answer : Response)
      → execute_token sender msg storage ≡ ok (storage', answer)
      → (cw20_execute sender msg storage ≡ ok (storage', answer))
        × ((kind msg ≡ other)
            ⊎ ((kind msg ≡ burn)
                × (info : TokenInfo) × (token_info storage ≡ some info)
                × ((info.mint ≡ none) ⊎ (info.mint ≡ some sender))))
  unfolding execute_token
  execute_guards sender msg storage storage' answer h =
      >>=-elim (guard_message (kind msg) storage sender) _ h
        λ _ e h₁. (h₁, guard_message_lem (kind msg) storage sender e)
