-- ===== src/Tests.antt =====
-- Runs of contracts/token/src/lib.rs on a token of 100 units, where the library's handler is a burn.
use liquid_staking.Base.{
  ℕ, String, Option, some, none, Result, ok, err, panic, ◌-◌, ◌≡◌, refl, ◌⊎◌, if◌then◌else◌, leb,
}
use liquid_staking.Token.{
  MessageKind, burn, other, TokenInfo, assert_minter, guard_message, execute_token, execute_guards,
}

abbrev info : TokenInfo
info = record { mint = some "hub" }

abbrev token_info : ℕ → Option TokenInfo
token_info supply = some info

-- A message is an amount to burn.
abbrev kind : ℕ → MessageKind
kind amount = burn

abbrev burn_amount : String → ℕ → ℕ → Result (ℕ × ℕ)
burn_amount sender amount supply =
    if leb amount supply then ok (supply - amount, amount) else err panic

burned_run : execute_token kind token_info burn_amount "hub" 30 100 ≡ ok (70, 30)
unfolding execute_token guard_message assert_minter
burned_run = refl

execute_guards_example :
    (burn_amount "hub" 30 100 ≡ ok (70, 30))
    × ((kind 30 ≡ other)
        ⊎ ((kind 30 ≡ burn)
            × (i : TokenInfo) × (token_info 100 ≡ some i)
            × ((i.mint ≡ none) ⊎ (i.mint ≡ some "hub"))))
execute_guards_example = execute_guards kind token_info burn_amount "hub" 30 100 70 30 burned_run
