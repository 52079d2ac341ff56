-- ===== src/Miner.antt =====
-- The miners beside the contracts: packages/dpow-browser-miner/src/lib.rs,
-- packages/dpow-miner-cli/src/main.rs and packages/dpow-hash/src.
mod Browser
mod Cli
mod Commands
mod Threads
mod Pow
mod Accepted
mod Delivered
mod Tests
use liquid_staking.Base.{ℕ, zero, suc, String, ◌≡◌, refl, ap}
use Prim.Native.String.{◌++◌ as append}
use liquid_staking.Hub.Mining.{create_difficulty_prefix}

-- The loop that pushes one '0' for each unit of the difficulty.
unfoldable pub difficulty_string : ℕ → String
difficulty_string zero = ""
difficulty_string (suc n) = append (difficulty_string n) "0"

-- The miners and the hub ask for the same prefix.
pub difficulty_string-eq-prefix : (n : ℕ) → difficulty_string n ≡ create_difficulty_prefix n
unfolding difficulty_string create_difficulty_prefix
difficulty_string-eq-prefix zero = refl
difficulty_string-eq-prefix (suc n) =
    ap (λ (s : String). append s "0") (difficulty_string-eq-prefix n)
