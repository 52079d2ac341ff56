-- ===== src/Hub/Queries/Pages.antt =====
-- The queries of contracts/hub/src/queries.rs that list requests and mining powers. A key of the index
-- by user is the bytes of the request's key; `Bound::exclusive` starts a list after its bytes, in the
-- order of bytes. A text stands for its code points, in whose order its bytes are.
use Prim.Native.Char.{Char, code}
use liquid_staking.Base.{
  ℕ, zero, suc, String, Bool, Bool-cases, true, false, Option, some, none, List, [], ◌∷◌, ◌++◌, map,
  Result, ok, ◌>>=◌, if◌then◌else◌, ltb, ◌==◌, ◌≡◌, refl, ◌/◌, ◌%◌, ◌^◌, inl, inr, arith, ◌&&◌, ap,
  ◌∙◌, sym,
}
use mathlib.Core.Path.{subst}
use liquid_staking.Types.{
  UnbondRequest, UnbondRequestsByBatchResponseItem, UnbondRequestsByUserResponseItem,
  ValidatorMiningPower,
}
use liquid_staking.Store.{text_before, lookup, pair_key, Every-lookup}
use liquid_staking.Chain.{Chain}
use liquid_staking.State.{State}
use liquid_staking.Hub.Withdraw.{requests_of}
use liquid_staking.Hub.Accounting.{IsValid, IsKeyed}
use liquid_staking.Hub.Accounting.Claimed.Paying.{IsListed, requests_of-IsListed}
use liquid_staking.Hub.Queries.{take, page_limit}

abbrev pub Bytes : Type 0
Bytes = List ℕ

abbrev pub codes : String → Bytes
codes String.[] = []
codes (String.◌∷◌ c s) = code c ∷ codes s

-- `to_cw_bytes` of a `u64`: the last `n` of its bytes, the highest first.
abbrev pub be_bytes : ℕ → ℕ → Bytes
be_bytes zero id = []
be_bytes (suc n) id = (id / 256 ^ n) % 256 ∷ be_bytes n id

-- The order of keys.
abbrev pub bytes_before : Bytes → Bytes → Bool
bytes_before [] [] = false
bytes_before [] (y ∷ ys) = true
bytes_before (x ∷ xs) [] = false
bytes_before (x ∷ xs) (y ∷ ys) =
    let rest = bytes_before xs ys in if ltb x y then true else if x == y then rest else false

-- The bound that `unbond_requests_by_user` makes of an id.
abbrev pub user_bound : ℕ → Bytes
user_bound id = 0 ∷ 8 ∷ be_bytes 8 id

-- The key of a request in the index, after the user.
abbrev pub index_key : UnbondRequest → Bytes
index_key r = user_bound r.id ++ codes r.user

unfoldable pub is_after_bound : Option ℕ → UnbondRequest → Bool
is_after_bound none r = true
is_after_bound (some start) r = bytes_before (user_bound start) (index_key r)

unfoldable pub requests_after : Option ℕ → List UnbondRequest → List UnbondRequest
requests_after start [] = []
requests_after start (r ∷ rs) =
    let rest = requests_after start rs in if is_after_bound start r then r ∷ rest else rest

-- `UnbondRequestsByUserResponseItem::from`
abbrev pub item_of_user : UnbondRequest → UnbondRequestsByUserResponseItem
item_of_user r = record { id = r.id; shares = r.shares }

-- `UnbondRequestsByBatchResponseItem::from`
abbrev pub item_of_batch : UnbondRequest → UnbondRequestsByBatchResponseItem
item_of_batch r = record { user = r.user; shares = r.shares }

unfoldable pub unbond_requests_by_user :
    String → Option ℕ → Option ℕ → State → List UnbondRequestsByUserResponseItem
unbond_requests_by_user user start_after limit st =
    map item_of_user
      (take (page_limit limit) (requests_after start_after (requests_of user st.unbond_requests)))

-- Whether a text comes after the start of a page.
abbrev pub is_after_text : Option String → String → Bool
is_after_text none a = true
is_after_text (some start) a = text_before start a

-- The requests of batch `id` after the start.
unfoldable pub requests_on :
    ℕ → Option String → List ((ℕ × String) × UnbondRequest) → List UnbondRequest
requests_on id start [] = []
requests_on id start ((k, r) ∷ m) =
    let rest = requests_on id start m in
    if (k.0 == id) && is_after_text start k.1 then r ∷ rest else rest

-- The address that a page starts after, checked.
unfoldable pub start_address : Chain → Option String → Result (Option String)
start_address c none = ok none
start_address c (some a) = c.addr_validate a >>= λ addr. ok (some addr)

unfoldable pub unbond_requests_by_batch :
    Chain → ℕ → Option String → Option ℕ → State → Result (List UnbondRequestsByBatchResponseItem)
unbond_requests_by_batch c id start_after limit st = do
  start ← start_address c start_after
  ok (map item_of_batch (take (page_limit limit) (requests_on id start st.unbond_requests)))

unfoldable pub powers_after : Option String → List (String × ℕ) → List ValidatorMiningPower
powers_after start [] = []
powers_after start ((validator, power) ∷ m) =
    let rest = powers_after start m in
    if is_after_text start validator
    then record { address = validator; mining_power = power } ∷ rest
    else rest

unfoldable pub validator_mining_powers :
    Option String → Option ℕ → State → List ValidatorMiningPower
validator_mining_powers start_after limit st =
    take (page_limit limit) (powers_after start_after st.validator_mining_powers)

-- A key comes before every longer one that it starts.
bytes_before-append : (xs : Bytes) (y : ℕ) (ys : Bytes) → bytes_before xs (xs ++ y ∷ ys) ≡ true
bytes_before-append [] y ys = refl
bytes_before-append (x ∷ xs) y ys = ground (arith, bytes_before-append xs y ys)

requests_after-IsListed :
    (c : Char) (name : String) (r : UnbondRequest) (l : List UnbondRequest)
    → r.user ≡ String.◌∷◌ c name
    → IsListed r l
    → IsListed r (requests_after (some r.id) l)
unfolding requests_after is_after_bound
requests_after-IsListed c name r [] named i = elim i [ ]
requests_after-IsListed c name r (x ∷ l) named i =
    elim (Bool-cases (is_after_bound (some r.id) x)) [
      | inl e ↦ elim i [
        | inl q ↦ rw e (inl q)
        | inr j ↦ rw e (inr (requests_after-IsListed c name r l named j))
      ]
      | inr e ↦ elim i [
        | inl q ↦
            let key = ap (λ (u : String). user_bound r.id ++ codes u) named in
            let own : is_after_bound (some r.id) r ≡ true =
              ap (bytes_before (user_bound r.id)) key
              ∙ bytes_before-append (user_bound r.id) (code c) (codes name) in
            let same = ap (is_after_bound (some r.id)) q in absurd (ground (arith, own, same, e))
        | inr j ↦ rw e (requests_after-IsListed c name r l named j)
      ]
    ]

-- In a state whose book-keeping is in order, the list that is to start after the request of a user on
-- some batch has that request again: the bound is only the first part of its key, and so comes
-- before it.
pub unbond_requests_by_user_repeats :
    (st : State) (c : Char) (name : String) (id : ℕ) (r : UnbondRequest)
    → IsValid st
    → lookup (id, String.◌∷◌ c name) st.unbond_requests ≡ some r
    → IsListed r (requests_after (some id) (requests_of (String.◌∷◌ c name) st.unbond_requests))
unbond_requests_by_user_repeats st c name id r v found =
    let rs = st.unbond_requests in
    let user = String.◌∷◌ c name in
    let a = v.accounted in
    let keys : (id, user) ≡ (r.id, r.user) = Every-lookup IsKeyed (id, user) r rs a.keyed found in
    let same_id : id ≡ r.id = ap (λ (k : ℕ × String). k.0) keys in
    let same_user : r.user ≡ user = sym (ap (λ (k : ℕ × String). k.1) keys) in
    let listed = requests_of-IsListed user rs id r a.keyed found in
    subst (λ (i : ℕ). IsListed r (requests_after (some i) (requests_of user rs))) (sym same_id)
      (requests_after-IsListed c name r (requests_of user rs) same_user listed)
