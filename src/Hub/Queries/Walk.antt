-- ===== src/Hub/Queries/Walk.antt =====
-- Reading all batches by the query `previous_batches` of contracts/hub/src/queries.rs, a page after the
-- other, each from the last id of the page before it.
use mathlib.Core.List.{append_assoc}
use liquid_staking.Base.{
  ℕ, zero, suc, false, Option, some, none, List, [], ◌∷◌, ◌++◌, length, ◌-◌, ◌≡◌, ◌≤◌, ◌<◌, refl,
  sym, ap, ◌∙◌, inl, inr, arith, ltb, Bool-cases,
}
use mathlib.Core.Path.{subst}
use liquid_staking.Types.{Batch}
use liquid_staking.Store.{Every, Above, Above-weaken, IsAscending, nat_key}
use liquid_staking.State.{State}
use liquid_staking.Hub.Accounting.{Batches, IsNumbered}
use liquid_staking.Hub.Queries.{previous_batches, batches_after, take, page_limit}
use liquid_staking.Hub.Invariant.Ordered.{IsOrdered}
use liquid_staking.Hub.Invariant.Reachable.{Reachable, Reachable-IsSound, Reachable-IsOrdered}

abbrev pub last : Batch → List Batch → Batch
last b [] = b
last b (x ∷ xs) = last x xs

-- What a client does with a page: it asks for the next one, unless the page is empty.
abbrev pub then_next : (ℕ → List Batch) → List Batch → List Batch
then_next next [] = []
then_next next (b ∷ bs) = (b ∷ bs) ++ next (last b bs).id

-- So many pages at most, from `start` on.
unfoldable pub all_pages : ℕ → Option ℕ → Option ℕ → State → List Batch
all_pages zero start limit st = []
all_pages (suc pages) start limit st =
    then_next (λ id. all_pages pages (some id) limit st) (previous_batches start limit st)

-- The batches of the map, without their keys.
abbrev pub values : Batches → List Batch
values [] = []
values ((k, b) ∷ m) = b ∷ values m

abbrev drop : ℕ → List Batch → List Batch
drop zero bs = bs
drop (suc n) [] = []
drop (suc n) (b ∷ bs) = drop n bs

length-values : (m : Batches) → length (values m) ≡ length m
length-values [] = refl
length-values ((k, b) ∷ m) = ap suc (length-values m)

take-drop : (n : ℕ) (bs : List Batch) → take n bs ++ drop n bs ≡ bs
unfolding take
take-drop zero bs = refl
take-drop (suc n) [] = refl
take-drop (suc n) (b ∷ bs) = ap (λ (l : List Batch). b ∷ l) (take-drop n bs)

-- All of a map whose keys are after the start.
batches_after-Above : (k : ℕ) (m : Batches) → Above k m → batches_after (some k) m ≡ values m
unfolding batches_after
batches_after-Above k [] h = refl
batches_after-Above k ((j, b) ∷ m) (lt, h) = ground (arith, lt, batches_after-Above k m h)

-- A batch of the map is after `k`, if all keys are.
member-Above :
    (k : ℕ) (m : Batches) (xs ys : List Batch) (x : Batch)
    → Above k m
    → Every IsNumbered m
    → values m ≡ xs ++ x ∷ ys
    → k < x.id
member-Above k [] [] ys x h n e = absurd (cc)
member-Above k [] (y ∷ xs) ys x h n e = absurd (cc)
member-Above k ((j, b) ∷ m) [] ys x (lt, h) (id, n) e =
    let same : b ≡ x = cc in
    let is_id : b.id ≡ x.id = ap (λ (z : Batch). z.id) same in ground (arith, lt, id, is_id)
member-Above k ((j, b) ∷ m) (y ∷ xs) ys x (lt, h) (id, n) e = member-Above k m xs ys x h n (cc)

-- What comes after the id of a batch in the map.
batches_after-member :
    (m : Batches) (xs ys : List Batch) (x : Batch)
    → IsAscending m
    → Every IsNumbered m
    → values m ≡ xs ++ x ∷ ys
    → batches_after (some x.id) m ≡ ys
unfolding batches_after
batches_after-member [] [] ys x h n e = absurd (cc)
batches_after-member [] (y ∷ xs) ys x h n e = absurd (cc)
batches_after-member ((j, b) ∷ m) [] ys x (above, h) (id, n) e =
    let same : b ≡ x = cc in
    let is_id : b.id ≡ x.id = ap (λ (z : Batch). z.id) same in
    let own : j ≡ x.id = ground (arith, id, is_id) in
    let rest : values m ≡ ys = cc in
    let before : ltb x.id j ≡ false = ground (arith, own) in
    rw before (batches_after-Above x.id m (subst (λ (k : ℕ). Above k m) own above) ∙ rest)
batches_after-member ((j, b) ∷ m) (y ∷ xs) ys x (above, h) (id, n) e =
    let rest : values m ≡ xs ++ x ∷ ys = cc in
    let lt = member-Above j m xs ys x above n rest in
    let before : ltb x.id j ≡ false = ground (arith, lt) in
    rw before (batches_after-member m xs ys x h n rest)

batches_after-none : (m : Batches) → batches_after none m ≡ values m
unfolding batches_after
batches_after-none [] = refl
batches_after-none ((j, b) ∷ m) = ap (λ (l : List Batch). b ∷ l) (batches_after-none m)

-- What comes after a start is the end of the map.
batches_after-suffix :
    (start : Option ℕ) (m : Batches)
    → IsAscending m
    → (pre : List Batch) × (values m ≡ pre ++ batches_after start m)
unfolding batches_after
batches_after-suffix none m h = ([], sym (batches_after-none m))
batches_after-suffix (some k) [] h = ([], refl)
batches_after-suffix (some k) ((j, b) ∷ m) (above, h) = elim (Bool-cases (ltb k j)) [
  | inl e ↦
      let all = batches_after-Above k m (Above-weaken k j m (ground (arith, e)) above) in
      ([], rw e (ap (λ (l : List Batch). b ∷ l) (sym all)))
  | inr e ↦
      let (pre, q) = batches_after-suffix (some k) m h in
      (b ∷ pre, rw e (ap (λ (l : List Batch). b ∷ l) q))
]

last-split :
    (b : Batch) (bs : List Batch) → (front : List Batch) × (b ∷ bs ≡ front ++ last b bs ∷ [])
last-split b [] = ([], refl)
last-split b (x ∷ xs) =
    let (front, e) = last-split x xs in (b ∷ front, ap (λ (l : List Batch). b ∷ l) e)

-- After a page that is not empty, what is left of the batches comes after its last id.
left_after :
    (start : Option ℕ) (m : Batches) (b : Batch) (page rest : List Batch)
    → IsAscending m
    → Every IsNumbered m
    → batches_after start m ≡ b ∷ page ++ rest
    → batches_after (some (last b page).id) m ≡ rest
left_after start m b page rest h n e =
    let (pre, whole) = batches_after-suffix start m h in
    let (front, page_eq) = last-split b page in
    let x = last b page in
    let at_x : b ∷ page ++ rest ≡ front ++ x ∷ rest =
      ap (λ (l : List Batch). l ++ rest) page_eq ∙ append_assoc front (x ∷ []) rest in
    batches_after-member m (pre ++ front) rest x h n (
      whole
      ∙ ap (λ (l : List Batch). pre ++ l) (e ∙ at_x)
      ∙ sym (append_assoc pre front (x ∷ rest)))

take-nil : (n : ℕ) → take {A = Batch} n [] ≡ []
unfolding take
take-nil zero = refl
take-nil (suc n) = refl

length-drop : (n : ℕ) (bs : List Batch) → length (drop n bs) ≤ length bs
length-drop zero bs = omega arith
length-drop (suc n) [] = omega arith
length-drop (suc n) (b ∷ bs) = omega (arith, length-drop n bs)

all_pages-rest :
    (pages n : ℕ) (start limit : Option ℕ) (st : State) (bs : List Batch)
    → IsOrdered st
    → Every IsNumbered st.previous_batches
    → page_limit limit ≡ suc n
    → batches_after start st.previous_batches ≡ bs
    → length bs ≤ pages
    → all_pages pages start limit st ≡ bs
unfolding all_pages previous_batches
all_pages-rest zero n start limit st [] o num size e fits = refl
all_pages-rest zero n start limit st (b ∷ bs) o num size e fits = absurd (omega (arith, fits))
all_pages-rest (suc pages) n start limit st [] o num size e fits =
    rw (e, take-nil (page_limit limit)) refl
all_pages-rest (suc pages) n start limit st (b ∷ bs) o num size e fits =
    let whole = sym (take-drop n bs) in
    let left =
      left_after start st.previous_batches b (take n bs) (drop n bs) o num
        (e ∙ ap (λ (l : List Batch). b ∷ l) whole) in
    let more =
      all_pages-rest pages n (some (last b (take n bs)).id) limit st (drop n bs) o num size left
        (omega (arith, fits, length-drop n bs)) in
    let page : take (page_limit limit) (batches_after start st.previous_batches) ≡ b ∷ take n bs =
      rw (e, size) (unfold take in refl) in
    rw page (
      ap (λ (l : List Batch). b ∷ take n bs ++ l) more ∙ ap (λ (l : List Batch). b ∷ l) (sym whole))

-- For every state that a hub can get into: a client that asks for the batches page by page, each time
-- after the last id of the page before, with a limit that is not zero, gets each batch exactly once,
-- in the order of their ids, if it asks for as many pages as there are batches, or for more.
pub all_pages_complete :
    (pages : ℕ) (limit : Option ℕ) (st : State)
    → Reachable st
    → 0 < page_limit limit
    → length st.previous_batches ≤ pages
    → all_pages pages none limit st ≡ values st.previous_batches
all_pages_complete pages limit st r pos fits =
    let m = st.previous_batches in
    let sound = Reachable-IsSound r in
    all_pages-rest pages (page_limit limit - 1) none limit st (values m) (Reachable-IsOrdered r)
      sound.valid.accounted.numbered (omega (arith, pos)) (batches_after-none m)
      (omega (arith, fits, length-values m))
