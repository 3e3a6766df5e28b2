-- ===== src/Base/Sort.antt =====
-- `sort_unstable` on ids, and what it keeps.
use Prim.Native.Nat.{ℕ, zero, suc, ◌≤◌, ◌<◌}
use mathlib.Core.Path.{◌≡◌, refl, ◌∙◌}
use mathlib.Core.Bool.{Bool, true, false, ◌||◌}
use mathlib.Core.List.{List, [], ◌∷◌}
use native.Mathlib.Omega.{arith}
use weft_os.Base.Tests.{◌==◌, leb, if◌then◌else◌}
use weft_os.Base.Lists.{length, filter, take, All}
use weft_os.Base.Map.{contains}

insert_sorted : ℕ → List ℕ → List ℕ
insert_sorted a [] = a ∷ []
insert_sorted a (b ∷ bs) = if leb a b then a ∷ b ∷ bs else b ∷ insert_sorted a bs

unfoldable pub sort : List ℕ → List ℕ
unfolding insert_sorted
sort [] = []
sort (a ∷ xs) = insert_sorted a (sort xs)

abbrev pub IsSorted : List ℕ → Type 0
IsSorted [] = Unit
IsSorted (a ∷ xs) = All (λ b. a ≤ b) xs × IsSorted xs

All-le_trans : (a b : ℕ) (cs : List ℕ) → a ≤ b → All (λ c. b ≤ c) cs → All (λ c. a ≤ c) cs
All-le_trans a b [] h t = tt
All-le_trans a b (c ∷ cs) h t = (omega arith, All-le_trans a b cs h t.1)

All-insert_sorted :
    (a b : ℕ) (cs : List ℕ) → a ≤ b → All (λ c. a ≤ c) cs → All (λ c. a ≤ c) (insert_sorted b cs)
unfolding insert_sorted
All-insert_sorted a b [] h t = (h, tt)
All-insert_sorted a b (c ∷ cs) h t = ground (arith, All-insert_sorted a b cs h t.1)

insert_sorted-IsSorted : (a : ℕ) (bs : List ℕ) → IsSorted bs → IsSorted (insert_sorted a bs)
unfolding insert_sorted
insert_sorted-IsSorted a [] s = (tt, tt)
insert_sorted-IsSorted a (b ∷ bs) s =
    ground (arith, insert_sorted-IsSorted a bs s.1, All-insert_sorted b a bs, All-le_trans a b bs)

pub sort-IsSorted : (xs : List ℕ) → IsSorted (sort xs)
unfolding sort
sort-IsSorted [] = tt
sort-IsSorted (a ∷ xs) = insert_sorted-IsSorted a (sort xs) (sort-IsSorted xs)

length-insert_sorted : (a : ℕ) (bs : List ℕ) → length (insert_sorted a bs) ≡ suc (length bs)
unfolding insert_sorted
length-insert_sorted a [] = refl
length-insert_sorted a (b ∷ bs) = ground (arith, length-insert_sorted a bs)

pub length-sort : (xs : List ℕ) → length (sort xs) ≡ length xs
unfolding sort
length-sort [] = refl
length-sort (a ∷ xs) = omega (arith, length-insert_sorted a (sort xs), length-sort xs)

module _ (p : ℕ → Bool) where
  filter-insert_sorted :
      (a : ℕ) (bs : List ℕ) → length (filter p (insert_sorted a bs)) ≡ length (filter p (a ∷ bs))
  unfolding insert_sorted filter
  filter-insert_sorted a [] = refl
  filter-insert_sorted a (b ∷ bs) = ground (arith, filter-insert_sorted a bs)

  -- Sorting keeps how many elements pass any test.
  pub length-filter-sort : (xs : List ℕ) → length (filter p (sort xs)) ≡ length (filter p xs)
  unfolding sort filter
  length-filter-sort [] = refl
  length-filter-sort (a ∷ xs) =
      filter-insert_sorted a (sort xs) ∙ ground (arith, length-filter-sort xs)

contains-insert_sorted :
    (a : ℕ) (bs : List ℕ) (k : ℕ) → contains (insert_sorted a bs) k ≡ (a == k || contains bs k)
unfolding insert_sorted contains
contains-insert_sorted a [] k = refl
contains-insert_sorted a (b ∷ bs) k = ground (arith, contains-insert_sorted a bs k)

pub contains-sort : (xs : List ℕ) (k : ℕ) → contains (sort xs) k ≡ contains xs k
unfolding sort contains
contains-sort [] k = refl
contains-sort (a ∷ xs) k = ground (arith, contains-insert_sorted a (sort xs) k, contains-sort xs k)

pub contains-take :
    (n : ℕ) (xs : List ℕ) (k : ℕ) → contains (take n xs) k ≡ true → contains xs k ≡ true
unfolding contains
contains-take zero xs k h = cc
contains-take (suc n) [] k h = cc
contains-take (suc n) (x ∷ xs) k h = ground (arith, contains-take n xs k)

All-contains : (a : ℕ) (xs : List ℕ) (k : ℕ) → All (λ b. a ≤ b) xs → contains xs k ≡ true → a ≤ k
unfolding contains
All-contains a [] k h c = cc
All-contains a (x ∷ xs) k h c = ground (arith, All-contains a xs k h.1)

-- In a sorted list what stands among the first elements is below what does not.
pub take-lt :
    (n : ℕ) (xs : List ℕ) (k j : ℕ)
    → IsSorted xs
    → contains (take n xs) k ≡ true
    → contains (take n xs) j ≡ false
    → contains xs j ≡ true
    → k < j
unfolding contains
take-lt zero xs k j s ck cj c = cc
take-lt (suc n) [] k j s ck cj c = cc
take-lt (suc n) (x ∷ xs) k j s ck cj c =
    ground (arith, take-lt n xs k j s.1, All-contains x xs j s.0)
