-- ===== src/Registry/Ids.antt =====
-- `prune_stopped` on the session table: which ids it takes, and what stays.
use weft_os.Base.{
  ℕ, ◌≤◌, ◌≡◌, refl, Bool, true, false, not, List, [], ◌∷◌, ◌++◌, Option, none, some, arith, ◌==◌,
  length, filter, ap, sym, ◌∙◌,
}
use weft_os.Base.Map.{Map, contains, lookup, remove, remove_all, NodupKeys}
use weft_os.Registry.{SessionEntry, is_stopped, stopped_ids}

abbrev pub stopped_at : Option SessionEntry → Bool
stopped_at none = false
stopped_at (some e) = is_stopped e.state

not_collected :
    (m : Map SessionEntry) (k : ℕ) → lookup k m ≡ none → contains (stopped_ids m) k ≡ false
unfolding lookup stopped_ids contains
not_collected [] k h = refl
not_collected ((j, e) ∷ m) k h = ground (arith, not_collected m k)

-- The collected ids are those whose session is stopped.
pub contains-stopped_ids :
    (m : Map SessionEntry) (k : ℕ)
    → NodupKeys m
    → contains (stopped_ids m) k ≡ stopped_at (lookup k m)
unfolding lookup stopped_ids contains
contains-stopped_ids [] k u = refl
contains-stopped_ids ((j, e) ∷ m) k (fresh, u) =
    ground (arith, contains-stopped_ids m k u, not_collected m k)

-- Removing sessions drops their ids from the stopped ones.
stopped_ids-remove :
    (k : ℕ) (m : Map SessionEntry)
    → stopped_ids (remove k m) ≡ filter (λ j. not (j == k)) (stopped_ids m)
unfolding stopped_ids remove filter
stopped_ids-remove k [] = refl
stopped_ids-remove k ((j, e) ∷ m) = ground (arith, stopped_ids-remove k m)

filter-filter :
    (k : ℕ) (ks ids : List ℕ)
    → filter (λ j. not (contains ks j)) (filter (λ j. not (j == k)) ids)
      ≡ filter (λ j. not (contains (k ∷ ks) j)) ids
unfolding filter contains
filter-filter k ks [] = refl
filter-filter k ks (j ∷ ids) = ground (arith, filter-filter k ks ids)

all_kept : (ids : List ℕ) → filter (λ j. not (contains [] j)) ids ≡ ids
unfolding filter contains
all_kept [] = refl
all_kept (j ∷ ids) = ap (◌∷◌ j) (all_kept ids)

pub stopped_ids-remove_all :
    (ks : List ℕ) (m : Map SessionEntry)
    → stopped_ids (remove_all ks m) ≡ filter (λ j. not (contains ks j)) (stopped_ids m)
unfolding remove_all
stopped_ids-remove_all [] m = sym (all_kept (stopped_ids m))
stopped_ids-remove_all (k ∷ ks) m =
    stopped_ids-remove_all ks (remove k m)
    ∙ ap (filter (λ j. not (contains ks j))) (stopped_ids-remove k m)
    ∙ filter-filter k ks (stopped_ids m)

-- Of a list in two parts, at most the second is left when the first is removed.
pub left_over :
    (p : ℕ → Bool) (xs ys : List ℕ)
    → ((k : ℕ) → contains xs k ≡ true → p k ≡ false)
    → length (filter p (xs ++ ys)) ≤ length ys
unfolding filter contains
left_over p [] [] h = omega arith
left_over p [] (y ∷ ys) h = ground (arith, left_over p [] ys)
left_over p (x ∷ xs) ys h = ground (arith, h x, left_over p xs ys (λ k e. h k (ground arith)))
