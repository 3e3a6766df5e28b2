-- ===== src/Registry/Prune.antt =====
-- `prune_stopped` bounds the stopped sessions, takes the oldest of them and nothing else.
use weft_os.Base.{
  ℕ, ◌-◌, ◌≤◌, ◌<◌, ◌≡◌, ◌≢◌, inl, inr, Bool, true, false, not, List, [], none, arith, leb,
  if◌then◌else◌, length, take, drop, filter, Bool-cases, take-append-drop, length-drop,
  length-filter-le, ap,
}
use weft_os.Base.Map.{Map, contains, lookup, NodupKeys, lookup-remove_all}
use weft_os.Base.Sort.{
  sort, sort-IsSorted, length-sort, length-filter-sort, contains-sort, contains-take, take-lt,
}
use weft_os.Registry.{SessionEntry, stopped_ids, pruned_ids, prune, kept_stopped}
use weft_os.Registry.Ids.{stopped_at, contains-stopped_ids, stopped_ids-remove_all, left_over}

-- What the removal of the first ids of the sorted list leaves.
left_of_sorted :
    (n : ℕ) (ids : List ℕ)
    → length (filter (λ j. not (contains (take n (sort ids)) j)) ids) ≤ length ids - n
left_of_sorted n ids = omega (
  arith,
  length-filter-sort p ids,
  ap (λ js. length (filter p js)) (take-append-drop n (sort ids)),
  left_over p (take n (sort ids)) (drop n (sort ids)) (λ k h. rw h),
  length-drop n (sort ids),
  length-sort ids,
)
  where
    p : ℕ → Bool
    p j = not (contains (take n (sort ids)) j)

-- However many sessions have stopped, at most `KEPT_STOPPED` of them stay.
pub length-stopped_ids-prune :
    (m : Map SessionEntry) → length (stopped_ids (prune m)) ≤ kept_stopped
unfolding prune pruned_ids
length-stopped_ids-prune m = elim (Bool-cases (leb (length (stopped_ids m)) kept_stopped)) [
  | inl few ↦
      rw (stopped_ids-remove_all (pruned_ids m) m, few)
        (ground (arith, length-filter-le (λ j. not (contains [] j)) (stopped_ids m)))
  | inr many ↦
      rw (stopped_ids-remove_all (pruned_ids m) m, many)
        (ground (arith, left_of_sorted (length (stopped_ids m) - kept_stopped) (stopped_ids m)))
]

contains-pruned_ids :
    (m : Map SessionEntry) (k : ℕ)
    → contains (pruned_ids m) k ≡ true
    → contains (stopped_ids m) k ≡ true
unfolding pruned_ids contains
contains-pruned_ids m k h = ground (
  arith,
  contains-take (length (stopped_ids m) - kept_stopped) (sort (stopped_ids m)) k,
  contains-sort (stopped_ids m) k,
)

pruned_ids-lt :
    (m : Map SessionEntry) (k j : ℕ)
    → contains (pruned_ids m) k ≡ true
    → contains (pruned_ids m) j ≡ false
    → contains (stopped_ids m) j ≡ true
    → k < j
unfolding pruned_ids contains
pruned_ids-lt m k j ck cj c = ground (
  arith,
  take-lt (length (stopped_ids m) - kept_stopped) (sort (stopped_ids m)) k j
      (sort-IsSorted (stopped_ids m)),
  contains-sort (stopped_ids m) j,
)

-- A session that has not stopped is not touched.
pub lookup-prune_live :
    (m : Map SessionEntry) (k : ℕ)
    → NodupKeys m
    → stopped_at (lookup k m) ≡ false
    → lookup k (prune m) ≡ lookup k m
unfolding prune
lookup-prune_live m k u live = ground (
  arith,
  lookup-remove_all k (pruned_ids m) m,
  contains-pruned_ids m k,
  contains-stopped_ids m k u,
)

-- A session that was forgotten is older than every stopped session that stays.
prune_oldest :
    (m : Map SessionEntry) (k j : ℕ)
    → NodupKeys m
    → lookup k m ≢ none
    → lookup k (prune m) ≡ none
    → stopped_at (lookup j (prune m)) ≡ true
    → k < j
unfolding prune
prune_oldest m k j u known gone kept = ground (
  arith,
  lookup-remove_all k (pruned_ids m) m,
  lookup-remove_all j (pruned_ids m) m,
  contains-stopped_ids m j u,
  pruned_ids-lt m k j,
)

pub lookup-prune :
    (m : Map SessionEntry) (k : ℕ)
    → lookup k (prune m) ≡ (if contains (pruned_ids m) k then none else lookup k m)
unfolding prune
lookup-prune m k = lookup-remove_all k (pruned_ids m) m
