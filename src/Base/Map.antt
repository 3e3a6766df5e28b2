-- ===== src/Base/Map.antt =====
-- `HashMap<u64, V>` as an association list; the iteration order is that of insertion.
use Prim.Native.Nat.{ℕ}
use mathlib.Core.Path.{◌≡◌, refl}
use mathlib.Core.Bool.{Bool, false, ◌||◌}
use mathlib.Core.List.{List, [], ◌∷◌}
use mathlib.Core.Option.{Option, none, some}
use native.Mathlib.Omega.{arith}
use weft_os.Base.Tests.{◌==◌, if◌then◌else◌}

abbrev pub Map {ℓ} : Type ℓ → Type ℓ
Map V = List (ℕ × V)

-- `slice::contains` on ids
unfoldable pub contains : List ℕ → ℕ → Bool
contains [] k = false
contains (j ∷ js) k = j == k || contains js k

module _ {ℓ} {V : Type ℓ} where
  unfoldable pub lookup : ℕ → Map V → Option V
  lookup id [] = none
  lookup id ((key, value) ∷ rest) = if key == id then some value else lookup id rest

  unfoldable pub insert : ℕ → V → Map V → Map V
  insert id new [] = (id, new) ∷ []
  insert id new ((key, old) ∷ rest) =
      if key == id then (id, new) ∷ rest else (key, old) ∷ insert id new rest

  unfoldable pub remove : ℕ → Map V → Map V
  remove k [] = []
  remove k ((j, v) ∷ m) = let rest = remove k m in if j == k then rest else (j, v) ∷ rest

  -- `get_mut` and an assignment through it
  unfoldable pub update : ℕ → (V → V) → Map V → Map V
  update k f [] = []
  update k f ((j, v) ∷ m) = (j, if j == k then f v else v) ∷ update k f m

  unfoldable pub remove_all : List ℕ → Map V → Map V
  remove_all [] m = m
  remove_all (k ∷ ks) m = remove_all ks (remove k m)

  -- A hash map has one entry at most for a key.
  abbrev pub NodupKeys : Map V → Type ℓ
  NodupKeys [] = Unit
  NodupKeys ((k, v) ∷ m) = (lookup k m ≡ none) × NodupKeys m

  abbrev pub map_option : (V → V) → Option V → Option V
  map_option f none = none
  map_option f (some v) = some (f v)

  pub lookup-insert :
      (j k : ℕ) (v : V) (m : Map V)
      → lookup j (insert k v m) ≡ (if k == j then some v else lookup j m)
  unfolding lookup insert
  lookup-insert j k v [] = refl
  lookup-insert j k v ((i, w) ∷ m) = ground (arith, lookup-insert j k v m)

  pub lookup-remove :
      (j k : ℕ) (m : Map V) → lookup j (remove k m) ≡ (if k == j then none else lookup j m)
  unfolding lookup remove
  lookup-remove j k [] = ground arith
  lookup-remove j k ((i, w) ∷ m) = ground (arith, lookup-remove j k m)

  pub lookup-update :
      (j k : ℕ) (f : V → V) (m : Map V)
      → lookup j (update k f m) ≡ (if k == j then map_option f (lookup j m) else lookup j m)
  unfolding lookup update
  lookup-update j k f [] = ground arith
  lookup-update j k f ((i, w) ∷ m) = ground (arith, lookup-update j k f m)

  pub lookup-remove_all :
      (j : ℕ) (ks : List ℕ) (m : Map V)
      → lookup j (remove_all ks m) ≡ (if contains ks j then none else lookup j m)
  unfolding remove_all contains
  lookup-remove_all j [] m = refl
  lookup-remove_all j (k ∷ ks) m =
      ground (arith, lookup-remove_all j ks (remove k m), lookup-remove j k m)

  pub insert-NodupKeys : (k : ℕ) (v : V) (m : Map V) → NodupKeys m → NodupKeys (insert k v m)
  unfolding insert
  insert-NodupKeys k v [] u = (lookup-nil, tt)
    where
      lookup-nil : lookup k [] ≡ none
      lookup-nil = unfold lookup in refl
  insert-NodupKeys k v ((j, w) ∷ m) (fresh, u) =
      ground (arith, insert-NodupKeys k v m u, lookup-insert j k v m)

  pub remove-NodupKeys : (k : ℕ) (m : Map V) → NodupKeys m → NodupKeys (remove k m)
  unfolding remove
  remove-NodupKeys k [] u = tt
  remove-NodupKeys k ((j, w) ∷ m) (fresh, u) =
      ground (arith, remove-NodupKeys k m u, lookup-remove j k m)

  pub update-NodupKeys : (k : ℕ) (f : V → V) (m : Map V) → NodupKeys m → NodupKeys (update k f m)
  unfolding update
  update-NodupKeys k f [] u = tt
  update-NodupKeys k f ((j, w) ∷ m) (fresh, u) =
      ground (arith, update-NodupKeys k f m u, lookup-update j k f m)

  pub remove_all-NodupKeys : (ks : List ℕ) (m : Map V) → NodupKeys m → NodupKeys (remove_all ks m)
  unfolding remove_all
  remove_all-NodupKeys [] m u = u
  remove_all-NodupKeys (k ∷ ks) m u = remove_all-NodupKeys ks (remove k m) (remove-NodupKeys k m u)
