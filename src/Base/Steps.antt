-- ===== src/Base/Steps.antt =====
-- A call that changes a state and may fail, with its `?`.
use mathlib.Core.Path.{◌≡◌, ◌∙◌, refl}
use mathlib.Core.Bool.{Bool, true, false}
use weft_os.Base.Tests.{if◌then◌else◌}
use weft_os.Base.Results.{Result, ok, err}

-- `m?`, and then the rest of the function on the state that `m` left
abbrev pub after {ℓ κ μ ν} :
    {S : Type ℓ} {E : Type κ} {A : Type μ} {B : Type ν}
    → S × Result E A
    → (S → A → S × Result E B)
    → S × Result E B
after m rest = elim m.1 [ err e ↦ (m.0, err e) | ok a ↦ rest m.0 a ]

-- What a view shows, where neither the first part nor the rest changes it.
pub after-same {ℓ κ μ ν ξ} :
    {S : Type ℓ} {E : Type κ} {A : Type μ} {B : Type ν} {V : Type ξ} (view : S → V) (s : S)
    (m : S × Result E A) (rest : S → A → S × Result E B)
    → view m.0 ≡ view s
    → ((t : S) (a : A) → view (rest t a).0 ≡ view t)
    → view (after m rest).0 ≡ view s
after-same view s (t, err e) rest first later = first
after-same view s (t, ok a) rest first later = later t a ∙ first

-- A predicate that errors have, and the rest's results.
pub after-ind {ℓ κ μ ν ξ} :
    {S : Type ℓ} {E : Type κ} {A : Type μ} {B : Type ν} (P : S × Result E B → Type ξ)
    (m : S × Result E A) (rest : S → A → S × Result E B)
    → ((t : S) (e : E) → P (t, err e))
    → ((t : S) (a : A) → P (rest t a))
    → P (after m rest)
after-ind P (t, err e) rest failed later = failed t e
after-ind P (t, ok a) rest failed later = later t a

-- What a view shows of either branch.
pub if-same {ℓ κ} :
    {S : Type ℓ} {V : Type κ} (view : S → V) (b : Bool) (x z : S) (v : V)
    → (b ≡ true → view x ≡ v)
    → (b ≡ false → view z ≡ v)
    → view (if b then x else z) ≡ v
if-same view true x z v h g = h refl
if-same view false x z v h g = g refl
