-- ===== src/WorkArea/Inside.antt =====
-- The work area stays in the output, and off the strips that were reserved.
use weft_os.Base.{ℕ, ◌≡◌, ◌≤◌, ◌<◌, ◌+◌, arith, List, [], ◌∷◌, Option, none, some}
use weft_os.WorkArea.{
  Edge, top, bottom, left, right, Rectangle, Zone, reserve, reserved, work_area_of,
}

-- `a` lies in `b`.
abbrev pub Inside : Rectangle → Rectangle → Type 0
Inside a b = (b.x ≤ a.x) × (b.y ≤ a.y) × (a.x + a.w ≤ b.x + b.w) × (a.y + a.h ≤ b.y + b.h)

-- The sum of the sizes reserved at an edge.
abbrev pub at : Edge → Edge → ℕ → ℕ
at top top size = size
at bottom bottom size = size
at left left size = size
at right right size = size
at _ _ size = 0

abbrev pub total : Edge → List (Option Zone) → ℕ
total e [] = 0
total e (none ∷ zones) = total e zones
total e (some (edge, size) ∷ zones) = at e edge size + total e zones

reserved-exact :
    (area : Rectangle) (zones : List (Option Zone))
    → total left zones + total right zones ≤ area.w
    → total top zones + total bottom zones ≤ area.h
    → ((reserved area zones).x ≡ area.x + total left zones)
      × ((reserved area zones).y ≡ area.y + total top zones)
      × ((reserved area zones).w + (total left zones + total right zones) ≡ area.w)
      × ((reserved area zones).h + (total top zones + total bottom zones) ≡ area.h)
unfolding reserved reserve
reserved-exact area [] hw hh = (omega arith, omega arith, omega arith, omega arith)
reserved-exact area (none ∷ zones) hw hh = reserved-exact area zones hw hh
reserved-exact area (some (top, size) ∷ zones) hw hh =
    let rest = reserved-exact (reserve top size area) zones (omega arith) (omega arith) in
    (omega arith, omega arith, omega arith, omega arith)
reserved-exact area (some (bottom, size) ∷ zones) hw hh =
    let rest = reserved-exact (reserve bottom size area) zones (omega arith) (omega arith) in
    (omega arith, omega arith, omega arith, omega arith)
reserved-exact area (some (left, size) ∷ zones) hw hh =
    let rest = reserved-exact (reserve left size area) zones (omega arith) (omega arith) in
    (omega arith, omega arith, omega arith, omega arith)
reserved-exact area (some (right, size) ∷ zones) hw hh =
    let rest = reserved-exact (reserve right size area) zones (omega arith) (omega arith) in
    (omega arith, omega arith, omega arith, omega arith)

-- When the strips reserved at opposite edges leave room between them, the work area is exactly the
-- output less all the strips, so that an application window covers none of them.
pub work_area_of-exact :
    (output : Rectangle) (zones : List (Option Zone))
    → total left zones + total right zones < output.w
    → total top zones + total bottom zones < output.h
    → ((work_area_of output zones).x ≡ output.x + total left zones)
      × ((work_area_of output zones).y ≡ output.y + total top zones)
      × ((work_area_of output zones).w + (total left zones + total right zones) ≡ output.w)
      × ((work_area_of output zones).h + (total top zones + total bottom zones) ≡ output.h)
unfolding work_area_of
work_area_of-exact output zones hw hh =
    let exact = reserved-exact output zones (omega arith) (omega arith) in
    (exact.0, exact.1, omega arith, omega arith)
