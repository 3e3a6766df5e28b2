-- ===== src/WorkArea.antt =====
-- crates/weft-compositor/src/windows.rs: the area that application windows occupy, and the zones
-- that panels reserve (`SetExclusiveZone` in crates/weft-compositor/src/state.rs). The output lies
-- at a position that is not negative, and a zone's size is positive: the request with a size below
-- 0 is an error, and one with 0 clears the zone.
pub mod Inside
mod Examples
use Prim.Native.Nat.{min, max}
use weft_os.Base.{
  ℕ, ◌+◌, ◌-◌, Bool, true, false, ◌==◌, List, [], ◌∷◌, Option, none, some, if◌then◌else◌,
}

pub data Edge : Type 0 where
  top bottom left right : Edge

pub record Rectangle : Type 0 where
  pub x : ℕ
  pub y : ℕ
  pub w : ℕ
  pub h : ℕ

abbrev pub Zone : Type 0
Zone = Edge × ℕ

-- the `match edge`
reserve : Edge → ℕ → Rectangle → Rectangle
reserve top size area = record area { y = area.y + min size area.h; h = area.h - min size area.h }
reserve bottom size area = record area { h = area.h - min size area.h }
reserve left size area = record area { x = area.x + min size area.w; w = area.w - min size area.w }
reserve right size area = record area { w = area.w - min size area.w }

-- the loop over the panels, by the zone of each
pub reserved : Rectangle → List (Option Zone) → Rectangle
unfolding reserve
reserved area [] = area
reserved area (none ∷ zones) = reserved area zones
reserved area (some (edge, size) ∷ zones) = reserved (reserve edge size area) zones

-- for the geometry of the first output
unfoldable pub work_area_of : Rectangle → List (Option Zone) → Rectangle
unfolding reserved
work_area_of output zones =
    let area = reserved output zones in record area { w = max area.w 1; h = max area.h 1 }

unfoldable pub work_area : Option Rectangle → List (Option Zone) → Option Rectangle
unfolding work_area_of
work_area none zones = none
work_area (some output) zones = some (work_area_of output zones)
