-- ===== src/WorkArea/Examples.antt =====
-- A panel at the top of a screen.
use weft_os.Base.{◌≡◌, ◌+◌, arith, List, [], ◌∷◌, Option, none, some}
use weft_os.WorkArea.{top, Rectangle, Zone, work_area_of}
use weft_os.WorkArea.Inside.{work_area_of-exact}

abbrev screen : Rectangle
screen = record { x = 0; y = 0; w = 1280; h = 800 }

abbrev zones : List (Option Zone)
zones = some (top, 32) ∷ none ∷ []

work_area_of-exact_example :
    ((work_area_of screen zones).x ≡ 0 + 0)
    × ((work_area_of screen zones).y ≡ 0 + (32 + 0))
    × ((work_area_of screen zones).w + (0 + 0) ≡ 1280)
    × ((work_area_of screen zones).h + (32 + 0) ≡ 800)
work_area_of-exact_example = work_area_of-exact screen zones (omega arith) (omega arith)
