-- ===== src/Tests/Viewport.antt =====
-- A pane of 100 rows, and frames under the default budget.
use nudge.Base.{[], arith, refl, true, ◌↔◌, ◌∷◌, ◌≡◌}
use nudge.Base.Int.{int64, pos, ◌+ℤ◌, ◌-ℤ◌, ◌<ℤ◌, ◌≤ℤ◌}
use nudge.Base.Result.{ok}
use nudge.Viewport.Budget.{FrameWork, RenderBudget, admit, admit_rows, begin}
use nudge.Viewport.Budget.Laws.{IsWithin, admit_iff, begin-admit_rows_bounded}
use nudge.Viewport.Window.{clamp_cursor, clamp_int, follow_cursor, max_int, min_int, place, window}
use nudge.Viewport.Window.Bounds.{Covers, window-Covers}

bottom_window : window (pos 100) (pos 250) (pos 3) (pos 20) (pos 5) ≡ record {
  total = pos 100;
  cursor = pos 99;
  top = pos 80;
  start = pos 75;
  end = pos 100;
  overscan = pos 5;
}
unfolding window place clamp_cursor follow_cursor clamp_int max_int min_int int64 ◌+ℤ◌ ◌-ℤ◌
bottom_window = refl

window-Covers_example :
    Covers
      (pos 100)
      (min_int (pos 20) (pos 100))
      (pos 5)
      (pos 250)
      (window (pos 100) (pos 250) (pos 3) (pos 20) (pos 5))
unfolding ◌+ℤ◌
window-Covers_example =
    window-Covers (pos 100) (pos 250) (pos 3) (pos 20) (pos 5) (omega arith) (omega arith)
      (omega arith) (omega arith) (omega arith) (omega arith)

abbrev small_budget : RenderBudget
small_budget = record { max_rows = pos 2; max_cells = pos 10 }

abbrev small_frame : FrameWork
small_frame = record { budget = small_budget; rows = pos 0; cells = pos 0 }

begin_small : begin small_budget ≡ ok small_frame
unfolding begin
begin_small = refl

begin-admit_rows_bounded_example :
    ((admit_rows small_frame (pos 4 ∷ pos 5 ∷ pos 1 ∷ [])).budget ≡ small_budget)
    × IsWithin (admit_rows small_frame (pos 4 ∷ pos 5 ∷ pos 1 ∷ []))
begin-admit_rows_bounded_example =
    begin-admit_rows_bounded small_budget small_frame (pos 4 ∷ pos 5 ∷ pos 1 ∷ []) (omega arith)
      (omega arith) begin_small

small_frame-IsWithin : IsWithin small_frame
small_frame-IsWithin = omega arith

admit_iff_example :
    ((admit small_frame (pos 11)).1 ≡ true)
    ↔ ((pos 0 ≤ℤ pos 11) × (pos 0 <ℤ pos 2) × (pos 0 +ℤ pos 11 ≤ℤ pos 10))
admit_iff_example = admit_iff small_frame (pos 11) small_frame-IsWithin
