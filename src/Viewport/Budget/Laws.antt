-- ===== src/Viewport/Budget/Laws.antt =====
-- The work of a frame stays within its budget.
use nudge.Base.{Bool-cases, List, [], arith, false, inl, inr, refl, true, ◌↔◌, ◌∙◌, ◌∷◌, ◌≡◌}
use nudge.Base.Int.{+ℤ_parts, -ℤ_parts, IsInt, int64_exact, pos, ℤ, ◌+ℤ◌, ◌-ℤ◌, ◌<ℤ◌, ◌≤ℤ◌}
use nudge.Base.Result.{ok}
use nudge.Viewport.Budget.{FrameWork, RenderBudget, admit, admit_rows, begin, exhausted}

-- Between two rows: the counters are not negative and stay within the budget.
pub record IsWithin (w : FrameWork) : Type 0 where
  pub rows_nonneg : pos 0 ≤ℤ w.rows
  pub rows_capped : w.rows ≤ℤ w.budget.max_rows
  pub cells_nonneg : pos 0 ≤ℤ w.cells
  pub cells_capped : w.cells ≤ℤ w.budget.max_cells
  pub rows_int : IsInt w.budget.max_rows
  pub cells_int : IsInt w.budget.max_cells

pub admit-IsWithin : (w : FrameWork) (c : ℤ) → IsWithin w → IsWithin (admit w c).0
unfolding admit
admit-IsWithin w c h = ground (
  arith,
  -ℤ_parts w.budget.max_cells w.cells,
  int64_exact (w.budget.max_cells -ℤ w.cells),
  +ℤ_parts w.rows (pos 1),
  int64_exact (w.rows +ℤ pos 1),
  +ℤ_parts w.cells c,
  int64_exact (w.cells +ℤ c),
)

-- A row is admitted exactly when its cells are not negative and one more row and these cells fit.
-- The frame is within its budget.
pub admit_iff :
    (w : FrameWork) (c : ℤ)
    → IsWithin w
    → ((admit w c).1 ≡ true)
      ↔ ((pos 0 ≤ℤ c) × (w.rows <ℤ w.budget.max_rows) × (w.cells +ℤ c ≤ℤ w.budget.max_cells))
unfolding admit
admit_iff w c h = ground (
  arith,
  -ℤ_parts w.budget.max_cells w.cells,
  int64_exact (w.budget.max_cells -ℤ w.cells),
  +ℤ_parts w.cells c,
)

-- An exhausted frame admits no row that draws a cell.
exhausted-admit :
    (w : FrameWork) (c : ℤ) → IsWithin w → exhausted w ≡ true → pos 0 <ℤ c → admit w c ≡ (w, false)
unfolding admit exhausted
exhausted-admit w c h e k =
    ground (arith, -ℤ_parts w.budget.max_cells w.cells, int64_exact (w.budget.max_cells -ℤ w.cells))

begin-IsWithin :
    (b : RenderBudget) (w : FrameWork)
    → IsInt b.max_rows
    → IsInt b.max_cells
    → begin b ≡ ok w
    → IsWithin w
unfolding begin
begin-IsWithin b w hr hc e = ground arith

begin-budget : (b : RenderBudget) (w : FrameWork) → begin b ≡ ok w → w.budget ≡ b
unfolding begin
begin-budget b w e = ground arith

admit_rows-IsWithin : (w : FrameWork) (cs : List ℤ) → IsWithin w → IsWithin (admit_rows w cs)
unfolding admit_rows
admit_rows-IsWithin w [] h = h
admit_rows-IsWithin w (c ∷ cs) h = elim (Bool-cases (admit w c).1) [
  | inl e ↦ rw e (admit_rows-IsWithin (admit w c).0 cs (admit-IsWithin w c h))
  | inr e ↦ rw e h
]

admit_rows-budget : (w : FrameWork) (cs : List ℤ) → (admit_rows w cs).budget ≡ w.budget
unfolding admit_rows admit
admit_rows-budget w [] = refl
admit_rows-budget w (c ∷ cs) = ground (arith, admit_rows-budget (admit w c).0 cs)

-- A frame begun under a budget of 64-bit integers draws no more rows and no more cells than that
-- budget allows, whatever rows it is offered.
pub begin-admit_rows_bounded :
    (b : RenderBudget) (w : FrameWork) (cs : List ℤ)
    → IsInt b.max_rows
    → IsInt b.max_cells
    → begin b ≡ ok w
    → ((admit_rows w cs).budget ≡ b) × IsWithin (admit_rows w cs)
begin-admit_rows_bounded b w cs hr hc e = (
  admit_rows-budget w cs ∙ begin-budget b w e,
  admit_rows-IsWithin w cs (begin-IsWithin b w hr hc e),
)
