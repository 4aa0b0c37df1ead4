-- ===== src/Viewport/Budget.antt =====
-- internal/tui/viewport/render_budget.go: the rows and cells that one frame may draw.
pub mod Laws
use nudge.Base.{Bool, List, [], false, if◌then◌else◌, true, ◌*◌, ◌||◌, ◌∷◌}
use nudge.Base.Int.{int64, leb_ℤ, ltb_ℤ, pos, ℤ, ◌+ℤ◌, ◌-ℤ◌}
use nudge.Base.Result.{Result, fail_if, ok, ◌>>◌}

pub record RenderBudget : Type 0 where
  pub max_rows : ℤ
  pub max_cells : ℤ

pub data BudgetError : Type 0 where
  invalid_render_budget : BudgetError

unfoldable pub default_render_budget : RenderBudget
default_render_budget = record { max_rows = pos 200; max_cells = pos (200 * 120) }

-- `RenderBudget.Validate`.
unfoldable pub validate_budget : RenderBudget → Result BudgetError (Unit {0})
validate_budget b =
    fail_if (leb_ℤ b.max_rows (pos 0) || leb_ℤ b.max_cells (pos 0)) invalid_render_budget

pub record FrameWork : Type 0 where
  pub budget : RenderBudget
  pub rows : ℤ
  pub cells : ℤ

-- `RenderBudget.Begin`.
unfoldable pub begin : RenderBudget → Result BudgetError FrameWork
unfolding validate_budget
begin b = validate_budget b >> ok (record { budget = b; rows = pos 0; cells = pos 0 })

-- `FrameWork.Admit`, on a frame that is not nil.
unfoldable pub admit : FrameWork → ℤ → FrameWork × Bool
admit w cells =
    if ltb_ℤ cells (pos 0)
      || leb_ℤ w.budget.max_rows w.rows
      || ltb_ℤ (int64 (w.budget.max_cells -ℤ w.cells)) cells
    then (w, false)
    else (record w { rows = int64 (w.rows +ℤ pos 1); cells = int64 (w.cells +ℤ cells) }, true)

-- `FrameWork.Exhausted`.
unfoldable pub exhausted : FrameWork → Bool
exhausted w = leb_ℤ w.budget.max_rows w.rows || leb_ℤ w.budget.max_cells w.cells

-- Rows admitted one after the other until the first that is refused.
unfoldable pub admit_rows : FrameWork → List ℤ → FrameWork
admit_rows w [] = w
admit_rows w (c ∷ cs) =
    let (w', done) = admit w c in let rest = admit_rows w' cs in if done then rest else w
