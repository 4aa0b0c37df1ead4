-- ===== src/Viewport/Window.antt =====
-- internal/tui/viewport/window.go: the rows of a pane that one frame shows. A Go `int` is an integer
-- with the wrap-around of 64 bits written at each operation whose result can leave the range.
pub mod Bounds
use nudge.Base.{if◌then◌else◌, ◌||◌}
use nudge.Base.Int.{eqb_ℤ, int64, leb_ℤ, ltb_ℤ, pos, ℤ, ◌+ℤ◌, ◌-ℤ◌}

pub record WindowRange : Type 0 where
  pub total : ℤ
  pub cursor : ℤ
  pub top : ℤ
  pub start : ℤ
  pub end : ℤ
  pub overscan : ℤ

unfoldable pub clamp_int : ℤ → ℤ → ℤ → ℤ
clamp_int value low high = if ltb_ℤ value low then low else if ltb_ℤ high value then high else value

unfoldable pub max_int : ℤ → ℤ → ℤ
max_int left right = if ltb_ℤ right left then left else right

unfoldable pub min_int : ℤ → ℤ → ℤ
min_int left right = if ltb_ℤ left right then left else right

-- `WindowRange.Count`.
unfoldable pub count : WindowRange → ℤ
count w = if leb_ℤ w.end w.start then pos 0 else int64 (w.end -ℤ w.start)

-- The lines of `Window` that put `cursor` inside the list.
unfoldable pub clamp_cursor : ℤ → ℤ → ℤ
clamp_cursor total cursor =
    let c = if ltb_ℤ cursor (pos 0) then pos 0 else cursor in
    if leb_ℤ total c then int64 (total -ℤ pos 1) else c

-- The lines of `Window` that move `top` until the cursor is visible.
unfoldable pub follow_cursor : ℤ → ℤ → ℤ → ℤ
follow_cursor cursor top visible_height =
    let t = if ltb_ℤ cursor top then cursor else top in
    if leb_ℤ (int64 (t +ℤ visible_height)) cursor
    then int64 (int64 (cursor -ℤ visible_height) +ℤ pos 1)
    else t

-- `Window` after its arguments have been clamped, for a non-empty list and viewport.
unfoldable pub place : ℤ → ℤ → ℤ → ℤ → ℤ → WindowRange
place total cursor top height overscan =
    let c = clamp_cursor total cursor in
    let visible_height = min_int height total in
    let max_top = max_int (int64 (total -ℤ visible_height)) (pos 0) in
    let t = follow_cursor c (clamp_int top (pos 0) max_top) visible_height in
    record {
      total = total;
      cursor = c;
      top = t;
      start = max_int (int64 (t -ℤ overscan)) (pos 0);
      end = min_int (int64 (int64 (t +ℤ visible_height) +ℤ overscan)) total;
      overscan = overscan;
    }

abbrev pub empty_range : ℤ → ℤ → WindowRange
empty_range total overscan = record {
  total = total;
  cursor = pos 0;
  top = pos 0;
  start = pos 0;
  end = pos 0;
  overscan = overscan;
}

unfoldable pub window : ℤ → ℤ → ℤ → ℤ → ℤ → WindowRange
window total cursor top height overscan =
    let n = max_int total (pos 0) in
    let h = max_int height (pos 0) in
    let o = max_int overscan (pos 0) in
    if eqb_ℤ n (pos 0) || eqb_ℤ h (pos 0) then empty_range n o else place n cursor top h o
