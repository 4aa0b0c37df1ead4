-- ===== src/Diff/Rows/Accounting.antt =====
-- What the counters of a section add up to, line by line.
use nudge.Base.{
  All, All-snoc, Bool, List, Option, [], arith, false, length, length-append, none, some, suc, ℕ,
  ◌++◌, ◌+◌, ◌-◌, ◌∷◌, ◌≡◌, ◌≤◌,
}
use nudge.Base.Bytes.{Bytes}
use nudge.Base.Result.{ok}
use nudge.Diff.Builder.{HunkBuilder, PatchHunkIndex, PatchLine, SectionBuilder}
use nudge.Diff.Limits.{PatchParseLimits, exceeds}
use nudge.Diff.Rows.{
  add_row, close_hunk, consume_diff_line, consume_no_newline_marker, mark_sides, overrun, row_kind,
  row_line, start_hunk,
}
use nudge.Repo.Digest.{Digest}
use nudge.Repo.Hunk.{DiffLine}

abbrev pub sum_rows : List PatchHunkIndex → ℕ
sum_rows [] = 0
sum_rows (i ∷ is) = i.rows + sum_rows is

pub sum_rows-append :
    (is js : List PatchHunkIndex) → sum_rows (is ++ js) ≡ sum_rows is + sum_rows js
sum_rows-append [] js = omega arith
sum_rows-append (i ∷ is) js = omega (arith, sum_rows-append is js)

-- The rows of an open hunk, against its header.
pub record IsCounted (h : HunkBuilder) : Type 0 where
  pub base_fits : h.base_seen ≤ h.index.base_count
  pub head_fits : h.head_seen ≤ h.index.head_count
  pub base_rows : h.base_seen ≤ h.rows
  pub head_rows : h.head_seen ≤ h.rows
  pub rows_sides : h.rows ≤ h.base_seen + h.head_seen

-- A closed hunk has at least the rows of each side, and at most those of both.
abbrev pub IsClosed : PatchHunkIndex → Type 0
IsClosed i =
    (i.base_count ≤ i.rows) × (i.head_count ≤ i.rows) × (i.rows ≤ i.base_count + i.head_count)

abbrev pub open_rows : Option HunkBuilder → ℕ
open_rows none = 0
open_rows (some h) = h.rows

abbrev pub OpenCounted : Option HunkBuilder → Type 0
OpenCounted none = Unit {0}
OpenCounted (some h) = IsCounted h

-- A section between two lines.
pub record IsAccounted (limits : PatchParseLimits) (b : SectionBuilder) : Type 0 where
  pub rows_exact : b.total_rows ≡ sum_rows b.hunks + open_rows b.hunk
  pub rows_limited : exceeds b.total_rows limits.max_rows ≡ false
  pub hunks_limited : exceeds (length b.hunks) limits.max_hunks ≡ false
  pub closed : All IsClosed b.hunks
  pub counted : OpenCounted b.hunk

add_row-IsCounted :
    (collect : Bool) (h : HunkBuilder) (c : ℕ) (line : DiffLine)
    → IsCounted h
    → overrun (add_row collect h (row_kind c) line) ≡ false
    → IsCounted (add_row collect h (row_kind c) line)
      × ((add_row collect h (row_kind c) line).rows ≡ suc h.rows)
unfolding add_row
add_row-IsCounted collect h c line n o = ground arith

pub consume_diff_line-IsAccounted :
    (l : PatchParseLimits) (b b' : SectionBuilder) (h : HunkBuilder) (c : ℕ) (s : Bytes)
    → b.hunk ≡ some h
    → IsAccounted l b
    → consume_diff_line b h c s l ≡ ok b'
    → IsAccounted l b'
unfolding consume_diff_line
consume_diff_line-IsAccounted l b b' h c s e a k =
    ground (arith, add_row-IsCounted b.collect h c (row_line h (row_kind c) s))

pub mark-IsAccounted :
    (l : PatchParseLimits) (b b' : SectionBuilder) (h : HunkBuilder)
    → b.hunk ≡ some h
    → IsAccounted l b
    → consume_no_newline_marker b h ≡ ok b'
    → IsAccounted l b'
unfolding consume_no_newline_marker mark_sides
mark-IsAccounted l b b' h e a k = ground arith

pub start_hunk-IsAccounted :
    (d : Digest) (l : PatchParseLimits) (b b' : SectionBuilder) (line : PatchLine)
    → b.hunk ≡ none
    → IsAccounted l b
    → start_hunk d b line l ≡ ok b'
    → IsAccounted l b'
unfolding start_hunk
start_hunk-IsAccounted d l b b' line e a k = ground arith

pub close_hunk-IsAccounted :
    (l : PatchParseLimits) (b b' : SectionBuilder) (h : HunkBuilder) (n : ℕ)
    → b.hunk ≡ some h
    → IsAccounted l b
    → close_hunk b h n l ≡ ok b'
    → IsAccounted l b' × (b'.hunk ≡ none)
unfolding close_hunk
close_hunk-IsAccounted l b b' h n e a k = ground (
  arith,
  length-append b.hunks (record h.index { size = n - h.index.offset; rows = h.rows } ∷ []),
  sum_rows-append b.hunks (record h.index { size = n - h.index.offset; rows = h.rows } ∷ []),
  All-snoc IsClosed b.hunks {last = record h.index { size = n - h.index.offset; rows = h.rows }},
)
