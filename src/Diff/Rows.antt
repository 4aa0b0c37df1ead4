-- ===== src/Diff/Rows.antt =====
-- internal/diff/parser.go: the lines inside a hunk, and the two ends of a hunk.
pub mod Accounting
pub mod Collected
pub mod Forget
use nudge.Base.{
  Bool, List, Option, [], false, if◌then◌else◌, leb, length, ltb, none, not, some, suc, true, zero,
  ℕ, ◌&&◌, ◌++◌, ◌+◌, ◌-◌, ◌==◌, ◌^◌, ◌||◌, ◌∷◌,
}
use nudge.Base.Bytes.{Bytes, codes}
use nudge.Base.Result.{Result, err, fail_if, is_ok, ok, ◌>>=◌, ◌>>◌}
use nudge.Diff.Builder.{HunkBuilder, PatchLine, SectionBuilder, patch_index_version}
use nudge.Diff.Header.{parse_hunk_header}
use nudge.Diff.Limits.{PatchError, PatchParseLimits, exceeds, limited, malformed, reaches}
use nudge.Repo.Digest.{Digest}
use nudge.Repo.Hunk.{
  DiffHunk, DiffLine, DiffLineKind, LineTerminator, added, context, crlf, deleted, lf, no_newline,
  none_terminator, unset_terminator, validate_hunk,
}

-- The kind that the first byte of a content line gives.
abbrev pub row_kind : ℕ → DiffLineKind
row_kind c = if c == b'+' then added else if c == b'-' then deleted else context

-- Cut a final carriage return, and name the line's terminator.
unfoldable pub cut_cr : Bytes → Bytes × LineTerminator
cut_cr [] = ([], lf)
cut_cr (c ∷ []) = if c == b'\r' then ([], crlf) else (c ∷ [], lf)
cut_cr (c ∷ d ∷ s) = let (rest, t) = cut_cr (d ∷ s) in (c ∷ rest, t)

abbrev base_side : DiffLineKind → Bool
base_side context = true
base_side deleted = true
base_side _ = false

abbrev head_side : DiffLineKind → Bool
head_side context = true
head_side added = true
head_side _ = false

-- The line that `consumeDiffLine` builds, with the number that it has on each of its sides.
unfoldable pub row_line : HunkBuilder → DiffLineKind → Bytes → DiffLine
unfolding cut_cr
row_line h kind text = record {
  kind = kind;
  base_line = if base_side kind then some (h.base_seen + h.index.base_start) else none;
  head_line = if head_side kind then some (h.head_seen + h.index.head_start) else none;
  text = (cut_cr text).0;
  terminator = (cut_cr text).1;
  no_newline_base = false;
  no_newline_head = false;
}

-- The hunk after a content line; the line itself is kept only where lines are collected.
unfoldable pub add_row : Bool → HunkBuilder → DiffLineKind → DiffLine → HunkBuilder
add_row collect h kind line = record h {
  base_seen = if base_side kind then suc h.base_seen else h.base_seen;
  head_seen = if head_side kind then suc h.head_seen else h.head_seen;
  rows = suc h.rows;
  lines = if collect then h.lines ++ line ∷ [] else h.lines;
  last_content_index = if collect then some (length h.lines) else h.last_content_index;
  last_content_kind = some kind;
}

-- `hunk line count exceeds header`.
abbrev pub overrun : HunkBuilder → Bool
overrun h = ltb h.index.base_count h.base_seen || ltb h.index.head_count h.head_seen

-- `consumeDiffLine` on the open hunk; `c` is the first byte of the line.
unfoldable pub consume_diff_line :
    SectionBuilder → HunkBuilder → ℕ → Bytes → PatchParseLimits → Result PatchError SectionBuilder
consume_diff_line b h c text limits = do
  fail_if (b.total_rows == 2 ^ 63 - 1) limited
  let h' = add_row b.collect h (row_kind c) (row_line h (row_kind c) text)
  fail_if (overrun h') malformed
  fail_if (exceeds (suc b.total_rows) limits.max_rows) limited
  ok (record b { hunk = some h'; total_rows = suc b.total_rows })

abbrev pub no_newline_text : Bytes
no_newline_text = codes "\\ No newline at end of file"

-- Write to the line at an index; `none` if there is no such line.
unfoldable pub set_no_newline : List DiffLine → ℕ → Bool → Bool → Option (List DiffLine)
set_no_newline [] i base head = none
set_no_newline (l ∷ ls) zero base head =
    some (
      record l { terminator = none_terminator; no_newline_base = base; no_newline_head = head }
      ∷ ls)
set_no_newline (l ∷ ls) (suc i) base head = elim (set_no_newline ls i base head) [
  | none ↦ none
  | some ms ↦ some (l ∷ ms)
]

unfoldable pub marker_line : Bool → Bool → DiffLine
marker_line base head = record {
  kind = no_newline;
  base_line = none;
  head_line = none;
  text = no_newline_text;
  terminator = unset_terminator;
  no_newline_base = base;
  no_newline_head = head;
}

-- The lines of a collected hunk after a marker for the given sides.
unfoldable pub mark_lines : HunkBuilder → Bool → Bool → Result PatchError (List DiffLine)
mark_lines h base head = elim h.last_content_index [
  | none ↦ err malformed
  | some i ↦ elim (set_no_newline h.lines i base head) [
    | none ↦ err malformed
    | some ls ↦ ok (ls ++ marker_line base head ∷ [])
  ]
]

-- `consumeNoNewlineMarker` after the last content line has given the sides.
unfoldable pub mark_sides :
    SectionBuilder → HunkBuilder → Bool → Bool → Result PatchError SectionBuilder
mark_sides b h base head = do
  fail_if (base && h.base_no_newline_seen || head && h.head_no_newline_seen) malformed
  ls ← if b.collect then mark_lines h base head else ok h.lines
  ok (record b {
    hunk = some (record h {
      lines = ls;
      base_no_newline_seen = h.base_no_newline_seen || base;
      head_no_newline_seen = h.head_no_newline_seen || head;
    });
  })

-- `consumeNoNewlineMarker` on the open hunk.
unfoldable pub consume_no_newline_marker :
    SectionBuilder → HunkBuilder → Result PatchError SectionBuilder
consume_no_newline_marker b h = elim h.last_content_kind [
  | none ↦ err malformed
  | some kind ↦
      fail_if (not (base_side kind || head_side kind)) malformed
      >> mark_sides b h (base_side kind) (head_side kind)
]

module _ (d : Digest) where
  -- `startHunk`.
  unfoldable pub start_hunk :
      SectionBuilder → PatchLine → PatchParseLimits → Result PatchError SectionBuilder
  start_hunk b line limits = do
    fail_if (reaches (length b.hunks) limits.max_hunks) limited
    r ← parse_hunk_header line.text
    ok (record b {
      hunk = some (record {
        index = record {
          version = patch_index_version;
          id = d.digest line.text;
          offset = line.offset;
          size = 0;
          base_start = r.base_start;
          base_count = r.base_count;
          head_start = r.head_start;
          head_count = r.head_count;
          rows = 0;
          sha256 = [];
        };
        header = line.text;
        base_seen = 0;
        head_seen = 0;
        rows = 0;
        lines = [];
        last_content_index = none;
        last_content_kind = none;
        base_no_newline_seen = false;
        head_no_newline_seen = false;
      });
    })

unfoldable pub finished_hunk : HunkBuilder → DiffHunk
finished_hunk h = record {
  id = h.index.id;
  base_start = h.index.base_start;
  base_count = h.index.base_count;
  head_start = h.index.head_start;
  head_count = h.index.head_count;
  header = h.header;
  lines = h.lines;
}

-- The structured hunk joins those of the section where lines are collected.
unfoldable pub collect_hunk : SectionBuilder → HunkBuilder → Result PatchError (List DiffHunk)
collect_hunk b h =
    if b.collect
    then (fail_if (not (is_ok (validate_hunk (finished_hunk h)))) malformed
        >> ok (b.diff_hunks ++ finished_hunk h ∷ []))
    else ok b.diff_hunks

-- `finishHunk` on the open hunk.
unfoldable pub close_hunk :
    SectionBuilder → HunkBuilder → ℕ → PatchParseLimits → Result PatchError SectionBuilder
close_hunk b h end limits = do
  fail_if (not (h.base_seen == h.index.base_count) || not (h.head_seen == h.index.head_count))
      malformed
  fail_if (leb end h.index.offset) malformed
  diff_hunks ← collect_hunk b h
  let hunks = b.hunks ++ record h.index { size = end - h.index.offset; rows = h.rows } ∷ []
  fail_if (exceeds (length hunks) limits.max_hunks) limited
  ok (record b { hunk = none; hunks = hunks; diff_hunks = diff_hunks })

-- `finishHunk` on a builder with the given open hunk.
unfoldable pub finish_open :
    SectionBuilder → Option HunkBuilder → ℕ → PatchParseLimits → Result PatchError SectionBuilder
finish_open b none end limits = ok b
finish_open b (some h) end limits = close_hunk b h end limits

-- `finishHunk`.
unfoldable pub finish_hunk :
    SectionBuilder → ℕ → PatchParseLimits → Result PatchError SectionBuilder
unfolding finish_open
finish_hunk b end limits = finish_open b b.hunk end limits
