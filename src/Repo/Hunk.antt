-- ===== src/Repo/Hunk.antt =====
-- internal/domain/repository/diff.go: the lines and hunks of a two-way diff. A line number or count
-- is an `int` that is never negative here, so a number.
pub mod Replay
use nudge.Base.{
  Bool, List, Option, [], false, is_some, ltb, none, not, some, suc, ℕ, ◌&&◌, ◌==◌, ◌||◌, ◌∷◌,
}
use nudge.Base.Bytes.{Bytes, is_empty}
use nudge.Base.Result.{Result, err, fail_if, ok, ◌>>=◌, ◌>>◌}
use nudge.Base.Utf8.{valid_text}

pub data DiffLineKind : Type 0 where
  context added deleted no_newline : DiffLineKind

-- `LineTerminator` of text.go; `unset` is the empty string. `Validate` refuses no constant.
pub data LineTerminator : Type 0 where
  none_terminator lf crlf cr unset_terminator : LineTerminator

pub data DiffError : Type 0 where
  invalid_diff invalid_diff_hunk invalid_diff_line invalid_patch_range : DiffError

pub record DiffLine : Type 0 where
  pub kind : DiffLineKind
  pub base_line : Option ℕ
  pub head_line : Option ℕ
  pub text : Bytes
  pub terminator : LineTerminator
  pub no_newline_base : Bool
  pub no_newline_head : Bool

-- `positiveLine`.
abbrev pub positive_line : Option ℕ → Bool
positive_line none = false
positive_line (some n) = ltb 0 n

abbrev line_ok : DiffLineKind → Option ℕ → Option ℕ → Bool
line_ok context base head = positive_line base && positive_line head
line_ok added base head = not (is_some base) && positive_line head
line_ok deleted base head = positive_line base && not (is_some head)
line_ok no_newline base head = not (is_some base) && not (is_some head)

-- `DiffLine.Validate`.
unfoldable pub validate_line : DiffLine → Result DiffError (Unit {0})
validate_line l = fail_if (not (line_ok l.kind l.base_line l.head_line)) invalid_diff_line

pub record DiffHunk : Type 0 where
  pub id : Bytes
  pub base_start : ℕ
  pub base_count : ℕ
  pub head_start : ℕ
  pub head_count : ℕ
  pub header : Bytes
  pub lines : List DiffLine

-- `validHunkRange`.
unfoldable pub valid_hunk_range : ℕ → ℕ → Bool
valid_hunk_range start count = count == 0 || ltb 0 start

-- The variables of the loop in `DiffHunk.Validate`.
pub record Tally : Type 0 where
  pub base_line : ℕ
  pub head_line : ℕ
  pub base_count : ℕ
  pub head_count : ℕ

abbrev is_line : Option ℕ → ℕ → Bool
is_line none n = false
is_line (some m) n = m == n

-- The `switch` in that loop.
unfoldable pub tally_line : DiffLineKind → DiffLine → Tally → Result DiffError Tally
tally_line context l t =
    fail_if (not (is_line l.base_line t.base_line) || not (is_line l.head_line t.head_line))
      invalid_diff_hunk
    >> ok (record {
      base_line = suc t.base_line;
      head_line = suc t.head_line;
      base_count = suc t.base_count;
      head_count = suc t.head_count;
    })
tally_line added l t =
    fail_if (not (is_line l.head_line t.head_line)) invalid_diff_hunk
    >> ok (record t { head_line = suc t.head_line; head_count = suc t.head_count })
tally_line deleted l t =
    fail_if (not (is_line l.base_line t.base_line)) invalid_diff_hunk
    >> ok (record t { base_line = suc t.base_line; base_count = suc t.base_count })
tally_line no_newline l t = ok t

abbrev pub as_hunk_error {ℓ} : {A : Type ℓ} → Result DiffError A → Result DiffError A
as_hunk_error (ok a) = ok a
as_hunk_error (err e) = err invalid_diff_hunk

-- One round of that loop.
unfoldable pub tally_step : DiffLine → Tally → Result DiffError Tally
tally_step l t = as_hunk_error (validate_line l) >> tally_line l.kind l t

unfoldable pub tally_lines : List DiffLine → Tally → Result DiffError Tally
tally_lines [] t = ok t
tally_lines (l ∷ ls) t = tally_step l t >>= tally_lines ls

-- `DiffHunk.Validate`.
unfoldable pub validate_hunk : DiffHunk → Result DiffError (Unit {0})
unfolding valid_hunk_range
validate_hunk h = do
  fail_if
      (is_empty h.id
        || not (valid_text h.id)
        || not (valid_hunk_range h.base_start h.base_count)
        || not (valid_hunk_range h.head_start h.head_count))
      invalid_diff_hunk
  let start : Tally = record {
    base_line = h.base_start;
    head_line = h.head_start;
    base_count = 0;
    head_count = 0;
  }
  t ← tally_lines h.lines start
  fail_if (not (t.base_count == h.base_count) || not (t.head_count == h.head_count))
      invalid_diff_hunk
