-- ===== src/Diff/Rows/Collected.antt =====
-- The lines that a hunk collects replay: `DiffHunk.Validate` accepts them with the counts so far.
use mathlib.Core.Path.{fun_ext}
use nudge.Base.{
  Bool, List, Option, [], ap, arith, false, length, length-append, none, refl, some, suc, true,
  zero, ℕ, ◌++◌, ◌+◌, ◌<◌, ◌∙◌, ◌∷◌, ◌≡◌, ◌≤◌,
}
use nudge.Base.Bytes.{Bytes, is_empty}
use nudge.Base.Result.{ok, ◌>>=◌, ◌>>◌}
use nudge.Base.Utf8.{valid_text}
use nudge.Diff.Builder.{HunkBuilder, PatchHunkIndex}
use nudge.Diff.Rows.{
  add_row, finished_hunk, mark_lines, marker_line, overrun, row_kind, row_line, set_no_newline,
}
use nudge.Repo.Hunk.{
  DiffLine, DiffLineKind, Tally, added, as_hunk_error, context, deleted, no_newline,
  none_terminator, tally_line, tally_lines, tally_step, valid_hunk_range, validate_hunk,
  validate_line,
}
use nudge.Repo.Hunk.Replay.{tally_lines-append}

abbrev pub first_tally : PatchHunkIndex → Tally
first_tally i = record {
  base_line = i.base_start;
  head_line = i.head_start;
  base_count = 0;
  head_count = 0;
}

abbrev pub now_tally : HunkBuilder → Tally
now_tally h = record {
  base_line = h.base_seen + h.index.base_start;
  head_line = h.head_seen + h.index.head_start;
  base_count = h.base_seen;
  head_count = h.head_seen;
}

-- After a content line, the index of the last one is that of a collected line.
abbrev pub ContentAt : Option DiffLineKind → Option ℕ → ℕ → Type 0
ContentAt none i n = Unit {0}
ContentAt (some k) none n = ⊥
ContentAt (some k) (some i) n = i < n

pub record Replays (h : HunkBuilder) : Type 0 where
  pub replay : tally_lines h.lines (first_tally h.index) ≡ ok (now_tally h)
  pub base_fits : h.base_seen ≤ h.index.base_count
  pub head_fits : h.head_seen ≤ h.index.head_count
  pub base_range : valid_hunk_range h.index.base_start h.index.base_count ≡ true
  pub head_range : valid_hunk_range h.index.head_start h.index.head_count ≡ true
  pub id_present : is_empty h.index.id ≡ false
  pub id_text : valid_text h.index.id ≡ true
  pub content : ContentAt h.last_content_kind h.last_content_index (length h.lines)

range_positive : (s n : ℕ) → valid_hunk_range s n ≡ true → 0 < n → 0 < s
unfolding valid_hunk_range
range_positive s n h k = ground arith

-- A content line that does not overrun the header continues the replay.
tally_step-row_line :
    (h : HunkBuilder) (c : ℕ) (s : Bytes)
    → Replays h
    → overrun (add_row true h (row_kind c) (row_line h (row_kind c) s)) ≡ false
    → tally_step (row_line h (row_kind c) s) (now_tally h)
      ≡ ok (now_tally (add_row true h (row_kind c) (row_line h (row_kind c) s)))
unfolding tally_step tally_line validate_line add_row row_line
tally_step-row_line h c s r o = ground (
  arith,
  range_positive h.index.base_start h.index.base_count r.base_range,
  range_positive h.index.head_start h.index.head_count r.head_range,
)

tally_lines-snoc :
    (ls : List DiffLine) (l : DiffLine) (t u v : Tally)
    → tally_lines ls t ≡ ok u
    → tally_step l u ≡ ok v
    → tally_lines (ls ++ l ∷ []) t ≡ ok v
unfolding tally_lines
tally_lines-snoc ls l t u v e f =
    tally_lines-append ls (l ∷ []) t
    ∙ ap (λ r. r >>= tally_lines (l ∷ [])) e
    ∙ ap (λ r. r >>= tally_lines []) f

pub add_row-Replays :
    (h : HunkBuilder) (c : ℕ) (s : Bytes)
    → Replays h
    → overrun (add_row true h (row_kind c) (row_line h (row_kind c) s)) ≡ false
    → Replays (add_row true h (row_kind c) (row_line h (row_kind c) s))
unfolding add_row
add_row-Replays h c s r o =
    let step : tally_lines (h.lines ++ row_line h (row_kind c) s ∷ []) (first_tally h.index)
        ≡ ok (now_tally (add_row true h (row_kind c) (row_line h (row_kind c) s))) =
      tally_lines-snoc h.lines (row_line h (row_kind c) s) (first_tally h.index) (now_tally h)
        (now_tally (add_row true h (row_kind c) (row_line h (row_kind c) s))) r.replay
        (tally_step-row_line h c s r o) in
    record {
      replay = step;
      base_fits = ground arith;
      head_fits = ground arith;
      base_range = r.base_range;
      head_range = r.head_range;
      id_present = r.id_present;
      id_text = r.id_text;
      content = omega (arith, length-append h.lines (row_line h (row_kind c) s ∷ []));
    }

-- A marker changes no number and no kind of the line that it is written to.
marked : DiffLine → Bool → Bool → DiffLine
marked l p q = record l { terminator = none_terminator; no_newline_base = p; no_newline_head = q }

tally_line-marked :
    (k : DiffLineKind) (l : DiffLine) (p q : Bool) (t : Tally)
    → tally_line k (marked l p q) t ≡ tally_line k l t
unfolding tally_line marked
tally_line-marked context l p q t = refl
tally_line-marked added l p q t = refl
tally_line-marked deleted l p q t = refl
tally_line-marked no_newline l p q t = refl

tally_step-marked :
    (l : DiffLine) (p q : Bool) (t : Tally) → tally_step (marked l p q) t ≡ tally_step l t
unfolding tally_step validate_line marked
tally_step-marked l p q t =
    ap (λ r. as_hunk_error (validate_line l) >> r) (tally_line-marked l.kind l p q t)

set_no_newline-zero :
    (l : DiffLine) (ls : List DiffLine) (p q : Bool)
    → set_no_newline (l ∷ ls) zero p q ≡ some (marked l p q ∷ ls)
unfolding set_no_newline marked
set_no_newline-zero l ls p q = refl

-- A marker on a collected line is written, and keeps the replay and the number of lines.
set_no_newline-some :
    (ls : List DiffLine) (i : ℕ) (p q : Bool)
    → i < length ls
    → (ms : List DiffLine) × (set_no_newline ls i p q ≡ some ms)
      × ((t : Tally) → tally_lines ms t ≡ tally_lines ls t)
      × (length ms ≡ length ls)
unfolding set_no_newline tally_lines
set_no_newline-some [] i p q h = elim h [ ]
set_no_newline-some (l ∷ ls) zero p q h = (
  marked l p q ∷ ls,
  set_no_newline-zero l ls p q,
  λ t. ap (λ r. r >>= tally_lines ls) (tally_step-marked l p q t),
  refl,
)
set_no_newline-some (l ∷ ls) (suc i) p q h =
    let (ms, e, f, n) = set_no_newline-some ls i p q (omega arith) in
    (l ∷ ms, rw e, λ t. ap (λ g. tally_step l t >>= g) (fun_ext f), ap suc n)

tally_step-marker_line : (p q : Bool) (t : Tally) → tally_step (marker_line p q) t ≡ ok t
unfolding tally_step tally_line validate_line marker_line
tally_step-marker_line p q t = refl

ContentAt-grow :
    (k : Option DiffLineKind) (i : Option ℕ) (n m : ℕ) → n ≤ m → ContentAt k i n → ContentAt k i m
ContentAt-grow none i n m h c = tt
ContentAt-grow (some k) none n m h c = c
ContentAt-grow (some k) (some i) n m h c = omega arith

content-index :
    (k : Option DiffLineKind) (i : Option ℕ) (n : ℕ) {j : DiffLineKind}
    → k ≡ some j
    → ContentAt k i n
    → (x : ℕ) × (i ≡ some x) × (x < n)
content-index none i n e c = absurd (ground arith)
content-index (some k) none n e c = absurd c
content-index (some k) (some x) n e c = (x, refl, c)

marked-Replays :
    (h : HunkBuilder) (ms : List DiffLine) (p q u v : Bool)
    → Replays h
    → ((t : Tally) → tally_lines ms t ≡ tally_lines h.lines t)
    → length ms ≡ length h.lines
    → Replays (record h {
      lines = ms ++ marker_line p q ∷ [];
      base_no_newline_seen = u;
      head_no_newline_seen = v;
    })
marked-Replays h ms p q u v r f m = record {
  replay =
      tally_lines-snoc ms (marker_line p q) (first_tally h.index) (now_tally h) (now_tally h)
        (f (first_tally h.index) ∙ r.replay) (tally_step-marker_line p q (now_tally h));
  base_fits = r.base_fits;
  head_fits = r.head_fits;
  base_range = r.base_range;
  head_range = r.head_range;
  id_present = r.id_present;
  id_text = r.id_text;
  content =
      ContentAt-grow h.last_content_kind h.last_content_index (length h.lines)
        (length (ms ++ marker_line p q ∷ []))
        (omega (arith, length-append ms (marker_line p q ∷ []))) r.content;
}

-- A marker after a collected content line is written, and keeps the replay.
pub mark_lines-Replays :
    (h : HunkBuilder) (k : DiffLineKind) (p q u v : Bool)
    → Replays h
    → h.last_content_kind ≡ some k
    → (ls : List DiffLine) × (mark_lines h p q ≡ ok ls)
      × Replays (record h { lines = ls; base_no_newline_seen = u; head_no_newline_seen = v })
unfolding mark_lines
mark_lines-Replays h k p q u v r e =
    let (i, n, lt) =
      content-index h.last_content_kind h.last_content_index (length h.lines) e r.content in
    let (ms, s, f, m) = set_no_newline-some h.lines i p q lt in
    (ms ++ marker_line p q ∷ [], rw (n, s, mark_lines), marked-Replays h ms p q u v r f m)

-- A hunk that replays and has all the lines of its header is a valid `DiffHunk`.
pub validate_hunk-Replays :
    (h : HunkBuilder)
    → Replays h
    → h.base_seen ≡ h.index.base_count
    → h.head_seen ≡ h.index.head_count
    → validate_hunk (finished_hunk h) ≡ ok tt
unfolding validate_hunk finished_hunk
validate_hunk-Replays h r e f =
    rw (r.id_present, r.id_text, r.base_range, r.head_range, r.replay) (ground arith)
