-- ===== src/Diff/Rows/Forget.antt =====
-- The steps inside a hunk take the same course whether lines are collected or not.
use nudge.Base.{
  Bool, Option, Option-cases, [], arith, false, inl, inr, leb, length, none, not, refl, some, suc,
  true, ℕ, ◌&&◌, ◌++◌, ◌-◌, ◌==◌, ◌^◌, ◌||◌, ◌∷◌, ◌≡◌,
}
use nudge.Base.Bytes.{Bytes}
use nudge.Base.Result.{>>=-eq-ok, fail_if, map_result, map_result-step, ok}
use nudge.Diff.Builder.{HunkBuilder, PatchLine, SectionBuilder}
use nudge.Diff.Header.{parse_hunk_header}
use nudge.Diff.Limits.{PatchParseLimits, exceeds, limited, malformed, reaches}
use nudge.Diff.Records.Forget.{forget, forget_hunk}
use nudge.Diff.Rows.{
  add_row, base_side, close_hunk, collect_hunk, consume_diff_line, consume_no_newline_marker,
  head_side, mark_sides, overrun, row_kind, row_line, start_hunk,
}
use nudge.Diff.Rows.Collected.{Replays, add_row-Replays, mark_lines-Replays, validate_hunk-Replays}
use nudge.Repo.Digest.{Digest}
use nudge.Repo.Hunk.{DiffLineKind}

abbrev pub OpenReplays : Option HunkBuilder → Type 0
OpenReplays none = Unit {0}
OpenReplays (some h) = Replays h

-- A builder that collects, and whose open hunk replays.
abbrev pub Collects : SectionBuilder → Type 0
Collects b = (b.collect ≡ true) × OpenReplays b.hunk

pub consume_diff_line-forget :
    (b : SectionBuilder) (h : HunkBuilder) (c : ℕ) (s : Bytes) (l : PatchParseLimits)
    → consume_diff_line (forget b) (forget_hunk h) c s l
      ≡ map_result forget (consume_diff_line b h c s l)
unfolding consume_diff_line add_row row_line
consume_diff_line-forget b h c s l =
    map_result-step forget (fail_if (b.total_rows == 2 ^ 63 - 1) limited) _ _ λ u e.
      map_result-step forget
        (fail_if (overrun (add_row b.collect h (row_kind c) (row_line h (row_kind c) s))) malformed)
        _ _
        λ v f.
          map_result-step forget (fail_if (exceeds (suc b.total_rows) l.max_rows) limited) _ _
            λ w g. refl

fail_if-ok : {E : Type 0} (t : Bool) (e : E) {u : Unit {0}} → fail_if t e ≡ ok u → t ≡ false
fail_if-ok true e h = cc
fail_if-ok false e h = refl

pub consume_diff_line-Collects :
    (b b' : SectionBuilder) (h : HunkBuilder) (c : ℕ) (s : Bytes) (l : PatchParseLimits)
    → Collects b
    → Replays h
    → consume_diff_line b h c s l ≡ ok b'
    → Collects b'
unfolding consume_diff_line
consume_diff_line-Collects b b' h c s l k r e = ground (arith, add_row-Replays h c s)

mark_sides-forget :
    (b : SectionBuilder) (h : HunkBuilder) (k : DiffLineKind) (p q : Bool)
    → b.collect ≡ true
    → Replays h
    → h.last_content_kind ≡ some k
    → mark_sides (forget b) (forget_hunk h) p q ≡ map_result forget (mark_sides b h p q)
unfolding mark_sides
mark_sides-forget b h k p q c r e =
    map_result-step forget
      (fail_if (p && h.base_no_newline_seen || q && h.head_no_newline_seen) malformed) _ _
      λ u f. let (ls, m, n) = mark_lines-Replays h k p q true true r e in rw (c, m)

pub mark-forget :
    (b : SectionBuilder) (h : HunkBuilder)
    → b.collect ≡ true
    → Replays h
    → consume_no_newline_marker (forget b) (forget_hunk h)
      ≡ map_result forget (consume_no_newline_marker b h)
unfolding consume_no_newline_marker
mark-forget b h c r = elim (Option-cases h.last_content_kind) [
  | inl n ↦ rw (n, consume_no_newline_marker)
  | inr (k, n) ↦
      rw (n, consume_no_newline_marker)
        (map_result-step forget (fail_if (not (base_side k || head_side k)) malformed) _ _
          (λ u f. mark_sides-forget b h k (base_side k) (head_side k) c r n))
]

mark_sides-Collects :
    (b b' : SectionBuilder) (h : HunkBuilder) (k : DiffLineKind) (p q : Bool)
    → b.collect ≡ true
    → Replays h
    → h.last_content_kind ≡ some k
    → mark_sides b h p q ≡ ok b'
    → Collects b'
unfolding mark_sides
mark_sides-Collects b b' h k p q c r n e =
    let (ls, m, rs) =
      mark_lines-Replays h k p q (h.base_no_newline_seen || p) (h.head_no_newline_seen || q) r n in
    ground arith

pub mark-Collects :
    (b b' : SectionBuilder) (h : HunkBuilder)
    → b.collect ≡ true
    → Replays h
    → consume_no_newline_marker b h ≡ ok b'
    → Collects b'
unfolding consume_no_newline_marker
mark-Collects b b' h c r e = elim (Option-cases h.last_content_kind) [
  | inl n ↦ absurd (ground arith)
  | inr (k, n) ↦
      let (u, t, after) =
        >>=-eq-ok (fail_if (not (base_side k || head_side k)) malformed) _
          (rw (n, consume_no_newline_marker) at e) in
      mark_sides-Collects b b' h k (base_side k) (head_side k) c r n after
]

pub start_hunk-forget :
    (d : Digest) (b : SectionBuilder) (line : PatchLine) (l : PatchParseLimits)
    → start_hunk d (forget b) line l ≡ map_result forget (start_hunk d b line l)
unfolding start_hunk
start_hunk-forget d b line l =
    map_result-step forget (fail_if (reaches (length b.hunks) l.max_hunks) limited) _ _
      λ u e. map_result-step forget (parse_hunk_header line.text) _ _ λ r f. refl

seen_all :
    (h : HunkBuilder) {u : Unit {0}}
    → fail_if
        (not (h.base_seen == h.index.base_count) || not (h.head_seen == h.index.head_count))
        malformed
      ≡ ok u
    → (h.base_seen ≡ h.index.base_count) × (h.head_seen ≡ h.index.head_count)
seen_all h e = ground arith

pub close_hunk-forget :
    (b : SectionBuilder) (h : HunkBuilder) (n : ℕ) (l : PatchParseLimits)
    → b.collect ≡ true
    → Replays h
    → close_hunk (forget b) (forget_hunk h) n l ≡ map_result forget (close_hunk b h n l)
unfolding close_hunk collect_hunk
close_hunk-forget b h n l c r =
    map_result-step forget
      (fail_if (not (h.base_seen == h.index.base_count) || not (h.head_seen == h.index.head_count))
        malformed)
      _ _
      λ u e. map_result-step forget (fail_if (leb n h.index.offset) malformed) _ _ λ v f.
        rw (c, validate_hunk-Replays h r (seen_all h e).0 (seen_all h e).1)
          (map_result-step forget
            (fail_if
              (exceeds
                (length
                  (b.hunks ++ record h.index { size = n - h.index.offset; rows = h.rows } ∷ []))
                l.max_hunks)
              limited)
            _ _ λ w g. refl)

pub close_hunk-Collects :
    (b b' : SectionBuilder) (h : HunkBuilder) (n : ℕ) (l : PatchParseLimits)
    → b.collect ≡ true
    → close_hunk b h n l ≡ ok b'
    → Collects b' × (b'.hunk ≡ none)
unfolding close_hunk
close_hunk-Collects b b' h n l c e = ground arith
