-- ===== src/Diff/Section/Collects.antt =====
-- In a builder that collects, the open hunk replays after every line.
use nudge.Base.{
  Bool-cases, List, Option, [], arith, inl, inr, length, none, refl, some, true, ◌+◌, ◌-◌, ◌∷◌, ◌≡◌,
}
use nudge.Base.Bytes.{Bytes, bytes_eq}
use nudge.Base.Result.{>>=-eq-ok, fail_if, ok}
use nudge.Diff.Builder.{HunkBuilder, PatchLine, SectionBuilder}
use nudge.Diff.Header.{parse_hunk_header}
use nudge.Diff.Header.Ranges.{parse_hunk_header-AreRanges}
use nudge.Diff.Limits.{PatchParseLimits, limited, reaches}
use nudge.Diff.Records.{RecordKind, hunk_header, is_section_record, record_kind}
use nudge.Diff.Records.Keeps.{consume_record-SameRows}
use nudge.Diff.Rows.{close_hunk, no_newline_text, start_hunk}
use nudge.Diff.Rows.Collected.{Replays}
use nudge.Diff.Rows.Forget.{
  Collects, OpenReplays, close_hunk-Collects, consume_diff_line-Collects, mark-Collects,
}
use nudge.Diff.Section.{
  consume, consume_at, consume_inside, consume_kind, consume_lines, consume_outside, is_content,
  leave_hunk, new_section,
}
use nudge.Repo.Digest.{Digest, digest_text}
use nudge.Repo.Hunk.{tally_lines}

-- The count of metadata bytes that `consume` takes before it reads a metadata line.
abbrev pub bumped : SectionBuilder → PatchLine → SectionBuilder
bumped b line = record b { metadata_bytes = b.metadata_bytes + (line.end - line.offset) }

pub start_hunk-Collects :
    (d : Digest) (b b' : SectionBuilder) (line : PatchLine) (l : PatchParseLimits)
    → b.collect ≡ true
    → start_hunk d b line l ≡ ok b'
    → Collects b'
unfolding start_hunk tally_lines
start_hunk-Collects d b b' line l c e =
    let (u, t, after) = >>=-eq-ok (fail_if (reaches (length b.hunks) l.max_hunks) limited) _ e in
    let (r, parsed, done) = >>=-eq-ok (parse_hunk_header line.text) _ after in
    let (base, head) = parse_hunk_header-AreRanges line.text r parsed in
    let (present, valid) = digest_text d line.text in ground arith

pub new_section-Collects :
    (line : PatchLine) (l : PatchParseLimits) (b : SectionBuilder)
    → new_section line l true ≡ ok b
    → Collects b
unfolding new_section
new_section-Collects line l b e = ground arith

module _ (d : Digest) (l : PatchParseLimits) where
  pub consume_kind-Collects :
      (b b' : SectionBuilder) (line : PatchLine) (k : RecordKind)
      → Collects b
      → b.hunk ≡ none
      → consume_kind d b line l k ≡ ok b'
      → Collects b'
  unfolding consume_kind
  consume_kind-Collects b b' line hunk_header c n e = start_hunk-Collects d b b' line l c.0 e
  consume_kind-Collects b b' line k c n e =
      let same = consume_record-SameRows b b' line _ e in ground arith

  pub consume_outside-Collects :
      (b b' : SectionBuilder) (line : PatchLine)
      → Collects b
      → b.hunk ≡ none
      → consume_outside d b line l ≡ ok b'
      → Collects b'
  unfolding consume_outside
  consume_outside-Collects b b' line c n e =
      ground (arith, consume_kind-Collects (bumped b line) b' line (record_kind line.text) c n)

  pub leave_hunk-Collects :
      (b b' : SectionBuilder) (h : HunkBuilder) (line : PatchLine)
      → b.collect ≡ true
      → Replays h
      → leave_hunk d b h line l ≡ ok b'
      → Collects b'
  unfolding leave_hunk
  leave_hunk-Collects b b' h line c r e = elim (Bool-cases (bytes_eq line.text no_newline_text)) [
    | inl t ↦ mark-Collects b b' h c r (rw t at e)
    | inr t ↦ elim (Bool-cases (is_section_record line.text)) [
      | inl s ↦
          let (a, closed, after) = >>=-eq-ok (close_hunk b h line.offset l) _ (rw (t, s) at e) in
          let (k, n) = close_hunk-Collects b a h line.offset l c closed in
          consume_outside-Collects a b' line k n after
      | inr s ↦ absurd (ground arith)
    ]
  ]

  pub consume_inside-Collects :
      (b b' : SectionBuilder) (h : HunkBuilder) (line : PatchLine) (s : Bytes)
      → b.collect ≡ true
      → OpenReplays b.hunk
      → Replays h
      → consume_inside d b h line l s ≡ ok b'
      → Collects b'
  unfolding consume_inside
  consume_inside-Collects b b' h line [] c o r e = leave_hunk-Collects b b' h line c r e
  consume_inside-Collects b b' h line (x ∷ s) c o r e = elim (Bool-cases (is_content x)) [
    | inl t ↦ consume_diff_line-Collects b b' h x s l (c, o) r (rw t at e)
    | inr t ↦ leave_hunk-Collects b b' h line c r (rw t at e)
  ]

  consume_at-Collects :
      (b b' : SectionBuilder) (o : Option HunkBuilder) (line : PatchLine)
      → Collects b
      → b.hunk ≡ o
      → OpenReplays o
      → consume_at d b o line l ≡ ok b'
      → Collects b'
  unfolding consume_at
  consume_at-Collects b b' none line c n r e = consume_outside-Collects b b' line c n e
  consume_at-Collects b b' (some h) line c n r e =
      consume_inside-Collects b b' h line line.text c.0 c.1 r e

  pub consume-Collects :
      (b b' : SectionBuilder) (line : PatchLine)
      → Collects b
      → consume d b line l ≡ ok b'
      → Collects b'
  unfolding consume
  consume-Collects b b' line c e =
      consume_at-Collects (record b { last_end = line.end }) b' b.hunk line c refl c.1 e

  pub consume_lines-Collects :
      (b b' : SectionBuilder) (lines : List PatchLine)
      → Collects b
      → consume_lines d b lines l ≡ ok b'
      → Collects b'
  unfolding consume_lines
  consume_lines-Collects b b' [] c e = ground arith
  consume_lines-Collects b b' (line ∷ lines) c e =
      let (a, first, after) = >>=-eq-ok (consume d b line l) (λ a. consume_lines d a lines l) e in
      consume_lines-Collects a b' lines (consume-Collects b a line c first) after
