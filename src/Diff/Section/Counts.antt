-- ===== src/Diff/Section/Counts.antt =====
-- The counters of a section, over all its lines.
use nudge.Base.{
  All, Bool, Bool-cases, List, Option, [], arith, false, inl, inr, length, none, refl, some, ℕ, ◌+◌,
  ◌-◌, ◌∷◌, ◌≡◌,
}
use nudge.Base.Bytes.{Bytes, bytes_eq}
use nudge.Base.Int.{pos, ◌≤ℤ◌}
use nudge.Base.Result.{>>=-eq-ok, ok}
use nudge.Diff.Builder.{HunkBuilder, PatchLine, SectionBuilder}
use nudge.Diff.Limits.{PatchParseLimits, exceeds}
use nudge.Diff.Records.{RecordKind, hunk_header, is_section_record, record_kind}
use nudge.Diff.Records.Keeps.{SameRows, consume_record-SameRows}
use nudge.Diff.Rows.{close_hunk, finish_hunk, finish_open, no_newline_text}
use nudge.Diff.Rows.Accounting.{
  IsAccounted, IsClosed, close_hunk-IsAccounted, consume_diff_line-IsAccounted, mark-IsAccounted,
  start_hunk-IsAccounted, sum_rows,
}
use nudge.Diff.Section.{
  consume, consume_at, consume_inside, consume_kind, consume_lines, consume_outside, is_content,
  leave_hunk, new_section, read_section,
}
use nudge.Repo.Digest.{Digest}

SameRows-IsAccounted :
    (l : PatchParseLimits) (b b' : SectionBuilder)
    → SameRows b b'
    → IsAccounted l b
    → IsAccounted l b'
SameRows-IsAccounted l b b' s a = ground arith

new_section-IsAccounted :
    (l : PatchParseLimits) (line : PatchLine) (collect : Bool) (b : SectionBuilder)
    → pos 0 ≤ℤ l.max_rows
    → pos 0 ≤ℤ l.max_hunks
    → new_section line l collect ≡ ok b
    → IsAccounted l b × (b.hunk ≡ none)
unfolding new_section
new_section-IsAccounted l line collect b hr hh e = ground arith

module _ (d : Digest) (l : PatchParseLimits) where
  consume_kind-IsAccounted :
      (b b' : SectionBuilder) (line : PatchLine) (k : RecordKind)
      → b.hunk ≡ none
      → IsAccounted l b
      → consume_kind d b line l k ≡ ok b'
      → IsAccounted l b'
  unfolding consume_kind
  consume_kind-IsAccounted b b' line hunk_header n a e = start_hunk-IsAccounted d l b b' line n a e
  consume_kind-IsAccounted b b' line k n a e =
      SameRows-IsAccounted l b b' (consume_record-SameRows b b' line _ e) a

  consume_outside-IsAccounted :
      (b b' : SectionBuilder) (line : PatchLine)
      → b.hunk ≡ none
      → IsAccounted l b
      → consume_outside d b line l ≡ ok b'
      → IsAccounted l b'
  unfolding consume_outside
  consume_outside-IsAccounted b b' line n a e =
      let raised : SectionBuilder = record b {
        metadata_bytes = b.metadata_bytes + (line.end - line.offset);
      } in
      let raised_a : IsAccounted l raised = ground arith in
      ground (arith, consume_kind-IsAccounted raised b' line (record_kind line.text) n raised_a)

  leave_hunk-IsAccounted :
      (b b' : SectionBuilder) (h : HunkBuilder) (line : PatchLine)
      → b.hunk ≡ some h
      → IsAccounted l b
      → leave_hunk d b h line l ≡ ok b'
      → IsAccounted l b'
  unfolding leave_hunk
  leave_hunk-IsAccounted b b' h line n a e =
      elim (Bool-cases (bytes_eq line.text no_newline_text)) [
        | inl t ↦ mark-IsAccounted l b b' h n a (rw t at e)
        | inr t ↦ elim (Bool-cases (is_section_record line.text)) [
          | inl r ↦
              let (c, closed, after) =
                >>=-eq-ok (close_hunk b h line.offset l) _ (rw (t, r) at e) in
              let (c_a, c_none) = close_hunk-IsAccounted l b c h line.offset n a closed in
              consume_outside-IsAccounted c b' line c_none c_a after
          | inr r ↦ absurd (ground arith)
        ]
      ]

  consume_inside-IsAccounted :
      (b b' : SectionBuilder) (h : HunkBuilder) (line : PatchLine) (s : Bytes)
      → b.hunk ≡ some h
      → IsAccounted l b
      → consume_inside d b h line l s ≡ ok b'
      → IsAccounted l b'
  unfolding consume_inside
  consume_inside-IsAccounted b b' h line [] n a e = leave_hunk-IsAccounted b b' h line n a e
  consume_inside-IsAccounted b b' h line (c ∷ s) n a e = elim (Bool-cases (is_content c)) [
    | inl t ↦ consume_diff_line-IsAccounted l b b' h c s n a (rw t at e)
    | inr t ↦ leave_hunk-IsAccounted b b' h line n a (rw t at e)
  ]

  consume_at-IsAccounted :
      (b b' : SectionBuilder) (o : Option HunkBuilder) (line : PatchLine)
      → b.hunk ≡ o
      → IsAccounted l b
      → consume_at d b o line l ≡ ok b'
      → IsAccounted l b'
  unfolding consume_at
  consume_at-IsAccounted b b' none line n a e = consume_outside-IsAccounted b b' line n a e
  consume_at-IsAccounted b b' (some h) line n a e =
      consume_inside-IsAccounted b b' h line line.text n a e

  pub consume-IsAccounted :
      (b b' : SectionBuilder) (line : PatchLine)
      → IsAccounted l b
      → consume d b line l ≡ ok b'
      → IsAccounted l b'
  unfolding consume
  consume-IsAccounted b b' line a e =
      let moved_a : IsAccounted l (record b { last_end = line.end }) = ground arith in
      consume_at-IsAccounted (record b { last_end = line.end }) b' b.hunk line refl moved_a e

  consume_lines-IsAccounted :
      (b b' : SectionBuilder) (lines : List PatchLine)
      → IsAccounted l b
      → consume_lines d b lines l ≡ ok b'
      → IsAccounted l b'
  unfolding consume_lines
  consume_lines-IsAccounted b b' [] a e = ground arith
  consume_lines-IsAccounted b b' (line ∷ lines) a e =
      let (c, first, after) = >>=-eq-ok (consume d b line l) (λ c. consume_lines d c lines l) e in
      consume_lines-IsAccounted c b' lines (consume-IsAccounted b c line a first) after

  finish_open-IsAccounted :
      (b b' : SectionBuilder) (o : Option HunkBuilder) (end : ℕ)
      → b.hunk ≡ o
      → IsAccounted l b
      → finish_open b o end l ≡ ok b'
      → IsAccounted l b' × (b'.hunk ≡ none)
  unfolding finish_open
  finish_open-IsAccounted b b' none end n a e = ground arith
  finish_open-IsAccounted b b' (some h) end n a e = close_hunk-IsAccounted l b b' h end n a e

  finish_hunk-IsAccounted :
      (b b' : SectionBuilder) (end : ℕ)
      → IsAccounted l b
      → finish_hunk b end l ≡ ok b'
      → IsAccounted l b' × (b'.hunk ≡ none)
  unfolding finish_hunk
  finish_hunk-IsAccounted b b' end a e = finish_open-IsAccounted b b' b.hunk end refl a e

  -- A section that the parser reads to its end has exactly the rows of its hunks, no more rows and
  -- no more hunks than the limits allow, and each hunk has at least as many rows as its header
  -- counts lines on either side, and at most as many as it counts on both. The two limits are not
  -- negative.
  pub section-accounts :
      (header : PatchLine) (lines : List PatchLine) (end : ℕ) (collect : Bool) (f : SectionBuilder)
      → pos 0 ≤ℤ l.max_rows
      → pos 0 ≤ℤ l.max_hunks
      → read_section d l header lines end collect ≡ ok f
      → (f.total_rows ≡ sum_rows f.hunks)
        × (exceeds f.total_rows l.max_rows ≡ false)
        × (exceeds (length f.hunks) l.max_hunks ≡ false)
        × All IsClosed f.hunks
  section-accounts header lines end collect f hr hh e =
      let (b, e₁, rest) = >>=-eq-ok (new_section header l collect) _ e in
      let (c, e₂, e₃) = >>=-eq-ok (consume_lines d b lines l) _ rest in
      let (a, n) = new_section-IsAccounted l header collect b hr hh e₁ in
      let (a', n') =
        finish_hunk-IsAccounted c f end (consume_lines-IsAccounted b c lines a e₂) e₃ in
      ground arith
