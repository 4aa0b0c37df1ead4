-- ===== src/Diff/Section/Agree.antt =====
-- The index pass, which collects nothing, and the structured parse agree on every section.
use nudge.Base.{
  Bool-cases, List, Option, [], ap, false, inl, inr, none, refl, some, true, ℕ, ◌+◌, ◌-◌, ◌∙◌, ◌∷◌,
  ◌≡◌,
}
use nudge.Base.Bytes.{Bytes, bytes_eq, codes}
use nudge.Base.Result.{fail_if, map_result, map_result-bind, map_result-if, map_result-step, ◌>>=◌}
use nudge.Diff.Builder.{HunkBuilder, PatchLine, SectionBuilder}
use nudge.Diff.Header.{parse_git_header_paths, parse_repo_path}
use nudge.Diff.Limits.{PatchError, PatchParseLimits, exceeds, limited}
use nudge.Diff.Records.{RecordKind, hunk_header, is_combined, is_section_record, record_kind}
use nudge.Diff.Records.Forget.{consume_record-forget, forget, forget_hunk, forget_open}
use nudge.Diff.Rows.{close_hunk, finish_hunk, finish_open, no_newline_text}
use nudge.Diff.Rows.Collected.{Replays}
use nudge.Diff.Rows.Forget.{
  Collects, OpenReplays, close_hunk-forget, consume_diff_line-forget, mark-forget,
  start_hunk-forget,
}
use nudge.Diff.Section.{
  consume, consume_at, consume_inside, consume_kind, consume_lines, consume_outside, is_content,
  leave_hunk, new_section, read_section,
}
use nudge.Diff.Section.Collects.{
  bumped, consume-Collects, consume_lines-Collects, new_section-Collects,
}
use nudge.Repo.Digest.{Digest}

new_section-forget :
    (line : PatchLine) (l : PatchParseLimits)
    → new_section line l false ≡ map_result forget (new_section line l true)
unfolding new_section
new_section-forget line l = map_result-step forget (parse_git_header_paths line.text) _ _ λ ps e.
    map_result-step forget (parse_repo_path ps.0 (codes "a/") false) _ _ λ p f.
      map_result-step forget (parse_repo_path ps.1 (codes "b/") false) _ _ λ q g.
        map_result-step forget
          (fail_if (exceeds (line.end - line.offset) l.max_header_bytes) limited) _ _ λ u h. refl

module _ (d : Digest) (l : PatchParseLimits) where
  consume_kind-forget :
      (b : SectionBuilder) (line : PatchLine) (k : RecordKind)
      → consume_kind d (forget b) line l k ≡ map_result forget (consume_kind d b line l k)
  unfolding consume_kind
  consume_kind-forget b line hunk_header = start_hunk-forget d b line l
  consume_kind-forget b line k = consume_record-forget b line _

  consume_outside-forget :
      (b : SectionBuilder) (line : PatchLine)
      → consume_outside d (forget b) line l ≡ map_result forget (consume_outside d b line l)
  unfolding consume_outside
  consume_outside-forget b line =
      map_result-if forget b.binary _ _ _ _
        (map_result-step forget (fail_if (is_combined line.text) PatchError.unsupported) _ _
          (λ u e. refl))
        (map_result-step forget
          (fail_if (exceeds (b.metadata_bytes + (line.end - line.offset)) l.max_header_bytes)
            limited)
          _ _ (λ u e. consume_kind-forget (bumped b line) line (record_kind line.text)))

  leave_hunk-forget :
      (b : SectionBuilder) (h : HunkBuilder) (line : PatchLine)
      → b.collect ≡ true
      → Replays h
      → leave_hunk d (forget b) (forget_hunk h) line l ≡ map_result forget (leave_hunk d b h line l)
  unfolding leave_hunk
  leave_hunk-forget b h line c r = elim (Bool-cases (bytes_eq line.text no_newline_text)) [
    | inl t ↦ rw t (mark-forget b h c r)
    | inr t ↦ elim (Bool-cases (is_section_record line.text)) [
      | inl s ↦
          rw (t, s, close_hunk-forget b h line.offset l c r)
            (map_result-bind forget forget (close_hunk b h line.offset l) _ _
              (λ a e. consume_outside-forget a line))
      | inr s ↦ rw (t, s)
    ]
  ]

  consume_inside-forget :
      (b : SectionBuilder) (h : HunkBuilder) (line : PatchLine) (s : Bytes)
      → b.collect ≡ true
      → Replays h
      → consume_inside d (forget b) (forget_hunk h) line l s
        ≡ map_result forget (consume_inside d b h line l s)
  unfolding consume_inside
  consume_inside-forget b h line [] c r = leave_hunk-forget b h line c r
  consume_inside-forget b h line (x ∷ s) c r = elim (Bool-cases (is_content x)) [
    | inl t ↦ rw t (consume_diff_line-forget b h x s l)
    | inr t ↦ rw t (leave_hunk-forget b h line c r)
  ]

  consume_at-forget :
      (b : SectionBuilder) (o : Option HunkBuilder) (line : PatchLine)
      → b.collect ≡ true
      → OpenReplays o
      → consume_at d (forget b) (forget_open o) line l ≡ map_result forget (consume_at d b o line l)
  unfolding consume_at
  consume_at-forget b none line c r = consume_outside-forget b line
  consume_at-forget b (some h) line c r = consume_inside-forget b h line line.text c r

  pub consume-forget :
      (b : SectionBuilder) (line : PatchLine)
      → Collects b
      → consume d (forget b) line l ≡ map_result forget (consume d b line l)
  unfolding consume
  consume-forget b line c = consume_at-forget (record b { last_end = line.end }) b.hunk line c.0 c.1

  consume_lines-forget :
      (b : SectionBuilder) (lines : List PatchLine)
      → Collects b
      → consume_lines d (forget b) lines l ≡ map_result forget (consume_lines d b lines l)
  unfolding consume_lines
  consume_lines-forget b [] c = refl
  consume_lines-forget b (line ∷ lines) c =
      ap (λ m. m >>= λ a. consume_lines d a lines l) (consume-forget b line c)
      ∙ map_result-bind forget forget (consume d b line l) _ _
          (λ a e. consume_lines-forget a lines (consume-Collects d l b a line c e))

  finish_open-forget :
      (b : SectionBuilder) (o : Option HunkBuilder) (end : ℕ)
      → b.collect ≡ true
      → OpenReplays o
      → finish_open (forget b) (forget_open o) end l ≡ map_result forget (finish_open b o end l)
  unfolding finish_open
  finish_open-forget b none end c r = refl
  finish_open-forget b (some h) end c r = close_hunk-forget b h end l c r

  finish_hunk-forget :
      (b : SectionBuilder) (end : ℕ)
      → Collects b
      → finish_hunk (forget b) end l ≡ map_result forget (finish_hunk b end l)
  unfolding finish_hunk
  finish_hunk-forget b end c = finish_open-forget b b.hunk end c.0 c.1

  -- The index pass and the structured parse read a section alike: on any header and lines, both
  -- fail, with the same error, or both succeed, and then they agree in all but the lines and hunks
  -- that only the structured parse collects. So the structured parse never refuses a hunk that was
  -- indexed.
  pub read_section-agree :
      (header : PatchLine) (lines : List PatchLine) (end : ℕ)
      → read_section d l header lines end false
        ≡ map_result forget (read_section d l header lines end true)
  read_section-agree header lines end =
      ap (λ m. m >>= λ b. consume_lines d b lines l >>= λ c. finish_hunk c end l)
        (new_section-forget header l)
      ∙ map_result-bind forget forget (new_section header l true) _ _ λ b e.
        (ap (λ m. m >>= λ c. finish_hunk c end l)
            (consume_lines-forget b lines (new_section-Collects header l b e))
          ∙ map_result-bind forget forget (consume_lines d b lines l) _ _ λ c f.
            finish_hunk-forget c end
              (consume_lines-Collects d l b c lines (new_section-Collects header l b e) f))
