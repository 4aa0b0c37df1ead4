-- ===== src/Diff/Section.antt =====
-- internal/diff/parser.go: `sectionBuilder`, which reads the lines of one file section.
pub mod Counts
pub mod Collects
pub mod Agree
use nudge.Base.{
  Bool, List, Option, [], false, if◌then◌else◌, none, some, ℕ, ◌+◌, ◌-◌, ◌==◌, ◌||◌, ◌∷◌,
}
use nudge.Base.Bytes.{Bytes, bytes_eq, codes}
use nudge.Base.Result.{Result, err, fail_if, ok, ◌>>=◌, ◌>>◌}
use nudge.Diff.Builder.{HunkBuilder, PatchLine, SectionBuilder}
use nudge.Diff.Header.{parse_git_header_paths, parse_repo_path}
use nudge.Diff.Limits.{PatchError, PatchParseLimits, exceeds, limited, malformed}
use nudge.Diff.Records.{
  RecordKind, consume_record, hunk_header, is_combined, is_section_record, record_kind,
}
use nudge.Diff.Rows.{
  close_hunk, consume_diff_line, consume_no_newline_marker, finish_hunk, no_newline_text,
  start_hunk,
}
use nudge.Repo.Digest.{Digest}

-- `newSection`.
unfoldable pub new_section : PatchLine → PatchParseLimits → Bool → Result PatchError SectionBuilder
new_section line limits collect = do
  (old_raw, new_raw) ← parse_git_header_paths line.text
  old_path ← parse_repo_path old_raw (codes "a/") false
  new_path ← parse_repo_path new_raw (codes "b/") false
  fail_if (exceeds (line.end - line.offset) limits.max_header_bytes) limited
  ok (record {
    start = line.offset;
    header_len = line.end - line.offset;
    last_end = line.end;
    old_path = old_path;
    new_path = new_path;
    rename_from = none;
    rename_to = none;
    copy_from = none;
    copy_to = none;
    old_mode = 0;
    new_mode = 0;
    index_mode = 0;
    old_mode_set = false;
    new_mode_set = false;
    index_mode_set = false;
    old_object = none;
    new_object = none;
    binary = false;
    binary_start = none;
    binary_complete = false;
    metadata_bytes = line.end - line.offset;
    hunk = none;
    hunks = [];
    diff_hunks = [];
    collect = collect;
    total_rows = 0;
    similarity_percent = 0;
    similarity_set = false;
  })

abbrev pub is_content : ℕ → Bool
is_content c = c == b' ' || c == b'+' || c == b'-'

module _ (d : Digest) where
  -- The metadata part of `consume`, after the count of metadata bytes.
  unfoldable pub consume_kind :
      SectionBuilder → PatchLine → PatchParseLimits → RecordKind → Result PatchError SectionBuilder
  consume_kind b line limits hunk_header = start_hunk d b line limits
  consume_kind b line limits kind = consume_record b line kind

  -- `consume` outside a hunk.
  unfoldable pub consume_outside :
      SectionBuilder → PatchLine → PatchParseLimits → Result PatchError SectionBuilder
  consume_outside b line limits =
      let metadata_bytes = b.metadata_bytes + (line.end - line.offset) in
      if b.binary
      then (fail_if (is_combined line.text) PatchError.unsupported >> ok b)
      else (fail_if (exceeds metadata_bytes limits.max_header_bytes) limited
          >> consume_kind (record b { metadata_bytes = metadata_bytes }) line limits
              (record_kind line.text))

  -- `consume` on a line inside a hunk that is no content line.
  unfoldable pub leave_hunk :
      SectionBuilder → HunkBuilder → PatchLine → PatchParseLimits → Result PatchError SectionBuilder
  leave_hunk b h line limits =
      if bytes_eq line.text no_newline_text
      then consume_no_newline_marker b h
      else if is_section_record line.text
      then (close_hunk b h line.offset limits >>= λ b'. consume_outside b' line limits)
      else err malformed

  -- `consume` inside a hunk, by the bytes of the line.
  unfoldable pub consume_inside :
      SectionBuilder
      → HunkBuilder
      → PatchLine
      → PatchParseLimits
      → Bytes
      → Result PatchError SectionBuilder
  consume_inside b h line limits [] = leave_hunk b h line limits
  consume_inside b h line limits (c ∷ s) =
      if is_content c then consume_diff_line b h c s limits else leave_hunk b h line limits

  consume_at :
      SectionBuilder
      → Option HunkBuilder
      → PatchLine
      → PatchParseLimits
      → Result PatchError SectionBuilder
  consume_at b none line limits = consume_outside b line limits
  consume_at b (some h) line limits = consume_inside b h line limits line.text

  -- `sectionBuilder.consume`.
  unfoldable pub consume :
      SectionBuilder → PatchLine → PatchParseLimits → Result PatchError SectionBuilder
  unfolding consume_at
  consume b line limits = consume_at (record b { last_end = line.end }) b.hunk line limits

  -- The lines of one section, the first of which is its header.
  unfoldable pub consume_lines :
      SectionBuilder → List PatchLine → PatchParseLimits → Result PatchError SectionBuilder
  consume_lines b [] limits = ok b
  consume_lines b (line ∷ lines) limits =
      consume b line limits >>= λ b'. consume_lines b' lines limits

  -- The whole reading of a section, as both passes compose it: its header, its other lines, and the end
  -- of its last hunk.
  abbrev pub read_section :
      PatchParseLimits → PatchLine → List PatchLine → ℕ → Bool → Result PatchError SectionBuilder
  read_section limits header lines end collect = new_section header limits collect >>= λ b.
      consume_lines b lines limits >>= λ c. finish_hunk c end limits
