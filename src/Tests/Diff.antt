-- ===== src/Tests/Diff.antt =====
-- Quoted paths, header lines, and a section with one hunk.
use nudge.Base.{All, List, [], arith, false, length, refl, true, ℕ, ◌++◌, ◌+◌, ◌↔◌, ◌∷◌, ◌≡◌}
use nudge.Base.Bytes.{Bytes, codes}
use nudge.Base.Int.{negsuc, pos, ◌≤ℤ◌}
use nudge.Base.Result.{Result, err, is_ok, is_ok-value, map_result, ok}
use nudge.Base.Text.{digits_value, fields, index_of, last_index_of, parse_int, parse_uint, split}
use nudge.Base.Utf8.{valid_text, valid_utf8}
use nudge.Diff.Builder.{PatchLine, SectionBuilder}
use nudge.Diff.Header.{
  header_paths, parse_git_header_paths, parse_hunk_header, parse_hunk_range, parse_mode,
  parse_patch_object, parse_patch_path_line, parse_repo_path, range_parts, range_start, two_ranges,
}
use nudge.Diff.Header.Ranges.{AreRanges, parse_hunk_header-AreRanges}
use nudge.Diff.Limits.{
  PatchError, PatchParseLimits, default_patch_parse_limits, exceeds, max_int32, validate_limits,
  with_defaults,
}
use nudge.Diff.Limits.Laws.{AreFilled, validate-with_defaults}
use nudge.Diff.Quoted.{decode_c_quoted, decode_from, escaped, octal_digits}
use nudge.Diff.Quoted.RoundTrip.{c_quoted, decode_c_quoted-c_quoted}
use nudge.Diff.Records.{consume_index, consume_record, is_section_record, record_kind}
use nudge.Diff.Records.Forget.{forget}
use nudge.Diff.Rows.{
  add_row, close_hunk, collect_hunk, consume_diff_line, consume_no_newline_marker, cut_cr,
  finish_hunk, finished_hunk, mark_lines, mark_sides, marker_line, no_newline_text, row_line,
  set_no_newline, start_hunk,
}
use nudge.Diff.Rows.Accounting.{IsClosed, sum_rows}
use nudge.Diff.Section.{
  consume, consume_inside, consume_kind, consume_lines, consume_outside, leave_hunk, new_section,
  read_section,
}
use nudge.Diff.Section.Agree.{read_section-agree}
use nudge.Diff.Section.Counts.{section-accounts}
use nudge.Repo.Hunk.{
  tally_line, tally_lines, tally_step, valid_hunk_range, validate_hunk, validate_line,
}
use nudge.Repo.Mode.{validate_git_mode}
use nudge.Repo.Path.{new_object_id, new_repo_path}
use nudge.Tests.Digests.{zero_digest, zeros}

quoted_tab :
    decode_c_quoted (codes "\"a/t\\tb\\303\\251\" rest")
    ≡ ok (codes "a/t\tb" ++ (195 ∷ 169 ∷ []), 16)
unfolding decode_c_quoted decode_from escaped octal_digits
quoted_tab = refl

decode_c_quoted-c_quoted_example :
    decode_c_quoted (c_quoted (codes "a b" ++ (7 ∷ 255 ∷ [])) ++ codes " x")
    ≡ ok (codes "a b" ++ (7 ∷ 255 ∷ []), length (c_quoted (codes "a b" ++ (7 ∷ 255 ∷ []))))
decode_c_quoted-c_quoted_example =
    decode_c_quoted-c_quoted (codes "a b" ++ (7 ∷ 255 ∷ [])) (codes " x") (omega arith)

plain_header :
    parse_git_header_paths (codes "diff --git a/x b/y b/z") ≡ ok (codes "a/x b/y", codes "b/z")
unfolding parse_git_header_paths header_paths last_index_of
plain_header = refl

hunk_header_default :
    parse_hunk_header (codes "@@ -3 +4,0 @@ f")
    ≡ ok (record { base_start = 3; base_count = 1; head_start = 4; head_count = 0 })
unfolding parse_hunk_header two_ranges parse_hunk_range range_parts range_start index_of fields
    split parse_int
hunk_header_default = refl

parse_hunk_header-AreRanges_example :
    AreRanges (record { base_start = 3; base_count = 1; head_start = 4; head_count = 0 })
parse_hunk_header-AreRanges_example =
    parse_hunk_header-AreRanges (codes "@@ -3 +4,0 @@ f")
      (record { base_start = 3; base_count = 1; head_start = 4; head_count = 0 })
      hunk_header_default

-- Terminated lines from an offset on.
abbrev lines_at : ℕ → List Bytes → List PatchLine
lines_at n [] = []
lines_at n (t ∷ ts) =
    record { offset = n; end = n + length t + 1; text = t; terminated = true }
    ∷ lines_at (n + length t + 1) ts

abbrev section_header : PatchLine
section_header = record {
  offset = 0;
  end = 19;
  text = codes "diff --git a/f b/f";
  terminated = true;
}

abbrev section_lines : List PatchLine
section_lines = lines_at 19 (
    codes "index 12..ab 100644"
    ∷ codes "--- a/f"
    ∷ codes "+++ b/f"
    ∷ codes "@@ -1,2 +1,2 @@"
    ∷ codes " a"
    ∷ codes "-b"
    ∷ codes "+c"
    ∷ no_newline_text
    ∷ [])

abbrev read_ok : Result PatchError SectionBuilder → ℕ × ℕ × ℕ
read_ok (ok b) = (b.total_rows, length b.hunks, length b.diff_hunks)
read_ok (err e) = (0, 0, 0)

abbrev section_result : Result PatchError SectionBuilder
section_result =
    read_section zero_digest default_patch_parse_limits section_header section_lines 116 true

section_read : read_ok section_result ≡ (3, 1, 1)
unfolding new_section parse_git_header_paths header_paths last_index_of parse_repo_path
    new_repo_path default_patch_parse_limits consume_lines consume consume_outside consume_kind
    consume_inside leave_hunk record_kind consume_record consume_index fields split
    parse_patch_object new_object_id valid_text valid_utf8 parse_mode parse_uint validate_git_mode
    parse_patch_path_line start_hunk parse_hunk_header index_of two_ranges parse_hunk_range
    range_parts range_start parse_int consume_diff_line add_row row_line consume_no_newline_marker
    mark_sides mark_lines set_no_newline marker_line finish_hunk close_hunk collect_hunk
    validate_hunk finished_hunk valid_hunk_range tally_lines tally_step tally_line validate_line
    is_section_record zeros cut_cr digits_value
section_read = refl

section_is_ok : is_ok section_result ≡ true
unfolding new_section parse_git_header_paths header_paths last_index_of parse_repo_path
    new_repo_path default_patch_parse_limits consume_lines consume consume_outside consume_kind
    consume_inside leave_hunk record_kind consume_record consume_index fields split
    parse_patch_object new_object_id valid_text valid_utf8 parse_mode parse_uint validate_git_mode
    parse_patch_path_line start_hunk parse_hunk_header index_of two_ranges parse_hunk_range
    range_parts range_start parse_int consume_diff_line add_row row_line consume_no_newline_marker
    mark_sides mark_lines set_no_newline marker_line finish_hunk close_hunk collect_hunk
    validate_hunk finished_hunk valid_hunk_range tally_lines tally_step tally_line validate_line
    is_section_record zeros cut_cr digits_value
section_is_ok = refl

section_value : SectionBuilder
section_value = (is_ok-value section_result section_is_ok).0

section-accounts_example :
    (section_value.total_rows ≡ sum_rows section_value.hunks)
    × (exceeds section_value.total_rows default_patch_parse_limits.max_rows ≡ false)
    × (exceeds (length section_value.hunks) default_patch_parse_limits.max_hunks ≡ false)
    × All IsClosed section_value.hunks
unfolding section_value default_patch_parse_limits
section-accounts_example =
    section-accounts zero_digest default_patch_parse_limits section_header section_lines 116 true
      section_value (omega arith) (omega arith) (is_ok-value section_result section_is_ok).1

read_section-agree_example :
    read_section zero_digest default_patch_parse_limits section_header section_lines 116 false
    ≡ map_result forget section_result
read_section-agree_example =
    read_section-agree zero_digest default_patch_parse_limits section_header section_lines 116

-- Most limits ask for the default.
abbrev mixed_limits : PatchParseLimits
mixed_limits = record {
  max_patch_bytes = pos 0;
  max_file_bytes = pos 0;
  max_binary_bytes = pos 0;
  max_line_bytes = pos 80;
  max_header_bytes = pos 0;
  max_files = pos 3;
  max_hunks = pos 0;
  max_rows = negsuc 0;
}

validate-with_defaults_example :
    AreFilled mixed_limits (with_defaults mixed_limits)
    × ((validate_limits (with_defaults mixed_limits) ≡ ok tt) ↔ (
        (pos 0 ≤ℤ mixed_limits.max_patch_bytes)
        × (pos 0 ≤ℤ mixed_limits.max_file_bytes)
        × (pos 0 ≤ℤ mixed_limits.max_binary_bytes)
        × (pos 0 ≤ℤ mixed_limits.max_line_bytes)
        × (mixed_limits.max_line_bytes ≤ℤ max_int32)
        × (pos 0 ≤ℤ mixed_limits.max_header_bytes)
        × (mixed_limits.max_header_bytes ≤ℤ max_int32)
        × (pos 0 ≤ℤ mixed_limits.max_files)
        × (pos 0 ≤ℤ mixed_limits.max_hunks)
        × (pos 0 ≤ℤ mixed_limits.max_rows)))
validate-with_defaults_example = validate-with_defaults mixed_limits
