-- ===== src/Diff/Header.antt =====
-- internal/diff/parser.go: the parsers of single header lines of a file section.
pub mod Ranges
use nudge.Base.{
  Bool, List, Option, [], all, drop, if◌then◌else◌, leb, length, ltb, none, not, some, take, ℕ,
  ◌&&◌, ◌+◌, ◌==◌, ◌^◌, ◌||◌, ◌∷◌,
}
use nudge.Base.Bytes.{Bytes, bytes_eq, codes, has_prefix, is_empty}
use nudge.Base.Int.{negsuc, pos}
use nudge.Base.Result.{Result, err, fail_if, is_ok, ok, ◌>>=◌, ◌>>◌}
use nudge.Base.Text.{
  all_space, fields, index_of, last_index_of, parse_int, parse_uint, split, trim_space,
}
use nudge.Base.Utf8.{within}
use nudge.Diff.Limits.{PatchError, malformed}
use nudge.Diff.Quoted.{decode_c_quoted, quote, take_quoted_token}
use nudge.Repo.Mode.{validate_git_mode}
use nudge.Repo.Path.{ObjectId, RepoPath, all_zeros, new_object_id, new_repo_path}

unfoldable pub quoted_header_paths : Bytes → Result PatchError (Bytes × Bytes)
quoted_header_paths value = do
  (old_value, rest) ← take_quoted_token value
  (new_value, rest') ← take_quoted_token rest
  fail_if (not (all_space rest')) malformed
  ok (old_value, new_value)

-- The two paths of a header, after its prefix test.
unfoldable pub header_paths : Bytes → Result PatchError (Bytes × Bytes)
unfolding quoted_header_paths
header_paths value =
    if has_prefix value (quote ∷ [])
    then quoted_header_paths value
    else elim (last_index_of (codes " b/") value) [
      | none ↦ err malformed
      | some separator ↦
          fail_if
            (not (has_prefix value (codes "a/"))
              || separator == 0
              || leb (length value) (separator + 1))
            malformed
          >> ok (take separator value, drop (separator + 1) value)
    ]

-- `parseGitHeaderPaths`.
unfoldable pub parse_git_header_paths : Bytes → Result PatchError (Bytes × Bytes)
parse_git_header_paths line =
    fail_if (not (has_prefix line (codes "diff --git "))) malformed >> header_paths (drop 11 line)

starts_quoted : Bytes → Bool
starts_quoted raw = has_prefix raw (quote ∷ [])

-- The path after an optional quoting has been taken off.
plain_path : Bytes → Bytes → Result PatchError (Option RepoPath)
plain_path raw prefix =
    if bytes_eq raw (codes "/dev/null")
    then ok none
    else let path =
        if not (is_empty prefix) && has_prefix raw prefix then drop (length prefix) raw else raw in
      elim (new_repo_path path) [ ok p ↦ ok (some p) | err e ↦ err malformed ]

unquote : Bytes → Result PatchError Bytes
unquote raw = elim (decode_c_quoted raw) [
  | err e ↦ err malformed
  | ok (decoded, consumed) ↦ fail_if (not (all_space (drop consumed raw))) malformed >> ok decoded
]

-- `parseRepoPath`; a nil path is `none`.
unfoldable pub parse_repo_path : Bytes → Bytes → Bool → Result PatchError (Option RepoPath)
unfolding plain_path unquote starts_quoted
parse_repo_path raw prefix quoted =
    if quoted || starts_quoted raw
    then (unquote raw >>= λ path. plain_path path prefix)
    else plain_path raw prefix

before_tab : Bytes → Bytes
before_tab [] = []
before_tab (c ∷ s) = if c == b'\t' then [] else c ∷ before_tab s

-- `parsePatchPathLine`.
unfoldable pub parse_patch_path_line : Bytes → Bytes → Result PatchError (Option RepoPath)
unfolding parse_repo_path before_tab
parse_patch_path_line raw prefix =
    let path = before_tab raw in parse_repo_path path prefix (starts_quoted path)

-- `parseMode`.
unfoldable pub parse_mode : Bytes → Result PatchError ℕ
unfolding parse_uint
parse_mode [] = err malformed
parse_mode (c ∷ s) = elim (parse_uint 8 (2 ^ 32) (c ∷ s)) [
  | none ↦ err malformed
  | some value ↦ fail_if (value == 0 || not (is_ok (validate_git_mode value))) malformed >> ok value
]

is_hex : ℕ → Bool
is_hex c = within b'0' b'9' c || within b'a' b'f' c || within b'A' b'F' c

-- `parsePatchObject`; a nil object is `none`. Beyond ASCII a rune is no digit, as its bytes are none.
unfoldable pub parse_patch_object : Bytes → Result PatchError (Option ObjectId)
unfolding is_hex
parse_patch_object [] = err malformed
parse_patch_object (c ∷ s) =
    if all_zeros (c ∷ s)
    then ok none
    else if not (all is_hex (c ∷ s))
    then err malformed
    else elim (new_object_id (c ∷ s)) [ ok object ↦ ok (some object) | err e ↦ err malformed ]

unfoldable pub range_start : Bytes → Result PatchError ℕ
range_start s = elim (parse_int (2 ^ 31) s) [
  | some (pos n) ↦ ok n
  | some (negsuc n) ↦ err malformed
  | none ↦ err malformed
]

unfoldable pub range_parts : List Bytes → Result PatchError (ℕ × ℕ)
range_parts [] = err malformed
range_parts (first ∷ []) = do
  fail_if (is_empty first) malformed
  first_line ← range_start first
  fail_if (first_line == 0) malformed
  ok (first_line, 1)
range_parts (first ∷ second ∷ []) = do
  fail_if (is_empty first) malformed
  first_line ← range_start first
  size ← range_start second
  fail_if (ltb 0 size && first_line == 0) malformed
  ok (first_line, size)
range_parts (first ∷ second ∷ third ∷ rest) = err malformed

-- `parseHunkRange`: the first line and the number of lines.
unfoldable pub parse_hunk_range : Bytes → ℕ → Result PatchError (ℕ × ℕ)
parse_hunk_range [] prefix = err malformed
parse_hunk_range (c ∷ []) prefix = err malformed
parse_hunk_range (c ∷ d ∷ s) prefix =
    fail_if (not (c == prefix)) malformed >> range_parts (split (d ∷ s) (codes ","))

pub record HunkRanges : Type 0 where
  pub base_start : ℕ
  pub base_count : ℕ
  pub head_start : ℕ
  pub head_count : ℕ

unfoldable pub two_ranges : List Bytes → Result PatchError HunkRanges
two_ranges (base ∷ head ∷ []) = do
  (base_start, base_count) ← parse_hunk_range base b'-'
  (head_start, head_count) ← parse_hunk_range head b'+'
  ok (record {
    base_start = base_start;
    base_count = base_count;
    head_start = head_start;
    head_count = head_count;
  })
two_ranges _ = err malformed

-- `parseHunkHeader`.
unfoldable pub parse_hunk_header : Bytes → Result PatchError HunkRanges
parse_hunk_header value =
    fail_if (not (has_prefix value (codes "@@ "))) malformed
    >> elim (index_of (codes " @@") (drop 3 value)) [
      | none ↦ err malformed
      | some end ↦ two_ranges (fields (take end (drop 3 value)))
    ]

-- `parseSimilarityPercent`.
unfoldable pub parse_similarity_percent : Bytes → Result PatchError ℕ
parse_similarity_percent value =
    let v = trim_space value in
    fail_if (not (length v == 4) || not (bytes_eq (drop 3 v) (codes "%"))) malformed
    >> elim (parse_int (2 ^ 63) (take 3 v)) [
      | some (pos n) ↦ fail_if (ltb n 60 || ltb 100 n) malformed >> ok n
      | some (negsuc n) ↦ err malformed
      | none ↦ err malformed
    ]
