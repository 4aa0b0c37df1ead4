-- ===== src/Diff/Records.antt =====
-- internal/diff/parser.go: the metadata lines of a file section, outside its hunks.
pub mod Keeps
pub mod Forget
use nudge.Base.{Bool, List, Option, [], any, drop, if◌then◌else◌, none, some, true, ◌||◌, ◌∷◌}
use nudge.Base.Bytes.{Bytes, bytes_eq, codes, has_prefix}
use nudge.Base.Result.{Result, err, ok, ◌>>=◌}
use nudge.Base.Text.{fields, split}
use nudge.Diff.Builder.{PatchLine, SectionBuilder}
use nudge.Diff.Header.{
  parse_mode, parse_patch_object, parse_patch_path_line, parse_repo_path, parse_similarity_percent,
}
use nudge.Diff.Limits.{PatchError, malformed}
use nudge.Diff.Quoted.{quote}
use nudge.Repo.Path.{ObjectId, RepoPath}

-- Which record a metadata line is: the prefixes in the order in which `consume` tests them, with the
-- rest of the line where it is read.
pub data RecordKind : Type 0 where
  hunk_header git_binary binary_files dissimilarity_index unknown_record : RecordKind
  old_mode_record new_mode_record new_file_record deleted_file_record : Bytes → RecordKind
  index_record : Bytes → RecordKind
  rename_from_record rename_to_record copy_from_record copy_to_record : Bytes → RecordKind
  old_file_record new_file_line similarity_index : Bytes → RecordKind

-- The extended headers of a change of mode, and the index line.
mode_record : Bytes → Option RecordKind
mode_record text =
    if has_prefix text (codes "old mode ")
    then some (old_mode_record (drop 9 text))
    else if has_prefix text (codes "new mode ")
    then some (new_mode_record (drop 9 text))
    else if has_prefix text (codes "new file mode ")
    then some (new_file_record (drop 14 text))
    else if has_prefix text (codes "deleted file mode ")
    then some (deleted_file_record (drop 18 text))
    else if has_prefix text (codes "index ")
    then some (index_record (drop 6 text))
    else none

-- The lines that name a path.
path_record : Bytes → Option RecordKind
path_record text =
    if has_prefix text (codes "rename from ")
    then some (rename_from_record (drop 12 text))
    else if has_prefix text (codes "rename to ")
    then some (rename_to_record (drop 10 text))
    else if has_prefix text (codes "copy from ")
    then some (copy_from_record (drop 10 text))
    else if has_prefix text (codes "copy to ")
    then some (copy_to_record (drop 8 text))
    else if has_prefix text (codes "--- ")
    then some (old_file_record (drop 4 text))
    else if has_prefix text (codes "+++ ")
    then some (new_file_line (drop 4 text))
    else none

-- The last records.
other_record : Bytes → RecordKind
other_record text =
    if has_prefix text (codes "similarity index ")
    then similarity_index (drop 17 text)
    else if has_prefix text (codes "dissimilarity index ")
    then dissimilarity_index
    else unknown_record

unfoldable pub record_kind : Bytes → RecordKind
unfolding mode_record path_record other_record
record_kind text =
    if has_prefix text (codes "@@ ")
    then hunk_header
    else if bytes_eq text (codes "GIT binary patch")
    then git_binary
    else if has_prefix text (codes "Binary files ")
    then binary_files
    else elim (mode_record text) [
      | some r ↦ r
      | none ↦ elim (path_record text) [ some r ↦ r | none ↦ other_record text ]
    ]

any_prefix : Bytes → List Bytes → Bool
any_prefix text = any (has_prefix text)

-- `isSectionRecord`: the lines that end a hunk.
unfoldable pub is_section_record : Bytes → Bool
unfolding any_prefix
is_section_record text = any_prefix text (
    codes "@@ "
    ∷ codes "old mode "
    ∷ codes "new mode "
    ∷ codes "new file mode "
    ∷ codes "deleted file mode "
    ∷ codes "index "
    ∷ codes "rename from "
    ∷ codes "rename to "
    ∷ codes "copy from "
    ∷ codes "copy to "
    ∷ codes "--- "
    ∷ codes "+++ "
    ∷ codes "Binary files "
    ∷ codes "GIT binary patch"
    ∷ [])

-- `diff --cc` and `diff --combined`.
unfoldable pub is_combined : Bytes → Bool
is_combined text =
    has_prefix text (codes "diff --cc ") || has_prefix text (codes "diff --combined ")

object_range : List Bytes → Result PatchError (Option ObjectId × Option ObjectId)
object_range (old ∷ new ∷ []) = do
  old_object ← parse_patch_object old
  new_object ← parse_patch_object new
  ok (old_object, new_object)
object_range _ = err malformed

-- The fields of an index line.
index_fields : SectionBuilder → List Bytes → Result PatchError SectionBuilder
unfolding object_range
index_fields b (range ∷ []) = do
  (old_object, new_object) ← object_range (split range (codes ".."))
  ok (record b { old_object = old_object; new_object = new_object })
index_fields b (range ∷ mode ∷ []) = do
  (old_object, new_object) ← object_range (split range (codes ".."))
  index_mode ← parse_mode mode
  ok (record b {
    old_object = old_object;
    new_object = new_object;
    index_mode = index_mode;
    index_mode_set = true;
  })
index_fields b _ = err malformed

-- `consumeIndex`.
unfoldable pub consume_index : SectionBuilder → Bytes → Result PatchError SectionBuilder
unfolding index_fields
consume_index b value = index_fields b (fields value)

-- The path of a rename or copy record.
moved_path : Bytes → Result PatchError (Option RepoPath)
moved_path raw = parse_repo_path raw [] (has_prefix raw (quote ∷ []))

-- What `consume` does with a metadata record that opens no hunk.
unfoldable pub consume_record :
    SectionBuilder → PatchLine → RecordKind → Result PatchError SectionBuilder
unfolding moved_path
consume_record b line git_binary =
    ok (record b { binary = true; binary_start = some line.offset; binary_complete = true })
consume_record b line binary_files =
    ok (record b { binary = true; binary_start = some line.offset })
consume_record b line (old_mode_record raw) = do
  mode ← parse_mode raw
  ok (record b { old_mode = mode; old_mode_set = true })
consume_record b line (new_mode_record raw) = do
  mode ← parse_mode raw
  ok (record b { new_mode = mode; new_mode_set = true })
consume_record b line (new_file_record raw) = do
  mode ← parse_mode raw
  ok (record b { new_mode = mode; new_mode_set = true; old_path = none })
consume_record b line (deleted_file_record raw) = do
  mode ← parse_mode raw
  ok (record b { old_mode = mode; old_mode_set = true; new_path = none })
consume_record b line (index_record raw) = consume_index b raw
consume_record b line (rename_from_record raw) = do
  path ← moved_path raw
  ok (record b { rename_from = path })
consume_record b line (rename_to_record raw) = do
  path ← moved_path raw
  ok (record b { rename_to = path })
consume_record b line (copy_from_record raw) = do
  path ← moved_path raw
  ok (record b { copy_from = path })
consume_record b line (copy_to_record raw) = do
  path ← moved_path raw
  ok (record b { copy_to = path })
consume_record b line (old_file_record raw) = do
  path ← parse_patch_path_line raw (codes "a/")
  ok (record b { old_path = path })
consume_record b line (new_file_line raw) = do
  path ← parse_patch_path_line raw (codes "b/")
  ok (record b { new_path = path })
consume_record b line (similarity_index raw) = do
  value ← parse_similarity_percent raw
  ok (record b { similarity_percent = value; similarity_set = true })
consume_record b line dissimilarity_index = ok b
consume_record b line hunk_header = err malformed
consume_record b line unknown_record = err malformed
