-- ===== src/Repo/Path.antt =====
-- internal/domain/repository/tree.go and snapshot.go: raw repository paths, the kinds of entries, and
-- the identifiers of Git objects.
use nudge.Base.{Bool, all, false, not, true, ◌==◌, ◌||◌}
use nudge.Base.Bytes.{Bytes, has_byte, is_empty}
use nudge.Base.Result.{Result, fail_if, ok, ◌>>=◌, ◌>>◌}
use nudge.Base.Utf8.{valid_text}

abbrev pub RepoPath : Type 0
RepoPath = Bytes

pub data RepoError : Type 0 where
  invalid_repo_path invalid_object_id invalid_git_mode invalid_mode_transition : RepoError
  invalid_rename_evidence invalid_changed_file invalid_content_class invalid_snapshot_ref :
      RepoError
  invalid_symlink_evidence invalid_text_byte_semantics text_content_class_drift : RepoError

-- `NewRepoPath`; the copy of the bytes is the value itself.
unfoldable pub new_repo_path : Bytes → Result RepoError RepoPath
new_repo_path raw = fail_if (is_empty raw || has_byte 0 raw) invalid_repo_path >> ok raw

-- `RepoPath.Validate`.
unfoldable pub validate_repo_path : RepoPath → Result RepoError (Unit {0})
validate_repo_path p = fail_if (is_empty p || has_byte 0 p) invalid_repo_path

-- `unset` is the empty string, and `foreign` any string that is no constant.
pub data FileKind : Type 0 where
  regular symlink gitlink directory unknown unset foreign : FileKind

-- `FileKind.valid`.
unfoldable pub file_kind_valid : FileKind → Bool
file_kind_valid unset = false
file_kind_valid foreign = false
file_kind_valid _ = true

abbrev pub file_kind_eq : FileKind → FileKind → Bool
file_kind_eq regular regular = true
file_kind_eq symlink symlink = true
file_kind_eq gitlink gitlink = true
file_kind_eq directory directory = true
file_kind_eq unknown unknown = true
file_kind_eq unset unset = true
file_kind_eq foreign foreign = true
file_kind_eq _ _ = false

abbrev pub ObjectId : Type 0
ObjectId = Bytes

-- `NewObjectID`.
unfoldable pub new_object_id : Bytes → Result RepoError ObjectId
new_object_id value =
    fail_if (is_empty value || not (valid_text value)) invalid_object_id >> ok value

-- `strings.Trim(id, "0") == ""`.
abbrev pub all_zeros : Bytes → Bool
all_zeros = all (λ c. c == b'0')

-- `validatePresentObjectID` of change.go.
unfoldable pub validate_present_object_id : ObjectId → Result RepoError (Unit {0})
unfolding new_object_id
validate_present_object_id id =
    fail_if (is_empty id || all_zeros id) invalid_object_id >> (new_object_id id >>= λ _. ok tt)
