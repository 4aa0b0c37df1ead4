-- ===== src/Repo/Rename.antt =====
-- internal/domain/repository/rename.go, with the kinds of change.go: the evidence of a rename or copy.
pub mod Laws
use nudge.Base.{Bool, [], false, length, ltb, not, true, ℕ, ◌&&◌, ◌++◌, ◌==◌, ◌||◌, ◌∷◌}
use nudge.Base.Bytes.{Bytes, bytes_eq, codes}
use nudge.Base.Result.{Result, fail_if, is_ok, ok, ◌>>◌}
use nudge.Base.Text.{format_uint}
use nudge.Repo.Digest.{Digest}
use nudge.Repo.Path.{RepoError, RepoPath, invalid_rename_evidence, validate_repo_path}
use nudge.Repo.Symlink.{valid_content_hash}

-- `change_other s` is a string `s` that is no constant.
pub data ChangeKind : Type 0 where
  change_added change_modified change_deleted change_renamed change_copied : ChangeKind
  change_type_changed change_untracked : ChangeKind
  change_other : Bytes → ChangeKind

-- `ChangeKind.valid`.
abbrev pub change_kind_valid : ChangeKind → Bool
change_kind_valid (change_other s) = false
change_kind_valid _ = true

change_text : ChangeKind → Bytes
change_text change_added = codes "added"
change_text change_modified = codes "modified"
change_text change_deleted = codes "deleted"
change_text change_renamed = codes "renamed"
change_text change_copied = codes "copied"
change_text change_type_changed = codes "type_changed"
change_text change_untracked = codes "untracked"
change_text (change_other s) = s

-- `kind == ChangeRenamed || kind == ChangeCopied`.
abbrev pub is_move : ChangeKind → Bool
is_move change_renamed = true
is_move change_copied = true
is_move _ = false

pub record RenameEvidence : Type 0 where
  pub policy_version : ℕ
  pub similarity_percent : ℕ
  pub kind : ChangeKind
  pub evidence_hash : Bytes

-- `writeRenamePart`: the length of a part, and the part, each ended by a zero byte.
unfoldable pub rename_part : Bytes → Bytes
rename_part value = format_uint 10 (length value) ++ (0 ∷ value) ++ 0 ∷ []

-- The text that `renameEvidenceHash` hashes.
unfoldable pub rename_text : ℕ → ℕ → ChangeKind → RepoPath → RepoPath → Bytes
unfolding change_text
rename_text version similarity kind old_path new_path =
    rename_part (format_uint 10 version)
    ++ (rename_part (format_uint 10 similarity)
        ++ (rename_part (change_text kind) ++ (rename_part old_path ++ rename_part new_path)))

-- The limits that both the constructor and `Validate` set.
abbrev pub bad_score : ℕ → ℕ → ChangeKind → Bool
bad_score version similarity kind =
    version == 0 || ltb similarity 60 || ltb 100 similarity || not (is_move kind)

-- `RenameEvidence.Validate`.
unfoldable pub validate_rename : RenameEvidence → Result RepoError (Unit {0})
validate_rename e =
    fail_if
      (bad_score e.policy_version e.similarity_percent e.kind
        || not (valid_content_hash e.evidence_hash))
      invalid_rename_evidence

module _ (d : Digest) where
  -- `renameEvidenceHash`.
  unfoldable pub rename_evidence_hash : ℕ → ℕ → ChangeKind → RepoPath → RepoPath → Bytes
  rename_evidence_hash version similarity kind old_path new_path =
      d.digest (rename_text version similarity kind old_path new_path)

  -- `NewRenameEvidence`.
  unfoldable pub new_rename_evidence :
      ℕ → ℕ → ChangeKind → RepoPath → RepoPath → Result RepoError RenameEvidence
  new_rename_evidence version similarity kind old_path new_path =
      let e : RenameEvidence = record {
        policy_version = version;
        similarity_percent = similarity;
        kind = kind;
        evidence_hash = rename_evidence_hash version similarity kind old_path new_path;
      } in
      fail_if
        (not (is_ok (validate_repo_path old_path))
          || not (is_ok (validate_repo_path new_path))
          || bytes_eq old_path new_path
          || bad_score version similarity kind)
        invalid_rename_evidence
      >> (fail_if (not (is_ok (validate_rename e))) invalid_rename_evidence >> ok e)

  -- `RenameEvidence.MatchesPaths`.
  unfoldable pub matches_paths : RenameEvidence → RepoPath → RepoPath → Bool
  matches_paths e old_path new_path =
      is_ok (validate_rename e)
      && is_ok (validate_repo_path old_path)
      && is_ok (validate_repo_path new_path)
      && not (bytes_eq old_path new_path)
      && bytes_eq e.evidence_hash
          (rename_evidence_hash e.policy_version e.similarity_percent e.kind old_path new_path)
