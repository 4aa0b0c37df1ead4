-- ===== src/Review/Anchor.antt =====
-- internal/domain/review/anchor.go: the evidence that binds a thread to a range of code.
use nudge.Base.{Bool, Option, false, not, true, ℕ, ◌&&◌, ◌==◌, ◌||◌}
use nudge.Base.Bytes.{Bytes, is_empty}
use nudge.Base.Int.{leb_ℤ, ltb_ℤ, pos, ℤ}
use nudge.Base.Result.{Result, err, fail_if, fails, ok, present_and, ◌>>◌}
use nudge.Base.Time.{Time, is_zero}
use nudge.Base.Utf8.{valid_utf8}
use nudge.Repo.Path.{RepoPath, validate_repo_path}
use nudge.Repo.Snapshot.{SnapshotRef, validate_snapshot_ref}
use nudge.Review.Values.{
  ReviewError, invalid_code_anchor, invalid_state, valid_metadata, valid_optional_metadata,
}

-- `side_other s` is a string `s` that is no constant.
pub data DiffSide : Type 0 where
  diff_base diff_head : DiffSide
  side_other : Bytes → DiffSide

pub data AnchorState : Type 0 where
  anchor_valid anchor_relocated anchor_ambiguous anchor_orphaned : AnchorState
  anchor_other : Bytes → AnchorState

-- `AnchorState.Validate`.
abbrev pub validate_anchor_state : AnchorState → Result ReviewError (Unit {0})
validate_anchor_state (anchor_other s) = err invalid_state
validate_anchor_state _ = ok tt

pub record RelocationMetadata : Type 0 where
  pub previous_path : RepoPath
  pub previous_start_line : ℤ
  pub previous_end_line : ℤ
  pub reason : Bytes
  pub reconciled_at : Time

pub record CodeAnchor : Type 0 where
  pub path : RepoPath
  pub previous_path : RepoPath
  pub side : DiffSide
  pub start_line : ℤ
  pub end_line : ℤ
  pub target_generation : ℕ
  pub base : SnapshotRef
  pub head : SnapshotRef
  pub hunk_fingerprint : Bytes
  pub selection_hash : Bytes
  pub selected_text : Bytes
  pub before_context_hash : Bytes
  pub after_context_hash : Bytes
  pub fingerprint_version : ℕ
  pub state : AnchorState
  pub created_at : Time
  pub relocation : Option RelocationMetadata

abbrev pub anchor_fingerprint_version : ℕ
anchor_fingerprint_version = 1

abbrev known_side : DiffSide → Bool
known_side (side_other s) = false
known_side _ = true

-- `RelocationMetadata.validate`.
unfoldable pub validate_relocation : RelocationMetadata → Result ReviewError (Unit {0})
validate_relocation r =
    fail_if
      (fails (validate_repo_path r.previous_path)
        || leb_ℤ r.previous_start_line (pos 0)
        || ltb_ℤ r.previous_end_line r.previous_start_line
        || not (valid_metadata r.reason)
        || is_zero r.reconciled_at)
      invalid_code_anchor

-- `CodeAnchor.Validate`; every error wraps `ErrInvalidCodeAnchor`.
unfoldable pub validate_anchor : CodeAnchor → Result ReviewError (Unit {0})
validate_anchor a = do
  fail_if
      (fails (validate_repo_path a.path)
        || not (is_empty a.previous_path) && fails (validate_repo_path a.previous_path))
      invalid_code_anchor
  fail_if (not (known_side a.side)) invalid_code_anchor
  fail_if (leb_ℤ a.start_line (pos 0) || ltb_ℤ a.end_line a.start_line || a.target_generation == 0)
      invalid_code_anchor
  fail_if (fails (validate_snapshot_ref a.base)) invalid_code_anchor
  fail_if (fails (validate_snapshot_ref a.head)) invalid_code_anchor
  fail_if
      (not (a.fingerprint_version == 0) && not (a.fingerprint_version == anchor_fingerprint_version)
        || not (valid_metadata a.hunk_fingerprint)
        || not (valid_metadata a.selection_hash)
        || not (valid_optional_metadata a.before_context_hash)
        || not (valid_optional_metadata a.after_context_hash)
        || not (valid_utf8 a.selected_text))
      invalid_code_anchor
  fail_if (present_and (λ r. fails (validate_relocation r)) a.relocation) invalid_code_anchor

-- `NewCodeAnchor`; the copies of the slices are the values themselves.
unfoldable pub new_code_anchor : CodeAnchor → Result ReviewError CodeAnchor
new_code_anchor a = validate_anchor a >> ok a
