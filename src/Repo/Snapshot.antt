-- ===== src/Repo/Snapshot.antt =====
-- internal/domain/repository/snapshot.go: references to immutable content.
use nudge.Base.{not, ◌&&◌, ◌||◌}
use nudge.Base.Bytes.{Bytes, is_empty}
use nudge.Base.Result.{Result, err, fail_if, is_ok, ◌>>◌}
use nudge.Base.Utf8.{valid_text}
use nudge.Repo.Path.{ObjectId, RepoError, invalid_snapshot_ref, new_object_id}

-- `snapshot_other s` is a string `s` that is no constant.
pub data SnapshotKind : Type 0 where
  snapshot_commit snapshot_tree snapshot_working_tree snapshot_empty : SnapshotKind
  snapshot_other : Bytes → SnapshotKind

pub record SnapshotRef : Type 0 where
  pub kind : SnapshotKind
  pub object_id : ObjectId
  pub worktree_id : Bytes
  pub fingerprint : Bytes

-- The case of a commit or a tree.
abbrev object_ref : SnapshotRef → Result RepoError (Unit {0})
object_ref r = do
  fail_if (is_empty r.object_id || not (is_empty r.worktree_id) || not (is_empty r.fingerprint))
      invalid_snapshot_ref
  fail_if (not (is_ok (new_object_id r.object_id))) invalid_snapshot_ref

abbrev empty_ref : SnapshotRef → Result RepoError (Unit {0})
empty_ref r = do
  fail_if (not (is_empty r.worktree_id) || not (is_empty r.fingerprint)) invalid_snapshot_ref
  fail_if (not (is_empty r.object_id) && not (is_ok (new_object_id r.object_id)))
      invalid_snapshot_ref

abbrev validate_kind : SnapshotKind → SnapshotRef → Result RepoError (Unit {0})
validate_kind snapshot_commit r = object_ref r
validate_kind snapshot_tree r = object_ref r
validate_kind snapshot_working_tree r =
    fail_if
      (not (is_empty r.object_id)
        || is_empty r.worktree_id
        || is_empty r.fingerprint
        || not (valid_text r.fingerprint))
      invalid_snapshot_ref
validate_kind snapshot_empty r = empty_ref r
validate_kind (snapshot_other s) r = err invalid_snapshot_ref

-- `SnapshotRef.Validate`.
unfoldable pub validate_snapshot_ref : SnapshotRef → Result RepoError (Unit {0})
validate_snapshot_ref r = validate_kind r.kind r
