-- ===== src/Review/Workspace.antt =====
-- internal/domain/review/proposal.go and proposal_state.go: the provenance of a proposal and the
-- isolated workspace that it is made in.
pub mod Transition
use nudge.Base.{Bool, Option, [], any, false, is_some, not, true, ℕ, ◌&&◌, ◌==◌, ◌||◌, ◌∷◌}
use nudge.Base.Bytes.{Bytes, bytes_eq, is_empty}
use nudge.Base.Result.{Result, fail_if, fails, ok, present_and, ◌>>=◌, ◌>>◌}
use nudge.Base.Time.{Time, before, is_zero}
use nudge.Base.Utf8.{valid_utf8}
use nudge.Repo.Snapshot.{SnapshotKind, SnapshotRef, snapshot_working_tree, validate_snapshot_ref}
use nudge.Review.States.{
  WorkspaceState, validate_workspace_state, workspace_can_transition_to, workspace_creating,
  workspace_state_eq,
}
use nudge.Review.Values.{ReviewError, invalid_proposal, invalid_proposal_transition}

pub record GenerationProvenance : Type 0 where
  pub session_id : Bytes
  pub generation : ℕ
  pub capture_id : Option Bytes
  pub base : SnapshotRef
  pub head : SnapshotRef

abbrev is_working_tree : SnapshotKind → Bool
is_working_tree snapshot_working_tree = true
is_working_tree _ = false

-- `GenerationProvenance.Validate`.
unfoldable pub validate_provenance : GenerationProvenance → Result ReviewError (Unit {0})
validate_provenance p = do
  fail_if
      (is_empty p.session_id
        || p.generation == 0
        || fails (validate_snapshot_ref p.base)
        || fails (validate_snapshot_ref p.head))
      invalid_proposal
  fail_if (present_and is_empty p.capture_id) invalid_proposal
  fail_if (is_working_tree p.head.kind && not (is_some p.capture_id)) invalid_proposal

pub record WorkspaceRoots : Type 0 where
  pub baseline : Bytes
  pub admin : Bytes
  pub result : Bytes
  pub destination : Bytes

abbrev bad_root : Bool → Bytes → Bool
bad_root required value =
    is_empty value && required || not (is_empty value) && not (valid_utf8 value)

-- `WorkspaceRoots.Validate`.
unfoldable pub validate_roots : WorkspaceRoots → Bool → Result ReviewError (Unit {0})
validate_roots r required =
    fail_if (any (bad_root required) (r.baseline ∷ r.admin ∷ r.result ∷ r.destination ∷ []))
      invalid_proposal

pub record ProposalWorkspace : Type 0 where
  pub id : Bytes
  pub repository_id : Bytes
  pub worktree_id : Bytes
  pub session_id : Bytes
  pub source_thread_id : Bytes
  pub source_generation : GenerationProvenance
  pub roots : WorkspaceRoots
  pub policy_version : ℕ
  pub state : WorkspaceState
  pub created_at : Time
  pub updated_at : Time

-- `ProposalWorkspace.Validate`.
unfoldable pub validate_workspace : ProposalWorkspace → Result ReviewError (Unit {0})
validate_workspace w = do
  fail_if
      (is_empty w.id
        || is_empty w.repository_id
        || is_empty w.worktree_id
        || is_empty w.session_id
        || is_empty w.source_thread_id
        || w.policy_version == 0
        || is_zero w.created_at
        || is_zero w.updated_at
        || before w.updated_at w.created_at)
      invalid_proposal
  fail_if
      (fails (validate_provenance w.source_generation)
        || not (bytes_eq w.source_generation.session_id w.session_id))
      invalid_proposal
  fail_if
      (fails (validate_workspace_state w.state)
        || fails (validate_roots w.roots (not (workspace_state_eq w.state workspace_creating))))
      invalid_proposal

-- `ProposalWorkspace.Transition`, from the workspace to the changed workspace.
unfoldable pub transition :
    ProposalWorkspace → WorkspaceState → Result ReviewError ProposalWorkspace
transition w next =
    fail_if
      (fails (validate_workspace w)
        || fails (validate_workspace_state next)
        || not (workspace_can_transition_to w.state next))
      invalid_proposal_transition
    >> ok (record w { state = next })
