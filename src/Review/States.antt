-- ===== src/Review/States.antt =====
-- internal/domain/review/proposal_state.go: the states of workspaces, proposal versions, attempts and
-- results, and the changes that each allows. `…_other s` is a string `s` that is no constant.
pub mod Runs
use nudge.Base.{Bool, false, if◌then◌else◌, not, true, ◌&&◌, ◌||◌}
use nudge.Base.Bytes.{Bytes, bytes_eq}
use nudge.Base.Result.{Result, err, ok}
use nudge.Review.Values.{ReviewError, invalid_state}

pub data WorkspaceState : Type 0 where
  workspace_creating workspace_ready workspace_turn_running workspace_result_ready : WorkspaceState
  workspace_resetting workspace_repair_required workspace_removed : WorkspaceState
  workspace_other : Bytes → WorkspaceState

abbrev pub workspace_state_eq : WorkspaceState → WorkspaceState → Bool
workspace_state_eq workspace_creating workspace_creating = true
workspace_state_eq workspace_ready workspace_ready = true
workspace_state_eq workspace_turn_running workspace_turn_running = true
workspace_state_eq workspace_result_ready workspace_result_ready = true
workspace_state_eq workspace_resetting workspace_resetting = true
workspace_state_eq workspace_repair_required workspace_repair_required = true
workspace_state_eq workspace_removed workspace_removed = true
workspace_state_eq (workspace_other s) (workspace_other t) = bytes_eq s t
workspace_state_eq _ _ = false

-- `WorkspaceState.Validate`.
abbrev pub validate_workspace_state : WorkspaceState → Result ReviewError (Unit {0})
validate_workspace_state (workspace_other s) = err invalid_state
validate_workspace_state _ = ok tt

-- The `switch` of `WorkspaceState.CanTransitionTo`.
unfoldable pub workspace_moves : WorkspaceState → WorkspaceState → Bool
workspace_moves workspace_creating next =
    workspace_state_eq next workspace_ready
    || workspace_state_eq next workspace_repair_required
    || workspace_state_eq next workspace_removed
workspace_moves workspace_ready next =
    workspace_state_eq next workspace_turn_running
    || workspace_state_eq next workspace_resetting
    || workspace_state_eq next workspace_repair_required
    || workspace_state_eq next workspace_removed
workspace_moves workspace_turn_running next =
    workspace_state_eq next workspace_result_ready
    || workspace_state_eq next workspace_resetting
    || workspace_state_eq next workspace_repair_required
workspace_moves workspace_result_ready next =
    workspace_state_eq next workspace_ready
    || workspace_state_eq next workspace_resetting
    || workspace_state_eq next workspace_repair_required
workspace_moves workspace_resetting next =
    workspace_state_eq next workspace_ready
    || workspace_state_eq next workspace_repair_required
    || workspace_state_eq next workspace_removed
workspace_moves workspace_repair_required next =
    workspace_state_eq next workspace_resetting || workspace_state_eq next workspace_removed
workspace_moves workspace_removed next = false
workspace_moves (workspace_other s) next = false

-- `WorkspaceState.CanTransitionTo`.
unfoldable pub workspace_can_transition_to : WorkspaceState → WorkspaceState → Bool
workspace_can_transition_to s next =
    if workspace_state_eq s next
    then not (workspace_state_eq s workspace_removed)
    else workspace_moves s next

pub data ProposalStatus : Type 0 where
  version_deriving version_ready version_stale version_rejected : ProposalStatus
  version_applying version_applied version_failed : ProposalStatus
  version_other : Bytes → ProposalStatus

abbrev pub proposal_status_eq : ProposalStatus → ProposalStatus → Bool
proposal_status_eq version_deriving version_deriving = true
proposal_status_eq version_ready version_ready = true
proposal_status_eq version_stale version_stale = true
proposal_status_eq version_rejected version_rejected = true
proposal_status_eq version_applying version_applying = true
proposal_status_eq version_applied version_applied = true
proposal_status_eq version_failed version_failed = true
proposal_status_eq (version_other s) (version_other t) = bytes_eq s t
proposal_status_eq _ _ = false

-- `ProposalStatus.Validate`.
abbrev pub validate_proposal_status : ProposalStatus → Result ReviewError (Unit {0})
validate_proposal_status (version_other s) = err invalid_state
validate_proposal_status _ = ok tt

-- The `switch` of `ProposalStatus.CanTransitionTo`.
unfoldable pub proposal_moves : ProposalStatus → ProposalStatus → Bool
proposal_moves version_deriving next =
    proposal_status_eq next version_ready
    || proposal_status_eq next version_stale
    || proposal_status_eq next version_rejected
    || proposal_status_eq next version_failed
proposal_moves version_ready next =
    proposal_status_eq next version_stale
    || proposal_status_eq next version_rejected
    || proposal_status_eq next version_applying
proposal_moves version_stale next = proposal_status_eq next version_rejected
proposal_moves version_applying next =
    proposal_status_eq next version_applied
    || proposal_status_eq next version_failed
    || proposal_status_eq next version_stale
proposal_moves version_failed next = proposal_status_eq next version_deriving
proposal_moves version_rejected next = false
proposal_moves version_applied next = false
proposal_moves (version_other s) next = false

-- `ProposalStatus.CanTransitionTo`.
unfoldable pub proposal_can_transition_to : ProposalStatus → ProposalStatus → Bool
proposal_can_transition_to s next =
    if proposal_status_eq s next
    then proposal_status_eq s version_deriving || proposal_status_eq s version_failed
    else proposal_moves s next

pub data ProposalAttemptOutcome : Type 0 where
  attempt_deriving attempt_version_published attempt_no_changes_resetting : ProposalAttemptOutcome
  attempt_no_changes attempt_failed : ProposalAttemptOutcome
  attempt_other : Bytes → ProposalAttemptOutcome

abbrev pub attempt_outcome_eq : ProposalAttemptOutcome → ProposalAttemptOutcome → Bool
attempt_outcome_eq attempt_deriving attempt_deriving = true
attempt_outcome_eq attempt_version_published attempt_version_published = true
attempt_outcome_eq attempt_no_changes_resetting attempt_no_changes_resetting = true
attempt_outcome_eq attempt_no_changes attempt_no_changes = true
attempt_outcome_eq attempt_failed attempt_failed = true
attempt_outcome_eq (attempt_other s) (attempt_other t) = bytes_eq s t
attempt_outcome_eq _ _ = false

-- `ProposalAttemptOutcome.Validate`.
abbrev pub validate_attempt_outcome : ProposalAttemptOutcome → Result ReviewError (Unit {0})
validate_attempt_outcome (attempt_other s) = err invalid_state
validate_attempt_outcome _ = ok tt

-- The `switch` of `ProposalAttemptOutcome.CanTransitionTo`.
unfoldable pub attempt_moves : ProposalAttemptOutcome → ProposalAttemptOutcome → Bool
attempt_moves attempt_deriving next =
    attempt_outcome_eq next attempt_version_published
    || attempt_outcome_eq next attempt_no_changes_resetting
    || attempt_outcome_eq next attempt_failed
attempt_moves attempt_no_changes_resetting next =
    attempt_outcome_eq next attempt_no_changes || attempt_outcome_eq next attempt_failed
attempt_moves attempt_version_published next = false
attempt_moves attempt_no_changes next = false
attempt_moves attempt_failed next = false
attempt_moves (attempt_other s) next = false

-- `ProposalAttemptOutcome.CanTransitionTo`.
unfoldable pub attempt_can_transition_to : ProposalAttemptOutcome → ProposalAttemptOutcome → Bool
attempt_can_transition_to o next =
    if attempt_outcome_eq o next
    then attempt_outcome_eq o attempt_deriving || attempt_outcome_eq o attempt_no_changes_resetting
    else attempt_moves o next

pub data ProposalResultDisposition : Type 0 where
  result_none result_present result_discarding result_discarded : ProposalResultDisposition
  result_other : Bytes → ProposalResultDisposition

abbrev pub disposition_eq : ProposalResultDisposition → ProposalResultDisposition → Bool
disposition_eq result_none result_none = true
disposition_eq result_present result_present = true
disposition_eq result_discarding result_discarding = true
disposition_eq result_discarded result_discarded = true
disposition_eq (result_other s) (result_other t) = bytes_eq s t
disposition_eq _ _ = false

-- `ProposalResultDisposition.Validate`.
abbrev pub validate_disposition : ProposalResultDisposition → Result ReviewError (Unit {0})
validate_disposition (result_other s) = err invalid_state
validate_disposition _ = ok tt

-- `ProposalResultDisposition.CanTransitionTo`.
unfoldable pub disposition_can_transition_to :
    ProposalResultDisposition → ProposalResultDisposition → Bool
disposition_can_transition_to d next =
    if disposition_eq d next
    then disposition_eq d result_discarding || disposition_eq d result_discarded
    else disposition_eq d result_present && disposition_eq next result_discarding
      || disposition_eq d result_discarding && disposition_eq next result_discarded
