-- ===== src/Tests/Review.antt =====
-- Runs of the models of internal/domain/review on concrete values.
use nudge.Base.{
  All, List, [], ap, arith, false, length, none, refl, true, ℕ, ◌||◌, ◌∷◌, ◌≡◌, ◌≢◌, ◌≤◌,
}
use nudge.Base.Bytes.{Bytes, bytes_ltb, codes}
use nudge.Base.Int.{pos}
use nudge.Base.Result.{is_ok, map_result, ok}
use nudge.Base.Utf8.{valid_text, valid_utf8}
use nudge.Repo.Path.{new_object_id, validate_repo_path}
use nudge.Repo.Snapshot.{SnapshotRef, snapshot_commit, validate_snapshot_ref}
use nudge.Review.Anchor.{CodeAnchor, anchor_valid, diff_head, validate_anchor}
use nudge.Review.Intent.{ProposalIntent, paths_accepted, validate_intent}
use nudge.Review.Intent.Sorted.{
  IsExpectedPath, IsIncreasing, total_bytes, validate_intent-IsIncreasing,
}
use nudge.Review.Message.{
  Message, append_content, complete, message_streaming, role_assistant, validate_message,
}
use nudge.Review.Message.Calls.{IsAdvanced, appends, call, call-IsAdvanced}
use nudge.Review.States.{
  ProposalAttemptOutcome, ProposalStatus, WorkspaceState, attempt_can_transition_to,
  attempt_deriving, attempt_moves, attempt_no_changes, attempt_no_changes_resetting,
  disposition_can_transition_to, disposition_eq, proposal_can_transition_to, proposal_moves,
  result_discarded, result_discarding, version_applied, version_applying, version_ready,
  version_rejected, workspace_can_transition_to, workspace_creating, workspace_moves,
  workspace_ready, workspace_removed, workspace_result_ready, workspace_turn_running,
}
use nudge.Review.States.Runs.{
  Runs, Visits, applied-through_applying, decided-final, discarding-final,
  no_changes-through_resetting, stay, then_to, workspace-removable,
}
use nudge.Review.Thread.{
  ReviewThread, append_message_id, conversation_idle, messages_accepted, proposal_none,
  resolution_open, unread, validate_thread,
}
use nudge.Review.Thread.Calls.{IsChanged, appends_message, thread_call, thread_call-IsChanged}
use nudge.Review.Values.{valid_metadata, valid_optional_metadata}
use nudge.Review.Workspace.{
  GenerationProvenance, ProposalWorkspace, transition, validate_provenance, validate_roots,
  validate_workspace,
}
use nudge.Review.Workspace.Transition.{IsMovedOn, transitions, transitions-IsMovedOn}

abbrev id_a : Bytes
id_a = codes "a"

-- A message that streams some text and is completed.
abbrev streaming : Message
streaming = record {
  id = id_a;
  thread_id = codes "t";
  role = role_assistant;
  content = codes "Hel";
  provider_id = [];
  status = message_streaming;
  ordinal = 1;
  created_at = pos 10;
  updated_at = pos 12;
  completed_at = none;
  failure_phase = [];
  error_code = [];
}

abbrev continued : Message
continued = record streaming { content = codes "Hello"; updated_at = pos 15 }

call-IsAdvanced_example : IsAdvanced streaming continued (pos 15)
unfolding call append_content validate_message valid_utf8 valid_optional_metadata
call-IsAdvanced_example = call-IsAdvanced streaming continued (appends (codes "lo")) (pos 15) refl

completed_once :
    map_result (λ m. is_ok (complete m (pos 20))) (complete streaming (pos 15)) ≡ ok false
unfolding complete validate_message valid_utf8 valid_optional_metadata
completed_once = refl

abbrev commit_ref : SnapshotRef
commit_ref = record {
  kind = snapshot_commit;
  object_id = codes "abc";
  worktree_id = [];
  fingerprint = [];
}

abbrev anchor_a : CodeAnchor
anchor_a = record {
  path = codes "x.go";
  previous_path = [];
  side = diff_head;
  start_line = pos 3;
  end_line = pos 4;
  target_generation = 1;
  base = commit_ref;
  head = commit_ref;
  hunk_fingerprint = codes "h";
  selection_hash = codes "s";
  selected_text = [];
  before_context_hash = [];
  after_context_hash = [];
  fingerprint_version = 1;
  state = anchor_valid;
  created_at = pos 1;
  relocation = none;
}

abbrev thread_a : ReviewThread
thread_a = record {
  id = id_a;
  session_id = codes "s";
  anchor = anchor_a;
  title = [];
  resolution = resolution_open;
  conversation = conversation_idle;
  proposal = proposal_none;
  read_state = unread;
  provider_conversation_id = none;
  latest_proposal_id = none;
  messages = codes "m" ∷ [];
  failure_phase = [];
  error_code = [];
  created_at = pos 5;
  updated_at = pos 5;
}

abbrev thread_b : ReviewThread
thread_b = record thread_a { messages = codes "m" ∷ codes "n" ∷ []; updated_at = pos 6 }

thread_call-IsChanged_example : IsChanged thread_a thread_b (appends_message (codes "n")) (pos 6)
unfolding thread_call append_message_id validate_thread validate_anchor validate_snapshot_ref
    new_object_id valid_text valid_utf8 valid_metadata valid_optional_metadata validate_repo_path
    messages_accepted
thread_call-IsChanged_example =
    thread_call-IsChanged thread_a thread_b (appends_message (codes "n")) (pos 6) refl

workspace-removable_example :
    Runs workspace_can_transition_to workspace_turn_running workspace_removed
unfolding workspace_can_transition_to workspace_moves
workspace-removable_example =
    workspace-removable workspace_ready workspace_turn_running refl
      (then_to workspace_turn_running stay refl)

abbrev tagged : ProposalStatus → ℕ
tagged version_applied = 1
tagged _ = 0

ready_ne_applied : version_ready ≢ version_applied
ready_ne_applied e = absurd (omega (arith, ap tagged e))

abbrev applied_run : Runs proposal_can_transition_to version_ready version_applied
unfolding proposal_can_transition_to proposal_moves
applied_run = then_to version_applied (then_to version_applying stay refl) refl

applied-through_applying_example : Visits version_applying applied_run
applied-through_applying_example =
    applied-through_applying version_ready ready_ne_applied applied_run

decided-final_example : version_rejected ≡ version_rejected
decided-final_example = decided-final version_rejected version_rejected refl stay

discarding-final_example :
    disposition_eq result_discarded result_discarding
      || disposition_eq result_discarded result_discarded
    ≡ true
unfolding disposition_can_transition_to
discarding-final_example =
    discarding-final result_discarding result_discarded refl (then_to result_discarded stay refl)

abbrev outcome_tag : ProposalAttemptOutcome → ℕ
outcome_tag attempt_no_changes = 1
outcome_tag _ = 0

deriving_ne_no_changes : attempt_deriving ≢ attempt_no_changes
deriving_ne_no_changes e = absurd (omega (arith, ap outcome_tag e))

abbrev no_changes_run : Runs attempt_can_transition_to attempt_deriving attempt_no_changes
unfolding attempt_can_transition_to attempt_moves
no_changes_run = then_to attempt_no_changes (then_to attempt_no_changes_resetting stay refl) refl

no_changes-through_resetting_example : Visits attempt_no_changes_resetting no_changes_run
no_changes-through_resetting_example =
    no_changes-through_resetting attempt_deriving deriving_ne_no_changes no_changes_run

abbrev provenance_a : GenerationProvenance
provenance_a = record {
  session_id = codes "s";
  generation = 1;
  capture_id = none;
  base = commit_ref;
  head = commit_ref;
}

abbrev workspace_a : ProposalWorkspace
workspace_a = record {
  id = id_a;
  repository_id = codes "r";
  worktree_id = codes "w";
  session_id = codes "s";
  source_thread_id = codes "t";
  source_generation = provenance_a;
  roots = record {
    baseline = codes "b";
    admin = codes "d";
    result = codes "e";
    destination = codes "f";
  };
  policy_version = 1;
  state = workspace_creating;
  created_at = pos 1;
  updated_at = pos 2;
}

abbrev asked_states : List WorkspaceState
asked_states = workspace_ready ∷ workspace_result_ready ∷ workspace_turn_running ∷ []

transitions-IsMovedOn_example : IsMovedOn workspace_a (transitions asked_states workspace_a)
unfolding validate_workspace validate_provenance validate_snapshot_ref new_object_id valid_text
    valid_utf8 validate_roots
transitions-IsMovedOn_example = transitions-IsMovedOn workspace_a asked_states refl

-- The second is refused.
asked_last : (transitions asked_states workspace_a).state ≡ workspace_turn_running
unfolding transitions transition validate_workspace validate_provenance validate_snapshot_ref
    new_object_id valid_text valid_utf8 validate_roots workspace_can_transition_to workspace_moves
asked_last = refl

-- A workspace that has no result root is made ready, and is not valid then.
abbrev rootless : ProposalWorkspace
rootless = record workspace_a { roots = record workspace_a.roots { result = [] } }

rootless_ready : is_ok (validate_workspace (transitions (workspace_ready ∷ []) rootless)) ≡ false
unfolding transitions transition validate_workspace validate_provenance validate_snapshot_ref
    new_object_id valid_text valid_utf8 validate_roots workspace_can_transition_to workspace_moves
rootless_ready = refl

abbrev intent_a : ProposalIntent
intent_a = record {
  id = id_a;
  thread_id = codes "t";
  summary = codes "fix";
  expected_paths = codes "a.go" ∷ codes "b.go" ∷ [];
  anchor_version_id = 1;
  confirmed_against = provenance_a;
  confirmed_at = pos 9;
}

validate_intent-IsIncreasing_example :
    (length intent_a.expected_paths ≤ 5000)
    × All IsExpectedPath intent_a.expected_paths
    × (total_bytes intent_a.expected_paths ≤ 524288)
    × IsIncreasing intent_a.expected_paths
unfolding validate_intent paths_accepted bytes_ltb validate_provenance validate_snapshot_ref
    new_object_id valid_text valid_utf8 validate_repo_path
validate_intent-IsIncreasing_example = validate_intent-IsIncreasing intent_a refl
