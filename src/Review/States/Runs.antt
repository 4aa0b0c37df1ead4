-- ===== src/Review/States/Runs.antt =====
-- Where the lifecycles of internal/domain/review/proposal_state.go can lead.
use nudge.Base.{Bool, arith, false, inl, inr, refl, sym, true, ◌||◌, ◌≡◌, ◌≢◌, ◌⊎◌}
use nudge.Base.Result.{ok}
use nudge.Review.States.{
  ProposalAttemptOutcome, ProposalResultDisposition, ProposalStatus, WorkspaceState,
  attempt_can_transition_to, attempt_moves, attempt_no_changes, attempt_no_changes_resetting,
  disposition_can_transition_to, disposition_eq, proposal_can_transition_to, proposal_moves,
  result_discarded, result_discarding, validate_workspace_state, version_applied, version_applying,
  version_rejected, workspace_can_transition_to, workspace_creating, workspace_moves,
  workspace_other, workspace_ready, workspace_removed, workspace_repair_required,
  workspace_resetting, workspace_result_ready, workspace_turn_running,
}

-- Any number of allowed changes, one after the other.
pub data Runs {S : Type 0} (can : S → S → Bool) (s : S) : S → Type 0 where
  stay : Runs can s s
  then_to : {t : S} (u : S) → Runs can s t → can t u ≡ true → Runs can s u

-- The run is at a state somewhere: at its start, or after one of its changes.
abbrev pub Visits : {S : Type 0} {can : S → S → Bool} {s t : S} → S → Runs can s t → Type 0
Visits {s = s} v stay = v ≡ s
Visits v (then_to u r h) = (v ≡ u) ⊎ Visits v r

-- A run is at its end.
Visits-end :
    {S : Type 0} (can : S → S → Bool) {s t : S} (v : S) (r : Runs can s t) → v ≡ t → Visits v r
Visits-end can v stay e = e
Visits-end can v (then_to u r h) e = inl e

-- A state that is entered from one state only is reached by no run that does not visit that one.
entered_through :
    {S : Type 0} (can : S → S → Bool) (goal gate : S)
    → ((t u : S) → u ≡ goal → can t u ≡ true → t ≡ gate)
    → {s u : S} → u ≡ goal
    → (r : Runs can s u) → (s ≡ goal) ⊎ Visits gate r
entered_through can goal gate only e stay = inl e
entered_through can goal gate only e (then_to {t} u r h) =
    inr (inr (Visits-end can gate r (sym (only t u e h))))

pub Runs-append :
    {S : Type 0} (can : S → S → Bool) {s t u : S} → Runs can s t → Runs can t u → Runs can s u
Runs-append can r stay = r
Runs-append can r (then_to v q h) = then_to v (Runs-append can r q) h

-- What each change keeps, a run keeps.
pub Runs-keep :
    {S : Type 0} (can : S → S → Bool) (Kept : S → Type 0)
    → ((t u : S) → Kept t → can t u ≡ true → Kept u)
    → {s t : S} → Kept s
    → Runs can s t
    → Kept t
Runs-keep can Kept keep k stay = k
Runs-keep can Kept keep k (then_to u r h) = keep _ u (Runs-keep can Kept keep k r) h

removed_stays :
    (t u : WorkspaceState)
    → t ≡ workspace_removed
    → workspace_can_transition_to t u ≡ true
    → u ≡ workspace_removed
unfolding workspace_can_transition_to workspace_moves
removed_stays t u e h = ground arith

-- A removed workspace stays removed, whatever changes are made.
pub removed-final :
    (t : WorkspaceState)
    → Runs workspace_can_transition_to workspace_removed t
    → t ≡ workspace_removed
removed-final t r = Runs-keep _ (λ x. x ≡ workspace_removed) removed_stays refl r

valid_workspace_stays :
    (t u : WorkspaceState)
    → validate_workspace_state t ≡ ok tt
    → workspace_can_transition_to t u ≡ true
    → validate_workspace_state u ≡ ok tt
unfolding workspace_can_transition_to workspace_moves
valid_workspace_stays t u v h = ground arith

removable :
    (t : WorkspaceState)
    → validate_workspace_state t ≡ ok tt
    → Runs workspace_can_transition_to t workspace_removed
unfolding workspace_can_transition_to workspace_moves
removable workspace_creating v = then_to workspace_removed stay refl
removable workspace_ready v = then_to workspace_removed stay refl
removable workspace_turn_running v =
    then_to workspace_removed (then_to workspace_resetting stay refl) refl
removable workspace_result_ready v =
    then_to workspace_removed (then_to workspace_resetting stay refl) refl
removable workspace_resetting v = then_to workspace_removed stay refl
removable workspace_repair_required v = then_to workspace_removed stay refl
removable workspace_removed v = stay
removable (workspace_other s) v = absurd (cc v)

-- Wherever changes have led a workspace from a state of the lifecycle, it can still be removed.
pub workspace-removable :
    (s t : WorkspaceState)
    → validate_workspace_state s ≡ ok tt
    → Runs workspace_can_transition_to s t
    → Runs workspace_can_transition_to t workspace_removed
workspace-removable s t v r =
    removable t (Runs-keep _ (λ x. validate_workspace_state x ≡ ok tt) valid_workspace_stays v r)

before_applied :
    (t u : ProposalStatus)
    → u ≡ version_applied
    → proposal_can_transition_to t u ≡ true
    → t ≡ version_applying
unfolding proposal_can_transition_to proposal_moves
before_applied t u e h = ground arith

-- Every run of allowed changes, from a status that is not applied to applied, visits the state of
-- being applied, at its start or after one of its changes.
pub applied-through_applying :
    (s : ProposalStatus)
    → s ≢ version_applied
    → (r : Runs proposal_can_transition_to s version_applied) → Visits version_applying r
applied-through_applying s n r =
    elim (entered_through _ version_applied version_applying before_applied refl r) [
      | inl e ↦ absurd (n e)
      | inr q ↦ q
    ]

-- The two decisions about a version.
abbrev pub is_decided : ProposalStatus → Bool
is_decided version_rejected = true
is_decided version_applied = true
is_decided _ = false

decided_stuck :
    (s t u : ProposalStatus)
    → is_decided s ≡ true
    → t ≡ s
    → proposal_can_transition_to t u ≡ true
    → u ≡ s
unfolding proposal_can_transition_to proposal_moves
decided_stuck s t u d e h = ground arith

-- A version that was applied or rejected keeps that status for good.
pub decided-final :
    (s t : ProposalStatus) → is_decided s ≡ true → Runs proposal_can_transition_to s t → t ≡ s
decided-final s t d r = Runs-keep _ (λ x. x ≡ s) (λ t u. decided_stuck s t u d) refl r

discarding_stays :
    (t u : ProposalResultDisposition)
    → disposition_eq t result_discarding || disposition_eq t result_discarded ≡ true
    → disposition_can_transition_to t u ≡ true
    → disposition_eq u result_discarding || disposition_eq u result_discarded ≡ true
unfolding disposition_can_transition_to
discarding_stays t u d h = ground arith

-- A result that was discarded, or whose discarding has begun, is never present again.
pub discarding-final :
    (s t : ProposalResultDisposition)
    → disposition_eq s result_discarding || disposition_eq s result_discarded ≡ true
    → Runs disposition_can_transition_to s t
    → disposition_eq t result_discarding || disposition_eq t result_discarded ≡ true
discarding-final s t d r =
    Runs-keep _
      (λ x. disposition_eq x result_discarding || disposition_eq x result_discarded ≡ true)
      discarding_stays d r

before_no_changes :
    (t u : ProposalAttemptOutcome)
    → u ≡ attempt_no_changes
    → attempt_can_transition_to t u ≡ true
    → t ≡ attempt_no_changes_resetting
unfolding attempt_can_transition_to attempt_moves
before_no_changes t u e h = ground arith

-- Every run of allowed changes, from another outcome to the end without changes, visits the
-- resetting of the workspace that belongs to it, at its start or after one of its changes.
pub no_changes-through_resetting :
    (s : ProposalAttemptOutcome)
    → s ≢ attempt_no_changes
    → (r : Runs attempt_can_transition_to s attempt_no_changes)
    → Visits attempt_no_changes_resetting r
no_changes-through_resetting s n r =
    elim (entered_through _ attempt_no_changes attempt_no_changes_resetting before_no_changes refl
      r) [ inl e ↦ absurd (n e) | inr q ↦ q ]
