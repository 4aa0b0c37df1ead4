-- ===== src/Review/Workspace/Transition.antt =====
-- What `ProposalWorkspace.Transition` of internal/domain/review/proposal_state.go grants.
use mathlib.Core.Path.{subst}
use nudge.Base.{Bool, List, [], ap, arith, false, not, refl, true, ◌&&◌, ◌||◌, ◌∙◌, ◌∷◌, ◌≡◌}
use nudge.Base.Bytes.{Bytes, is_empty}
use nudge.Base.Result.{Result, err, fail_if-eq-ok, fails, is_ok, is_ok-unit, ok}
use nudge.Base.Utf8.{valid_utf8}
use nudge.Review.States.{
  WorkspaceState, validate_workspace_state, workspace_can_transition_to, workspace_creating,
  workspace_state_eq,
}
use nudge.Review.States.Runs.{Runs, Runs-append, stay, then_to}
use nudge.Review.Values.{ReviewError}
use nudge.Review.Workspace.{
  ProposalWorkspace, WorkspaceRoots, transition, validate_roots, validate_workspace,
}

-- All four roots are there, and are texts.
abbrev pub has_root : Bytes → Bool
has_root value = not (is_empty value) && valid_utf8 value

abbrev pub has_roots : WorkspaceRoots → Bool
has_roots r = has_root r.baseline && has_root r.admin && has_root r.result && has_root r.destination

abbrev pub is_creating : ProposalWorkspace → Bool
is_creating w = workspace_state_eq w.state workspace_creating

-- The workspace after some states are asked for. A transition that is refused leaves it as it is.
abbrev pub moved_or : ProposalWorkspace → Result ReviewError ProposalWorkspace → ProposalWorkspace
moved_or w (ok w') = w'
moved_or w (err e) = w

unfoldable pub transitions : List WorkspaceState → ProposalWorkspace → ProposalWorkspace
transitions [] w = w
transitions (next ∷ states) w = transitions states (moved_or w (transition w next))

-- What transitions from a workspace make of it.
pub record IsMovedOn (w w' : ProposalWorkspace) : Type 0 where
  pub kept : w' ≡ record w { state = w'.state }
  pub run : Runs workspace_can_transition_to w.state w'.state
  pub checked : is_ok (validate_workspace w') ≡ is_creating w' || has_roots w.roots

roots-required : (r : WorkspaceRoots) → is_ok (validate_roots r true) ≡ has_roots r
unfolding validate_roots
roots-required r = ground arith

roots-optional : (r : WorkspaceRoots) → has_roots r ≡ true → is_ok (validate_roots r false) ≡ true
unfolding validate_roots
roots-optional r h = ground arith

roots-by_state :
    (r : WorkspaceRoots) (creating : Bool)
    → is_ok (validate_roots r (not creating))
      ≡ (creating && is_ok (validate_roots r false)) || (not creating && has_roots r)
roots-by_state r true = ground arith
roots-by_state r false = roots-required r

-- The roots of a valid workspace are texts, where there are any.
roots-texts :
    (w : ProposalWorkspace)
    → validate_workspace w ≡ ok tt
    → is_ok (validate_roots w.roots false) ≡ true
unfolding validate_workspace
roots-texts w v =
    let e = roots-by_state w.roots (is_creating w) in ground (arith, v, e, roots-optional w.roots)

validate_workspace-state :
    (w : ProposalWorkspace) (next : WorkspaceState)
    → validate_workspace w ≡ ok tt
    → is_ok (validate_workspace_state next) ≡ true
    → is_ok (validate_workspace (record w { state = next }))
      ≡ workspace_state_eq next workspace_creating || has_roots w.roots
unfolding validate_workspace
validate_workspace-state w next v n =
    let e = roots-by_state w.roots (workspace_state_eq next workspace_creating) in
    let t = roots-texts w v in ground (arith, v, n, e, t)

-- What a granted transition has checked.
transition-granted :
    (w w' : ProposalWorkspace) (next : WorkspaceState)
    → transition w next ≡ ok w'
    → (validate_workspace w ≡ ok tt)
      × (is_ok (validate_workspace_state next) ≡ true)
      × (workspace_can_transition_to w.state next ≡ true)
      × (record w { state = next } ≡ w')
unfolding transition
transition-granted w w' next e =
    let (h, k) =
      fail_if-eq-ok
        (fails (validate_workspace w)
          || fails (validate_workspace_state next)
          || not (workspace_can_transition_to w.state next))
        _ e in
    (is_ok-unit (validate_workspace w) (ground arith), ground arith, ground arith, k)

transition-IsMovedOn :
    (w w' : ProposalWorkspace) (next : WorkspaceState) → transition w next ≡ ok w' → IsMovedOn w w'
transition-IsMovedOn w w' next e =
    let (v, n, c, k) = transition-granted w w' next e in
    subst (IsMovedOn w) k (record {
      kept = refl;
      run = then_to next stay c;
      checked = validate_workspace-state w next v n;
    })

-- Two stretches, one after the other.
IsMovedOn-trans : (w x y : ProposalWorkspace) → IsMovedOn w x → IsMovedOn x y → IsMovedOn w y
IsMovedOn-trans w x y a b =
    let roots : x.roots ≡ w.roots = ap (λ z. z.roots) a.kept in
    record {
      kept = b.kept ∙ ap {A = ProposalWorkspace} (λ z. record z { state = y.state }) a.kept;
      run = Runs-append workspace_can_transition_to a.run b.run;
      checked = b.checked ∙ ap (λ r. is_creating y || has_roots r) roots;
    }

valid-IsMovedOn : (w : ProposalWorkspace) → validate_workspace w ≡ ok tt → IsMovedOn w w
unfolding validate_workspace
valid-IsMovedOn w v = record {
  kept = refl;
  run = stay;
  checked = validate_workspace-state w w.state v (ground (arith, v));
}

moved_or-IsMovedOn :
    (w x : ProposalWorkspace) (next : WorkspaceState) (r : Result ReviewError ProposalWorkspace)
    → transition x next ≡ r
    → IsMovedOn w x
    → IsMovedOn w (moved_or x r)
moved_or-IsMovedOn w x next (ok x') e m =
    IsMovedOn-trans w x x' m (transition-IsMovedOn x x' next e)
moved_or-IsMovedOn w x next (err k) e m = m

transitions-from :
    (w x : ProposalWorkspace) (states : List WorkspaceState)
    → IsMovedOn w x
    → IsMovedOn w (transitions states x)
unfolding transitions
transitions-from w x [] m = m
transitions-from w x (next ∷ states) m =
    transitions-from w (moved_or x (transition x next)) states
      (moved_or-IsMovedOn w x next (transition x next) refl m)

-- Whatever states are asked for, one after the other, of a valid workspace: it differs in nothing
-- but its state, which a run of allowed changes leads to, and it is valid exactly when it is still
-- being created or all four of its roots are there and are texts.
pub transitions-IsMovedOn :
    (w : ProposalWorkspace) (states : List WorkspaceState)
    → validate_workspace w ≡ ok tt
    → IsMovedOn w (transitions states w)
transitions-IsMovedOn w states v = transitions-from w w states (valid-IsMovedOn w v)
