-- ===== src/Operations/Handled.antt =====
-- Whatever `Handle` of internal/app/reducer.go grants evolves the map of operations.
use Prim.Native.Char.{code}
use mathlib.Core.Path.{subst}
use nudge.Base.{Bool, [], false, is_some, not, refl, true, ℕ, ◌==◌, ◌||◌, ◌∷◌, ◌≡◌}
use nudge.Base.Bytes.{Bytes, codes, is_empty}
use nudge.Base.Result.{Result, err, fail_if, fails, ok, ◌>>=◌, ◌>>◌}
use nudge.Operations.{
  OperationKind, OperationState, Operations, cancelled, failed, find_operation,
  open_repository_kind, refresh_target_kind, select_file_kind, select_target_kind, succeeded,
}
use nudge.Operations.Evolves.{
  Evolves, added_finished, cancel-Evolves, finish-Evolves, new_operation-fresh, start-Evolves,
  stopped,
}
use nudge.Operations.Handle.{
  accept_result, cancel_operation_at, generation_of, handle, handle_command, handle_result,
  shut_down,
}
use nudge.Operations.Reducer.{
  Clock, Command, Handled, Input, LoadResult, Reducer, ReducerError, Response, cancel_operation,
  command, commit, invalid_reducer_input, new_operation, open_repository, operation_cancelled,
  operation_failed, proposal_command, reducer_closed, refresh_target, repository_loaded,
  repository_not_loaded, result, safe_text, select_file, select_target, shutdown, start_operation,
  target_loaded, target_not_loaded,
}
use nudge.Repo.Path.{validate_repo_path}

-- A result that is granted evolves the map.
abbrev pub IsEvolved : Clock → Operations → Handled → Type 0
IsEvolved clock ops (ok (r, response)) = Evolves clock ops r.operations
IsEvolved clock ops (err e) = Unit

granted :
    (clock : Clock) (ops : Operations) (h : Handled)
    → ((out : Reducer × Response) → h ≡ ok out → Evolves clock ops out.0.operations)
    → IsEvolved clock ops h
granted clock ops (ok out) f = f out refl
granted clock ops (err e) f = tt

behind_guard :
    (clock : Clock) (ops : Operations) (t : Bool) (e : ReducerError) (h : Handled)
    → IsEvolved clock ops h
    → IsEvolved clock ops (fail_if t e >> h)
behind_guard clock ops true e h k = tt
behind_guard clock ops false e h k = k

behind_step :
    (clock : Clock) (ops : Operations) (step : Result ReducerError OperationState)
    (next : OperationState → Handled)
    → ((o : OperationState) → step ≡ ok o → IsEvolved clock ops (next o))
    → IsEvolved clock ops (step >>= next)
behind_step clock ops (ok o) next f = f o refl
behind_step clock ops (err e) next f = tt

start-IsEvolved :
    (r : Reducer) (clock : Clock) (id : Bytes) (kind : OperationKind) (correlation : Bytes)
    (generation : ℕ) (may_cancel : Bool)
    → IsEvolved clock r.operations
        (start_operation r clock id kind correlation generation may_cancel)
start-IsEvolved r clock id kind correlation generation may_cancel =
    granted clock r.operations (start_operation r clock id kind correlation generation may_cancel)
      (λ out h. start-Evolves r clock id kind correlation generation may_cancel h)

command-IsEvolved :
    (r : Reducer) (clock : Clock) (id : Bytes) (c : Command)
    → IsEvolved clock r.operations (handle_command r clock id c)
unfolding handle_command shut_down commit
command-IsEvolved r clock id (open_repository path correlation) =
    behind_guard clock r.operations (not (safe_text path)) invalid_reducer_input _
      (start-IsEvolved r clock id open_repository_kind correlation 0 true)
command-IsEvolved r clock id (select_target accepted correlation) =
    behind_guard clock r.operations (not r.has_repository) repository_not_loaded _ (
      behind_guard clock r.operations (not accepted) invalid_reducer_input _
        (start-IsEvolved r clock id select_target_kind correlation (generation_of r.target) true))
command-IsEvolved r clock id (refresh_target correlation) =
    behind_guard clock r.operations (not r.has_repository) repository_not_loaded _ (
      behind_guard clock r.operations (not (is_some r.target)) target_not_loaded _
        (start-IsEvolved r clock id refresh_target_kind correlation (generation_of r.target) true))
command-IsEvolved r clock id (select_file path correlation) =
    behind_guard clock r.operations (not r.has_repository) repository_not_loaded _ (
      behind_guard clock r.operations (not (is_some r.target)) target_not_loaded _ (
        behind_guard clock r.operations (fails (validate_repo_path path)) invalid_reducer_input _ (
          behind_step clock r.operations
            (new_operation r clock id select_file_kind correlation (generation_of r.target) false) _
            (λ o e. added_finished o (
              new_operation-fresh r clock id select_file_kind correlation (generation_of r.target)
                false e)))))
command-IsEvolved r clock id (cancel_operation target correlation) =
    granted clock r.operations (cancel_operation_at r clock (find_operation target r.operations))
      (λ out h. cancel-Evolves r clock target (find_operation target r.operations) refl h)
command-IsEvolved r clock id (proposal_command kind generation may_cancel accepted correlation) =
    behind_guard clock r.operations (not accepted) invalid_reducer_input _
      (start-IsEvolved r clock id kind correlation generation may_cancel)
command-IsEvolved r clock id shutdown = stopped

result-IsEvolved :
    (r : Reducer) (clock : Clock) (x : LoadResult)
    → IsEvolved clock r.operations (handle_result r clock x)
unfolding handle_result commit
result-IsEvolved r clock (repository_loaded m valid) =
    behind_guard clock r.operations (not valid) invalid_reducer_input _ (
      behind_step clock r.operations (accept_result r m (open_repository_kind ∷ [])) _
        (λ o e. finish-Evolves r clock m (open_repository_kind ∷ []) succeeded [] [] refl e))
result-IsEvolved r clock (target_loaded m generation valid) =
    behind_guard clock r.operations
      (m.target_generation == 0 || not (generation == m.target_generation)) invalid_reducer_input _
      (behind_guard clock r.operations (not valid) invalid_reducer_input _ (
        behind_step clock r.operations
          (accept_result r m (select_target_kind ∷ (refresh_target_kind ∷ []))) _
          (λ o e.
            finish-Evolves r clock m (select_target_kind ∷ (refresh_target_kind ∷ [])) succeeded []
              [] refl e)))
result-IsEvolved r clock (operation_failed m code message) =
    behind_guard clock r.operations (is_empty code || not (safe_text message)) invalid_reducer_input
      _
      (behind_step clock r.operations (accept_result r m []) _
        (λ o e. finish-Evolves r clock m [] failed code message refl e))
result-IsEvolved r clock (operation_cancelled m reason) =
    behind_guard clock r.operations (not (safe_text reason)) invalid_reducer_input _ (
      behind_step clock r.operations (accept_result r m []) _
        (λ o e. finish-Evolves r clock m [] cancelled (codes "cancelled") reason refl e))

handle-IsEvolved :
    (r : Reducer) (clock : Clock) (id : Bytes) (input : Input)
    → IsEvolved clock r.operations (handle r clock id input)
unfolding handle
handle-IsEvolved r clock id (command c) =
    behind_guard clock r.operations r.closed reducer_closed _ (command-IsEvolved r clock id c)
handle-IsEvolved r clock id (result x) =
    behind_guard clock r.operations r.closed reducer_closed _ (result-IsEvolved r clock x)

pub handle-Evolves :
    (r : Reducer) (clock : Clock) (id : Bytes) (input : Input) {out : Reducer × Response}
    → handle r clock id input ≡ ok out
    → Evolves clock r.operations out.0.operations
handle-Evolves r clock id input h =
    subst (IsEvolved clock r.operations) h (handle-IsEvolved r clock id input)
