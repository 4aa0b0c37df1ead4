-- ===== src/Operations/Handle.antt =====
-- internal/app/reducer.go: `Handle`.
use Prim.Native.Char.{code}
use nudge.Base.{
  Bool, List, Option, [], any, false, if◌then◌else◌, is_nil, is_some, ltb, none, not, some, true, ℕ,
  ◌&&◌, ◌++◌, ◌==◌, ◌||◌, ◌∷◌,
}
use nudge.Base.Bytes.{Bytes, bytes_eq, codes, is_empty}
use nudge.Base.Result.{Result, err, fail_if, fails, ok, ◌>>=◌, ◌>>◌}
use nudge.Operations.{
  OperationKind, OperationState, OperationStatus, Operations, active, cancelled, failed,
  find_operation, ids_where, kind_eq, open_repository_kind, refresh_target_kind, select_file_kind,
  select_target_kind, sort_ids, store_operation, succeeded,
}
use nudge.Operations.Reducer.{
  Clock, Command, Handled, Input, LoadResult, Reducer, ReducerError, Response, ResultMetadata,
  application_closed, cancel_all, cancel_events, cancel_operation, command, commit, completed,
  discarded, file_selected, finish, invalid_reducer_input, loaded, metadata, new_operation,
  open_repository, operation_cancelled, operation_failed, operation_not_cancellable,
  operation_not_found, proposal_command, reducer_closed, refresh_target, repository_loaded,
  repository_not_loaded, result, safe_text, select_file, select_target, shutdown, start_operation,
  superseded, target_loaded, target_not_loaded, with_operations,
}
use nudge.Repo.Path.{validate_repo_path}

-- `targetGeneration`.
abbrev pub generation_of : Option ℕ → ℕ
generation_of none = 0
generation_of (some g) = g

-- `SelectFile` once its operation is made: it is finished at once.
abbrev pub selected_with : Clock → Reducer → Bytes → OperationState → Reducer × Response
selected_with clock r path o =
    let done = finish clock o succeeded [] [] in
    commit
      (record r { active_file = some path; operations = store_operation o.id done r.operations })
      o.id (file_selected (metadata o) path ∷ (completed (metadata o) select_file_kind ∷ []))

-- `cancelOperation`, by the operation that is found.
unfoldable pub cancel_operation_at : Reducer → Clock → Option OperationState → Handled
cancel_operation_at r clock none = err operation_not_found
cancel_operation_at r clock (some o) =
    if not (active o)
    then ok (r, record { operation_id = o.id; changed = false; revision = r.revision; events = [] })
    else if not o.cancellable
    then err operation_not_cancellable
    else (let text = codes "operation cancelled" in
        ok (
          commit
            (with_operations r (
              store_operation o.id (finish clock o cancelled (codes "cancelled") text)
                r.operations))
            o.id (superseded (metadata o) text ∷ [])))

abbrev pub shutdown_text : Bytes
shutdown_text = codes "application shutdown"

abbrev pub active_ids : Operations → List Bytes
active_ids ops = sort_ids (ids_where active ops ops)

-- `shutdown`.
unfoldable pub shut_down : Reducer → Clock → Reducer × Response
shut_down r clock =
    let ids = active_ids r.operations in
    commit
      (record r { closed = true; operations = cancel_all clock shutdown_text ids r.operations }) []
      (cancel_events shutdown_text ids r.operations ++ application_closed ∷ [])

-- `handleCommand`, with the id that the source of ids gives next.
unfoldable pub handle_command : Reducer → Clock → Bytes → Command → Handled
handle_command r clock id (open_repository path correlation_id) =
    fail_if (not (safe_text path)) invalid_reducer_input
    >> start_operation r clock id open_repository_kind correlation_id 0 true
handle_command r clock id (select_target accepted correlation_id) =
    fail_if (not r.has_repository) repository_not_loaded
    >> (fail_if (not accepted) invalid_reducer_input
        >> start_operation r clock id select_target_kind correlation_id (generation_of r.target)
            true)
handle_command r clock id (refresh_target correlation_id) =
    fail_if (not r.has_repository) repository_not_loaded
    >> (fail_if (not (is_some r.target)) target_not_loaded
        >> start_operation r clock id refresh_target_kind correlation_id (generation_of r.target)
            true)
handle_command r clock id (select_file path correlation_id) =
    fail_if (not r.has_repository) repository_not_loaded
    >> (fail_if (not (is_some r.target)) target_not_loaded
        >> (fail_if (fails (validate_repo_path path)) invalid_reducer_input
            >> (new_operation r clock id select_file_kind correlation_id (generation_of r.target)
                  false
                >>= λ o. ok (selected_with clock r path o))))
handle_command r clock id (cancel_operation target correlation_id) =
    cancel_operation_at r clock (find_operation target r.operations)
handle_command r clock id (proposal_command kind generation may_cancel accepted correlation_id) =
    fail_if (not accepted) invalid_reducer_input
    >> start_operation r clock id kind correlation_id generation may_cancel
handle_command r clock id shutdown = ok (shut_down r clock)

-- `acceptResult`, by the operation that is found; no allowed kinds is every kind.
abbrev pub kind_allowed : List OperationKind → OperationKind → Bool
kind_allowed kinds kind = is_nil kinds || any (λ k. kind_eq kind k) kinds

-- The generation of the target is newer than the result's.
abbrev pub is_behind : ℕ → Option ℕ → Bool
is_behind generation none = false
is_behind generation (some current) = not (generation == 0) && ltb generation current

unfoldable pub accept_at :
    Reducer
    → ResultMetadata
    → List OperationKind
    → Option OperationState
    → Result ReducerError OperationState
accept_at r m kinds none = err discarded
accept_at r m kinds (some o) = do
  fail_if (not (active o) || not (bytes_eq o.correlation_id m.correlation_id)) discarded
  fail_if (not (kind_allowed kinds o.kind)) discarded
  fail_if (not (o.target_generation == 0) && ltb m.target_generation o.target_generation) discarded
  fail_if (is_behind m.target_generation r.target) discarded
  ok o

unfoldable pub accept_result :
    Reducer → ResultMetadata → List OperationKind → Result ReducerError OperationState
accept_result r m kinds =
    fail_if (is_empty m.operation_id || not (safe_text m.correlation_id)) discarded
    >> accept_at r m kinds (find_operation m.operation_id r.operations)

-- The reducer with an operation finished, under its id.
abbrev pub finished_with :
    Clock → Reducer → OperationState → OperationStatus → Bytes → Bytes → Reducer
finished_with clock r o status code message =
    with_operations r (store_operation o.id (finish clock o status code message) r.operations)

-- `handleResult`.
unfoldable pub handle_result : Reducer → Clock → LoadResult → Handled
handle_result r clock (repository_loaded m valid) = do
  fail_if (not valid) invalid_reducer_input
  o ← accept_result r m (open_repository_kind ∷ [])
  ok (
      commit
        (record (finished_with clock r o succeeded [] []) {
          has_repository = true;
          target = none;
          active_file = none;
        })
        o.id (loaded (repository_loaded m valid) ∷ (completed (metadata o) o.kind ∷ [])))
handle_result r clock (target_loaded m generation valid) = do
  fail_if (m.target_generation == 0 || not (generation == m.target_generation))
      invalid_reducer_input
  fail_if (not valid) invalid_reducer_input
  o ← accept_result r m (select_target_kind ∷ (refresh_target_kind ∷ []))
  ok (
      commit
        (record (finished_with clock r o succeeded [] []) {
          target = some generation;
          active_file = none;
        })
        o.id
        (loaded (target_loaded m generation valid)
          ∷ (completed (record (metadata o) { target_generation = m.target_generation }) o.kind
              ∷ [])))
handle_result r clock (operation_failed m code message) = do
  fail_if (is_empty code || not (safe_text message)) invalid_reducer_input
  o ← accept_result r m []
  ok (
      commit (finished_with clock r o failed code message) o.id
        (loaded (operation_failed m code message) ∷ []))
handle_result r clock (operation_cancelled m reason) = do
  fail_if (not (safe_text reason)) invalid_reducer_input
  o ← accept_result r m []
  ok (
      commit (finished_with clock r o cancelled (codes "cancelled") reason) o.id
        (loaded (operation_cancelled m reason) ∷ []))

-- `Handle`.
unfoldable pub handle : Reducer → Clock → Bytes → Input → Handled
handle r clock id (command c) = fail_if r.closed reducer_closed >> handle_command r clock id c
handle r clock id (result x) = fail_if r.closed reducer_closed >> handle_result r clock x
