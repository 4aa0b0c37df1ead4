-- ===== src/Operations/Reducer.antt =====
-- internal/app/reducer.go: the reducer, as far as it keeps operations: the commands that start,
-- cancel and finish them, the results that finish them, and the shutdown.
use Prim.Native.Char.{code}
use nudge.Base.{
  Bool, List, Option, [], false, if◌then◌else◌, is_some, none, not, some, true, ℕ, ◌%◌, ◌&&◌, ◌++◌,
  ◌+◌, ◌^◌, ◌∷◌,
}
use nudge.Base.Bytes.{Bytes, bytes_eq, codes, is_empty}
use nudge.Base.Int.{pos}
use nudge.Base.Result.{Result, fail_if, ok, ◌>>=◌, ◌>>◌}
use nudge.Base.Text.{all_space}
use nudge.Base.Time.{Time}
use nudge.Base.Utf8.{valid_text}
use nudge.Operations.{
  OperationKind, OperationState, OperationStatus, Operations, active, cancelled, find_operation,
  ids_where, kind_eq, operation_family, running, sort_ids, store_operation,
}

pub data ReducerError : Type 0 where
  reducer_closed repository_not_loaded target_not_loaded operation_not_found : ReducerError
  operation_not_cancellable discarded invalid_reducer_input : ReducerError
  empty_correlation_id : ReducerError

-- What the clock gives in the course of a call: when it starts an operation, and when it finishes the
-- operation with an id.
pub record Clock : Type 0 where
  pub starts : Time
  pub finishes : Bytes → Time

-- The commands. `accepted` is whether the guards on the parts of a proposal command, or the
-- validation of a target's specification, pass.
pub data Command : Type 0 where
  open_repository : (path correlation_id : Bytes) → Command
  select_target : (accepted : Bool) → (correlation_id : Bytes) → Command
  refresh_target : (correlation_id : Bytes) → Command
  select_file : (path correlation_id : Bytes) → Command
  cancel_operation : (id correlation_id : Bytes) → Command
  proposal_command :
      (kind : OperationKind)
      → (generation : ℕ) → (may_cancel accepted : Bool) → (correlation_id : Bytes) → Command
  shutdown : Command

pub record ResultMetadata : Type 0 where
  pub operation_id : Bytes
  pub correlation_id : Bytes
  pub target_generation : ℕ

-- The results; `valid` is whether the repository or the target that is loaded passes its validation.
pub data LoadResult : Type 0 where
  repository_loaded : ResultMetadata → (valid : Bool) → LoadResult
  target_loaded : ResultMetadata → (generation : ℕ) → (valid : Bool) → LoadResult
  operation_failed : ResultMetadata → (code message : Bytes) → LoadResult
  operation_cancelled : ResultMetadata → (reason : Bytes) → LoadResult

pub data Input : Type 0 where
  command : Command → Input
  result : LoadResult → Input

-- The events, without the revision, which is that of their commit.
pub data Event : Type 0 where
  started completed : ResultMetadata → OperationKind → Event
  superseded : ResultMetadata → Bytes → Event
  loaded : LoadResult → Event
  file_selected : ResultMetadata → Bytes → Event
  application_closed : Event

-- `State` and `closed`: the revision, whether a repository is loaded, the generation of the target,
-- the active file, and the operations.
pub record Reducer : Type 0 where
  pub revision : ℕ
  pub has_repository : Bool
  pub target : Option ℕ
  pub active_file : Option Bytes
  pub operations : Operations
  pub closed : Bool

pub record Response : Type 0 where
  pub operation_id : Bytes
  pub changed : Bool
  pub revision : ℕ
  pub events : List Event

abbrev pub Handled : Type 0
Handled = Result ReducerError (Reducer × Response)

-- `NewReducer`.
abbrev pub new_reducer : Reducer
new_reducer = record {
  revision = 0;
  has_repository = false;
  target = none;
  active_file = none;
  operations = [];
  closed = false;
}

-- `safeText`.
unfoldable pub safe_text : Bytes → Bool
safe_text value = not (is_empty value) && valid_text value && not (all_space value)

abbrev pub metadata : OperationState → ResultMetadata
metadata o = record {
  operation_id = o.id;
  correlation_id = o.correlation_id;
  target_generation = o.target_generation;
}

-- `finishOperation`.
abbrev pub finish : Clock → OperationState → OperationStatus → Bytes → Bytes → OperationState
finish clock o status code message = record o {
  status = status;
  cancellable = false;
  finished_at = clock.finishes o.id;
  error_code = code;
  message = message;
}

-- `commit`; the revision is a `uint64`.
unfoldable pub commit : Reducer → Bytes → List Event → Reducer × Response
commit r id events =
    let revision = (r.revision + 1) % 2 ^ 64 in
    (
      record r { revision = revision },
      record { operation_id = id; changed = true; revision = revision; events = events },
    )

abbrev pub with_operations : Reducer → Operations → Reducer
with_operations r ops = record r { operations = ops }

-- A round of the loop of `supersede` and of `shutdown`; every id is in the map.
abbrev pub cancel_found : Clock → Bytes → Bytes → Option OperationState → Operations → Operations
cancel_found clock reason id none ops = ops
cancel_found clock reason id (some o) ops =
    store_operation id (finish clock o cancelled (codes "cancelled") reason) ops

-- The loop: each of the operations is cancelled.
unfoldable pub cancel_all : Clock → Bytes → List Bytes → Operations → Operations
cancel_all clock reason [] ops = ops
cancel_all clock reason (id ∷ ids) ops =
    cancel_all clock reason ids (cancel_found clock reason id (find_operation id ops) ops)

abbrev pub cancel_event : Bytes → Option OperationState → List Event → List Event
cancel_event reason none events = events
cancel_event reason (some o) events = superseded (metadata o) reason ∷ events

-- The events of the loop.
unfoldable pub cancel_events : Bytes → List Bytes → Operations → List Event
cancel_events reason [] ops = []
cancel_events reason (id ∷ ids) ops =
    cancel_event reason (find_operation id ops) (cancel_events reason ids ops)

-- What `supersede` cancels: the other active operations of the family.
abbrev pub is_superseded : OperationKind → Bytes → OperationState → Bool
is_superseded kind replacement o =
    not (bytes_eq o.id replacement)
    && active o
    && kind_eq (operation_family o.kind) (operation_family kind)

abbrev pub superseded_ids : OperationKind → Bytes → Operations → List Bytes
superseded_ids kind replacement ops = sort_ids (ids_where (is_superseded kind replacement) ops ops)

abbrev pub superseded_text : Bytes
superseded_text = codes "operation superseded"

-- `newOperation`, for the id that the source of ids gives: the operation that is stored.
abbrev pub new_state : Clock → Bytes → OperationKind → Bytes → ℕ → Bool → OperationState
new_state clock id kind correlation_id generation may_cancel = record {
  id = id;
  kind = kind;
  status = running;
  correlation_id = correlation_id;
  target_generation = generation;
  started_at = clock.starts;
  finished_at = pos 0;
  cancellable = may_cancel;
  error_code = [];
  message = [];
}

unfoldable pub new_operation :
    Reducer → Clock → Bytes → OperationKind → Bytes → ℕ → Bool → Result ReducerError OperationState
new_operation r clock id kind correlation_id generation may_cancel =
    let correlation = if is_empty correlation_id then id else correlation_id in
    fail_if (is_empty id) invalid_reducer_input
    >> (fail_if (is_some (find_operation id r.operations)) invalid_reducer_input
        >> (fail_if (not (safe_text correlation)) empty_correlation_id
            >> ok (new_state clock id kind correlation generation may_cancel)))

-- `startOperation` once the operation is made.
abbrev pub started_with : Clock → Reducer → OperationState → Reducer × Response
started_with clock r o =
    let ops = store_operation o.id o r.operations in
    let ids = superseded_ids o.kind o.id ops in
    commit (with_operations r (cancel_all clock superseded_text ids ops)) o.id
      (cancel_events superseded_text ids ops ++ started (metadata o) o.kind ∷ [])

-- `startOperation`.
unfoldable pub start_operation :
    Reducer → Clock → Bytes → OperationKind → Bytes → ℕ → Bool → Handled
start_operation r clock id kind correlation_id generation may_cancel =
    new_operation r clock id kind correlation_id generation may_cancel >>= λ o.
    ok (started_with clock r o)
