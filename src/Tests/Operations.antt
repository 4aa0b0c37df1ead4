-- ===== src/Tests/Operations.antt =====
-- A reducer with a repository, and commands and results for it.
use nudge.Base.{List, [], map, refl, some, true, ◌∷◌, ◌≡◌}
use nudge.Base.Bytes.{Bytes, bytes_ltb, codes}
use nudge.Base.Int.{pos}
use nudge.Base.Result.{err, ok}
use nudge.Base.Text.{all_space}
use nudge.Base.Utf8.{valid_text, valid_utf8}
use nudge.Operations.{
  OperationState, OperationStatus, cancelled, find_operation, ids_where, insert_id, kind_eq,
  open_repository_kind, running, sort_ids, store_operation, succeeded,
}
use nudge.Operations.Handle.{accept_at, accept_result, handle, handle_command, handle_result}
use nudge.Operations.Lifecycle.{IsTable}
use nudge.Operations.Reducer.{
  Clock, Input, Reducer, Response, cancel_all, command, commit, finish, new_operation, new_reducer,
  new_state, open_repository, reducer_closed, refresh_target, repository_loaded, result, safe_text,
  select_target, shutdown, start_operation,
}
use nudge.Operations.Runs.{
  Handling, handle_all, handle_all-IsTable, handle_all-final, shutdown-closes,
}
use nudge.Operations.Table.{idle}

abbrev clock : Clock
clock = record { starts = pos 10; finishes = λ id. pos 20 }

abbrev loaded_reducer : Reducer
loaded_reducer = record new_reducer { has_repository = true; target = some 3 }

abbrev handling : Bytes → Input → Handling
handling id input = record { clock = clock; next_id = id; input = input }

abbrev refresh_twice : List Handling
refresh_twice =
    handling (codes "a") (command (refresh_target []))
    ∷ handling (codes "b") (command (select_target true []))
    ∷ []

abbrev entry : Bytes × OperationState → Bytes × OperationStatus
entry (id, o) = (id, o.status)

-- The second replaces the first, which is of the same family; a late result of it is discarded.
abbrev two_entries : List (Bytes × OperationStatus)
two_entries = (codes "a", cancelled) ∷ ((codes "b", running) ∷ [])

superseded_first : map entry (handle_all loaded_reducer refresh_twice).operations ≡ two_entries
unfolding handle_all handle handle_command start_operation new_operation commit cancel_all
    store_operation find_operation ids_where sort_ids insert_id kind_eq safe_text valid_text
    valid_utf8 all_space bytes_ltb
superseded_first = refl

empty-IsTable : IsTable []
unfolding find_operation
empty-IsTable = record { keyed = λ id o f. absurd (cc f); single = λ a b x y f g r. absurd (cc f) }

handle_all-IsTable_example : IsTable (handle_all loaded_reducer refresh_twice).operations
handle_all-IsTable_example = handle_all-IsTable loaded_reducer refresh_twice empty-IsTable

-- A repository that is opened and loaded, and what is stored of it.
abbrev open_and_load : List Handling
open_and_load =
    handling (codes "a") (command (open_repository (codes "/r") []))
    ∷ handling (codes "c") (
        result (
          repository_loaded
            (record { operation_id = codes "a"; correlation_id = codes "a"; target_generation = 0 })
            true))
    ∷ []

abbrev done : OperationState
done =
    finish clock (new_state clock (codes "a") open_repository_kind (codes "a") 0 true) succeeded []
      []

opened : find_operation (codes "a") (handle_all new_reducer open_and_load).operations ≡ some done
unfolding handle_all handle handle_command handle_result accept_result accept_at start_operation
    new_operation commit cancel_all store_operation find_operation ids_where sort_ids insert_id
    kind_eq safe_text valid_text valid_utf8 all_space bytes_ltb
opened = refl

handle_all-final_example :
    find_operation
      (codes "a")
      (handle_all (handle_all new_reducer open_and_load) refresh_twice).operations
    ≡ some done
handle_all-final_example =
    handle_all-final (handle_all new_reducer open_and_load) refresh_twice (codes "a") done
      (handle_all-IsTable new_reducer open_and_load empty-IsTable) opened refl

shutdown-closes_example :
    (r' : Reducer) × (response : Response) × (handle loaded_reducer clock
        (codes "z")
        (command shutdown)
      ≡ ok (r', response))
    × ((a : Bytes) → idle a r'.operations ≡ true)
    × ((clock' : Clock) (id' : Bytes) (input : Input)
        → handle r' clock' id' input ≡ err reducer_closed)
shutdown-closes_example = shutdown-closes loaded_reducer clock (codes "z") refl
