-- ===== src/Operations.antt =====
-- internal/app/operation.go: the operations of the application, and the table that holds them.
pub mod Reducer
pub mod Handle
pub mod Table
pub mod Collected
pub mod Evolves
pub mod Handled
pub mod Lifecycle
pub mod OneActive
pub mod Runs
use nudge.Base.{Bool, List, Option, [], false, if◌then◌else◌, none, some, true, ℕ, ◌∷◌}
use nudge.Base.Bytes.{Bytes, bytes_eq, bytes_ltb, codes}
use nudge.Base.Time.{Time}

-- `kind_other s` and `status_other s` are a string `s` that is no constant.
pub data OperationKind : Type 0 where
  open_repository_kind select_target_kind select_file_kind refresh_target_kind : OperationKind
  request_proposal_kind refresh_proposal_kind approve_proposal_kind : OperationKind
  reject_proposal_kind discard_proposal_result_kind : OperationKind
  kind_other : Bytes → OperationKind

pub data OperationStatus : Type 0 where
  running cancelling succeeded cancelled failed : OperationStatus
  status_other : Bytes → OperationStatus

abbrev pub kind_text : OperationKind → Bytes
kind_text open_repository_kind = codes "open_repository"
kind_text select_target_kind = codes "select_target"
kind_text select_file_kind = codes "select_file"
kind_text refresh_target_kind = codes "refresh_target"
kind_text request_proposal_kind = codes "request_proposal"
kind_text refresh_proposal_kind = codes "refresh_proposal"
kind_text approve_proposal_kind = codes "approve_proposal"
kind_text reject_proposal_kind = codes "reject_proposal"
kind_text discard_proposal_result_kind = codes "discard_proposal_result"
kind_text (kind_other s) = s

-- `==` on kinds.
unfoldable pub kind_eq : OperationKind → OperationKind → Bool
kind_eq a b = bytes_eq (kind_text a) (kind_text b)

pub record OperationState : Type 0 where
  pub id : Bytes
  pub kind : OperationKind
  pub status : OperationStatus
  pub correlation_id : Bytes
  pub target_generation : ℕ
  pub started_at : Time
  pub finished_at : Time
  pub cancellable : Bool
  pub error_code : Bytes
  pub message : Bytes

-- `active`.
abbrev pub is_running : OperationStatus → Bool
is_running running = true
is_running cancelling = true
is_running _ = false

abbrev pub active : OperationState → Bool
active o = is_running o.status

-- `operationFamily`.
abbrev pub operation_family : OperationKind → OperationKind
operation_family select_target_kind = refresh_target_kind
operation_family k = k

-- The map `Operations`, by its entries; an entry that is put again is replaced.
abbrev pub Operations : Type 0
Operations = List (Bytes × OperationState)

unfoldable pub find_operation : Bytes → Operations → Option OperationState
find_operation id [] = none
find_operation id ((key, o) ∷ ops) =
    let rest = find_operation id ops in if bytes_eq id key then some o else rest

unfoldable pub store_operation : Bytes → OperationState → Operations → Operations
store_operation id o [] = (id, o) ∷ []
store_operation id o ((key, old) ∷ ops) =
    let rest = store_operation id o ops in
    if bytes_eq id key then (key, o) ∷ ops else (key, old) ∷ rest

-- `for id, operation := range operations { if test { ids = append(ids, id) } }`, over the entries
-- in the order of the list: the ids are sorted afterwards.
abbrev pub passes : (OperationState → Bool) → Option OperationState → Bool
passes test none = false
passes test (some o) = test o

unfoldable pub ids_where : (OperationState → Bool) → Operations → Operations → List Bytes
ids_where test all_ops [] = []
ids_where test all_ops ((key, o) ∷ ops) =
    let rest = ids_where test all_ops ops in
    if passes test (find_operation key all_ops) then key ∷ rest else rest

-- `sort.Slice` by `<` on strings.
unfoldable pub insert_id : Bytes → List Bytes → List Bytes
insert_id x [] = x ∷ []
insert_id x (y ∷ ys) = let rest = insert_id x ys in if bytes_ltb y x then y ∷ rest else x ∷ (y ∷ ys)

unfoldable pub sort_ids : List Bytes → List Bytes
sort_ids [] = []
sort_ids (x ∷ xs) = insert_id x (sort_ids xs)
