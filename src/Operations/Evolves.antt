-- ===== src/Operations/Evolves.antt =====
-- How `Handle` of internal/app/reducer.go changes the map of operations.
use Prim.Native.Char.{code}
use mathlib.Core.Path.{subst}
use nudge.Base.{
  Bool, List, Option, [], ap, arith, false, if◌then◌else◌, inl, inr, is_some, ltb, none, not, refl,
  some, true, ℕ, ◌&&◌, ◌==◌, ◌||◌, ◌∷◌, ◌≡◌,
}
use nudge.Base.Bytes.{Bytes, bytes_eq, codes, is_empty}
use nudge.Base.Result.{>>=-eq-ok, err, fail_if, fail_if->>-ok, fail_if-eq-ok, if-eq-ok, ok, ◌>>◌}
use nudge.Operations.{
  OperationKind, OperationState, OperationStatus, Operations, active, cancelled, find_operation,
  is_running, store_operation, succeeded,
}
use nudge.Operations.Handle.{
  accept_at, accept_result, active_ids, cancel_operation_at, finished_with, is_behind, kind_allowed,
  shutdown_text,
}
use nudge.Operations.Reducer.{
  Clock, Reducer, Response, ResultMetadata, cancel_all, commit, discarded, empty_correlation_id,
  finish, invalid_reducer_input, metadata, new_operation, new_state, operation_not_cancellable,
  safe_text, start_operation, started_with, superseded, superseded_ids, superseded_text,
  with_operations,
}

-- An operation that is active is found under its id.
pub data Evolves (clock : Clock) (ops : Operations) : Operations → Type 0 where
  as_before : Evolves clock ops ops
  finished :
      (id : Bytes) (o : OperationState) (status : OperationStatus) (code message : Bytes)
      → find_operation id ops ≡ some o
      → active o ≡ true
      → is_running status ≡ false
      → Evolves clock ops (store_operation o.id (finish clock o status code message) ops)
  added_finished :
      (o : OperationState)
      → find_operation o.id ops ≡ none
      → Evolves clock ops (store_operation o.id (finish clock o succeeded [] []) ops)
  added_running :
      (o : OperationState)
      → find_operation o.id ops ≡ none
      → Evolves clock ops (
          cancel_all clock superseded_text
            (superseded_ids o.kind o.id (store_operation o.id o ops))
            (store_operation o.id o ops))
  stopped : Evolves clock ops (cancel_all clock shutdown_text (active_ids ops) ops)

not_found : (o : Option OperationState) → is_some o ≡ false → o ≡ none
not_found none h = refl
not_found (some o) h = absurd (cc h)

pub new_operation-fresh :
    (r : Reducer) (clock : Clock) (id : Bytes) (kind : OperationKind) (correlation : Bytes)
    (generation : ℕ) (may_cancel : Bool) {o : OperationState}
    → new_operation r clock id kind correlation generation may_cancel ≡ ok o
    → find_operation o.id r.operations ≡ none
unfolding new_operation
new_operation-fresh r clock id kind correlation generation may_cancel {o} h =
    let text = if is_empty correlation then id else correlation in
    let made = new_state clock id kind text generation may_cancel in
    let (p, h1) = fail_if->>-ok (is_empty id) invalid_reducer_input _ h in
    let (q, h2) =
      fail_if->>-ok (is_some (find_operation id r.operations)) invalid_reducer_input
        (fail_if (not (safe_text text)) empty_correlation_id >> ok made) h1 in
    let (t, h3) = fail_if-eq-ok (not (safe_text text)) empty_correlation_id h2 in
    subst (λ (x : OperationState). find_operation x.id r.operations ≡ none) h3
      (not_found (find_operation id r.operations) q)

pub start-Evolves :
    (r : Reducer) (clock : Clock) (id : Bytes) (kind : OperationKind) (correlation : Bytes)
    (generation : ℕ) (may_cancel : Bool) {out : Reducer × Response}
    → start_operation r clock id kind correlation generation may_cancel ≡ ok out
    → Evolves clock r.operations out.0.operations
unfolding start_operation commit
start-Evolves r clock id kind correlation generation may_cancel {out} h =
    let (o, e, k) =
      >>=-eq-ok (new_operation r clock id kind correlation generation may_cancel)
        (λ o. ok (started_with clock r o)) h in
    let k' : started_with clock r o ≡ out = cc k in
    subst (λ (x : Reducer × Response). Evolves clock r.operations x.0.operations) k'
      (added_running o (new_operation-fresh r clock id kind correlation generation may_cancel e))

pub cancel-Evolves :
    (r : Reducer) (clock : Clock) (id : Bytes) (o : Option OperationState)
    {out : Reducer × Response}
    → find_operation id r.operations ≡ o
    → cancel_operation_at r clock o ≡ ok out
    → Evolves clock r.operations out.0.operations
unfolding cancel_operation_at commit
cancel-Evolves r clock id none f h = absurd (cc h)
cancel-Evolves r clock id (some o) {out} f h =
    let text = codes "operation cancelled" in
    let answer : Reducer × Response =
      (r, record { operation_id = o.id; changed = false; revision = r.revision; events = [] }) in
    let after : Reducer × Response =
      commit
        (with_operations r
          (store_operation o.id (finish clock o cancelled (codes "cancelled") text) r.operations))
        o.id (superseded (metadata o) text ∷ []) in
    elim (if-eq-ok (not (active o)) (ok answer)
      (if not o.cancellable then err operation_not_cancellable else ok after) h) [
        | inl (e, k) ↦
            let k' : answer ≡ out = cc k in
            subst (λ (x : Reducer × Response). Evolves clock r.operations x.0.operations) k'
              as_before
        | inr (e, k) ↦
            elim (if-eq-ok (not o.cancellable) (err operation_not_cancellable) (ok after) k) [
              | inl (u, l) ↦ absurd (cc l)
              | inr (u, l) ↦
                  let l' : after ≡ out = cc l in
                  subst (λ (x : Reducer × Response). Evolves clock r.operations x.0.operations) l'
                    (finished id o cancelled (codes "cancelled") text f (ground (arith, e)) refl)
            ]
      ]

accept_at-found :
    (r : Reducer) (m : ResultMetadata) (kinds : List OperationKind) (found : Option OperationState)
    {o : OperationState}
    → accept_at r m kinds found ≡ ok o
    → (found ≡ some o) × (active o ≡ true)
unfolding accept_at
accept_at-found r m kinds none h = absurd (cc h)
accept_at-found r m kinds (some x) h =
    let running_now = not (active x) || not (bytes_eq x.correlation_id m.correlation_id) in
    let older = not (x.target_generation == 0) && ltb m.target_generation x.target_generation in
    let behind = is_behind m.target_generation r.target in
    let last = fail_if behind discarded >> ok x in
    let (p, h1) =
      fail_if->>-ok running_now discarded
        (fail_if (not (kind_allowed kinds x.kind)) discarded >> (fail_if older discarded >> last))
        h in
    let (q, h2) =
      fail_if->>-ok (not (kind_allowed kinds x.kind)) discarded (fail_if older discarded >> last)
        h1 in
    let (t, h3) = fail_if->>-ok older discarded last h2 in
    let (u, e) = fail_if-eq-ok behind discarded h3 in
    let running_one : active x ≡ true = ground (arith, p) in
    (ap some e, subst (λ (y : OperationState). active y ≡ true) e running_one)

pub accept_result-found :
    (r : Reducer) (m : ResultMetadata) (kinds : List OperationKind) {o : OperationState}
    → accept_result r m kinds ≡ ok o
    → (find_operation m.operation_id r.operations ≡ some o) × (active o ≡ true)
unfolding accept_result
accept_result-found r m kinds h =
    let (p, h1) =
      fail_if->>-ok (is_empty m.operation_id || not (safe_text m.correlation_id)) discarded
        (accept_at r m kinds (find_operation m.operation_id r.operations)) h in
    accept_at-found r m kinds (find_operation m.operation_id r.operations) h1

-- A finished operation under the id of its result.
pub finish-Evolves :
    (r : Reducer) (clock : Clock) (m : ResultMetadata) (kinds : List OperationKind)
    (status : OperationStatus) (code message : Bytes) {o : OperationState}
    → is_running status ≡ false
    → accept_result r m kinds ≡ ok o
    → Evolves clock r.operations (finished_with clock r o status code message).operations
finish-Evolves r clock m kinds status code message {o} e h =
    let (f, a) = accept_result-found r m kinds h in
    finished m.operation_id o status code message f a e
