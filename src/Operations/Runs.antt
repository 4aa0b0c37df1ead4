-- ===== src/Operations/Runs.antt =====
-- internal/app/reducer.go over any inputs. An input that is refused leaves the reducer as it is.
use nudge.Base.{
  Bool, Bool-cases, List, Option, [], any, ap, false, inl, inr, is_some, none, not, refl, some,
  true, ◌∙◌, ◌∷◌, ◌≡◌,
}
use nudge.Base.Bytes.{Bytes, bytes_eq}
use nudge.Base.Result.{err, ok}
use nudge.Operations.{OperationState, Operations, active, find_operation, ids_where, passes}
use nudge.Operations.Collected.{any-sort_ids, found_collected}
use nudge.Operations.Evolves.{Evolves, as_before}
use nudge.Operations.Handle.{active_ids, handle, handle_command, shut_down, shutdown_text}
use nudge.Operations.Handled.{handle-Evolves}
use nudge.Operations.Lifecycle.{IsTable, finished_stays}
use nudge.Operations.OneActive.{change-IsTable}
use nudge.Operations.Reducer.{
  Clock, Handled, Input, Reducer, Response, cancel_all, command, commit, reducer_closed, result,
  shutdown,
}
use nudge.Operations.Table.{cancel_all-cancels, cancel_all-other, idle}

-- An input, with what the clock and the source of ids give for it.
pub record Handling : Type 0 where
  pub clock : Clock
  pub next_id : Bytes
  pub input : Input

abbrev pub or_same : Reducer → Handled → Reducer
or_same r (ok (r', response)) = r'
or_same r (err e) = r

unfoldable pub handle_all : Reducer → List Handling → Reducer
handle_all r [] = r
handle_all r (h ∷ hs) = handle_all (or_same r (handle r h.clock h.next_id h.input)) hs

step-Evolves :
    (r : Reducer) (h : Handling) (out : Handled)
    → handle r h.clock h.next_id h.input ≡ out
    → Evolves h.clock r.operations (or_same r out).operations
step-Evolves r h (ok out) e = handle-Evolves r h.clock h.next_id h.input e
step-Evolves r h (err k) e = as_before

-- If every operation stands under its id and no two active operations are of one family, then so
-- it is after any inputs: a new operation cancels the active ones of its family.
pub handle_all-IsTable :
    (r : Reducer) (hs : List Handling) → IsTable r.operations → IsTable (handle_all r hs).operations
unfolding handle_all
handle_all-IsTable r [] t = t
handle_all-IsTable r (h ∷ hs) t =
    handle_all-IsTable (or_same r (handle r h.clock h.next_id h.input)) hs
      (change-IsTable h.clock r.operations _ t (step-Evolves r h _ refl))

-- In a table where every operation stands under its id and no two active ones are of one family,
-- an operation that is not active stays as it is, whatever inputs follow: no late result,
-- cancellation, replacement or shutdown changes it.
pub handle_all-final :
    (r : Reducer) (hs : List Handling) (id : Bytes) (x : OperationState)
    → IsTable r.operations
    → find_operation id r.operations ≡ some x
    → active x ≡ false
    → find_operation id (handle_all r hs).operations ≡ some x
unfolding handle_all
handle_all-final r [] id x t f off = f
handle_all-final r (h ∷ hs) id x t f off =
    let change = step-Evolves r h (handle r h.clock h.next_id h.input) refl in
    handle_all-final (or_same r (handle r h.clock h.next_id h.input)) hs id x
      (change-IsTable h.clock r.operations _ t change)
      (finished_stays h.clock r.operations _ id x t change f off) off

passes-some :
    (test : OperationState → Bool) (o : Option OperationState)
    → passes test o ≡ true
    → is_some o ≡ true
passes-some test none h = h
passes-some test (some o) h = refl

shut_down-idle :
    (clock : Clock) (ops : Operations) (a : Bytes)
    → idle a (cancel_all clock shutdown_text (active_ids ops) ops) ≡ true
shut_down-idle clock ops a = elim (Bool-cases (any (bytes_eq a) (active_ids ops))) [
  | inl e ↦ cancel_all-cancels clock shutdown_text a (active_ids ops) ops e
  | inr e ↦
      ap (λ o. not (passes active o))
        (cancel_all-other clock shutdown_text a (active_ids ops) ops e)
      ∙ unlisted (passes active (find_operation a ops)) refl e
]
  where
    unlisted :
        (t : Bool)
        → passes active (find_operation a ops) ≡ t
        → any (bytes_eq a) (active_ids ops) ≡ false
        → not (passes active (find_operation a ops)) ≡ true
    unlisted false p e = rw p refl
    unlisted true p e =
        let listed =
          any-sort_ids a (ids_where active ops ops)
          ∙ found_collected active a ops ops p (passes-some active (find_operation a ops) p) in
        absurd (cc (e, listed))

-- The shutdown of a reducer that is open is granted, no operation is active after it, and every
-- later input is refused with `ErrReducerClosed`.
pub shutdown-closes :
    (r : Reducer) (clock : Clock) (id : Bytes)
    → r.closed ≡ false
    → (r' : Reducer) × (response : Response) × (handle r clock id (command shutdown)
        ≡ ok (r', response))
      × ((a : Bytes) → idle a r'.operations ≡ true)
      × ((clock' : Clock) (id' : Bytes) (input : Input)
          → handle r' clock' id' input ≡ err reducer_closed)
unfolding handle handle_command shut_down commit
shutdown-closes r clock id open_now = (
  (shut_down r clock).0,
  (shut_down r clock).1,
  rw open_now refl,
  shut_down-idle clock r.operations,
  refused,
)
  where
    refused :
        (clock' : Clock) (id' : Bytes) (input : Input)
        → handle (shut_down r clock).0 clock' id' input ≡ err reducer_closed
    refused clock' id' (command c) = refl
    refused clock' id' (result x) = refl
