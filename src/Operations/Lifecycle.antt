-- ===== src/Operations/Lifecycle.antt =====
-- The lifecycle of operations in internal/app/reducer.go: a finished operation stays as it is, and one
-- operation of a family is active.
use Prim.Native.Char.{code}
use mathlib.Core.Path.{subst}
use nudge.Base.{
  Bool, Bool-cases, List, Option, [], any, ap, arith, false, inl, inr, none, not, refl, some, sym,
  true, ◌&&◌, ◌∙◌, ◌∷◌, ◌≡◌, ◌⊎◌,
}
use nudge.Base.Bytes.{Bytes, bytes_eq, codes}
use nudge.Operations.{
  OperationState, Operations, active, cancelled, find_operation, ids_where, kind_eq,
  operation_family, passes, sort_ids, store_operation, succeeded,
}
use nudge.Operations.Collected.{any-sort_ids, collected_passes}
use nudge.Operations.Evolves.{Evolves, added_finished, added_running, as_before, finished, stopped}
use nudge.Operations.Handle.{active_ids, shutdown_text}
use nudge.Operations.Reducer.{
  Clock, cancel_all, cancel_found, finish, is_superseded, superseded_ids, superseded_text,
}
use nudge.Operations.Table.{
  bytes_eq-cases, cancel_all-cancels, cancel_all-other, find-store-other, find-store-same,
}

-- Every operation stands under its id, and no two active ones are of one family.
pub record IsTable (ops : Operations) : Type 0 where
  pub keyed : (id : Bytes) (o : OperationState) → find_operation id ops ≡ some o → o.id ≡ id
  pub single :
      (a b : Bytes) (x y : OperationState)
      → find_operation a ops ≡ some x
      → find_operation b ops ≡ some y
      → (active x && active y && kind_eq (operation_family x.kind) (operation_family y.kind)) ≡ true
      → a ≡ b

-- What is found after a store: the operation that was stored, or what was there.
pub store-cases :
    (a id : Bytes) (o x : OperationState) (ops : Operations)
    → find_operation a (store_operation id o ops) ≡ some x
    → ((a ≡ id) × (o ≡ x)) ⊎ ((bytes_eq a id ≡ false) × (find_operation a ops ≡ some x))
store-cases a id o x ops h = elim (bytes_eq-cases a id) [
  | inl (e, here) ↦
      let k : some o ≡ some x =
        sym (find-store-same id o ops)
        ∙ ap (λ i. find_operation i (store_operation id o ops)) (sym here)
        ∙ h in
      inl (here, cc k)
  | inr e ↦ inr (e, sym (find-store-other a id o ops e) ∙ h)
]

-- What is found after a loop that cancels: nothing active that it passed over, and the rest as before.
pub cancelled-cases :
    (clock : Clock) (reason a : Bytes) (ids : List Bytes) (x : OperationState) (ops : Operations)
    → find_operation a (cancel_all clock reason ids ops) ≡ some x
    → active x ≡ true
    → (any (bytes_eq a) ids ≡ false) × (find_operation a ops ≡ some x)
cancelled-cases clock reason a ids x ops h k = elim (Bool-cases (any (bytes_eq a) ids)) [
  | inr e ↦ (e, sym (cancel_all-other clock reason a ids ops e) ∙ h)
  | inl e ↦
      let quiet : not (active x) ≡ true =
        ap (λ o. not (passes active o)) (sym h) ∙ cancel_all-cancels clock reason a ids ops e in
      absurd (ground (arith, quiet, k))
]

pub cancel_all-keyed :
    (clock : Clock) (reason : Bytes) (ids : List Bytes) (ops : Operations)
    → ((id : Bytes) (o : OperationState) → find_operation id ops ≡ some o → o.id ≡ id)
    → (id : Bytes) (o : OperationState)
    → find_operation id (cancel_all clock reason ids ops) ≡ some o
    → o.id ≡ id
unfolding cancel_all
cancel_all-keyed clock reason [] ops keyed id o h = keyed id o h
cancel_all-keyed clock reason (i ∷ ids) ops keyed id o h =
    cancel_all-keyed clock reason ids (cancel_found clock reason i (find_operation i ops) ops)
      (go (find_operation i ops) refl) id o h
  where
    go :
        (found : Option OperationState)
        → find_operation i ops ≡ found
        → (id : Bytes) (o : OperationState)
        → find_operation id (cancel_found clock reason i found ops) ≡ some o
        → o.id ≡ id
    go none f id o h = keyed id o h
    go (some p) f id o h =
        elim (store-cases id i (finish clock p cancelled (codes "cancelled") reason) o ops h) [
          | inl (here, e) ↦ ap (λ (q : OperationState). q.id) (sym e) ∙ keyed i p f ∙ sym here
          | inr (e, k) ↦ keyed id o k
        ]

apart :
    (a id : Bytes) (x : OperationState) (o : Option OperationState) (ops : Operations)
    → find_operation id ops ≡ o
    → find_operation a ops ≡ some x
    → (o ≡ some x → ⊥)
    → bytes_eq a id ≡ false
apart a id x o ops f h differ = elim (bytes_eq-cases a id) [
  | inr e ↦ e
  | inl (e, here) ↦ absurd (differ (sym f ∙ ap (λ i. find_operation i ops) (sym here) ∙ h))
]

not_collected :
    (test : OperationState → Bool) (a : Bytes) (ops : Operations)
    → passes test (find_operation a ops) ≡ false
    → any (bytes_eq a) (sort_ids (ids_where test ops ops)) ≡ false
not_collected test a ops h = elim (Bool-cases (any (bytes_eq a) (ids_where test ops ops))) [
  | inr e ↦ any-sort_ids a (ids_where test ops ops) ∙ e
  | inl e ↦ absurd (cc (h, collected_passes test a ops ops e))
]

inactive_first :
    (x : OperationState) (t u : Bool) → active x ≡ false → (not t && active x && u) ≡ false
inactive_first x true u k = refl
inactive_first x false u k = rw k refl

-- What is finished stays as it is.
pub finished_stays :
    (clock : Clock) (ops ops' : Operations) (a : Bytes) (x : OperationState)
    → IsTable ops
    → Evolves clock ops ops'
    → find_operation a ops ≡ some x
    → active x ≡ false
    → find_operation a ops' ≡ some x
finished_stays clock ops ops' a x t as_before h k = h
finished_stays clock ops ops' a x t (finished id o status code message f on off) h k =
    let other : bytes_eq a id ≡ false = apart a id x (some o) ops f h (λ e. absurd (differ e)) in
    find-store-other a o.id (finish clock o status code message) ops
      (subst (λ i. bytes_eq a i ≡ false) (sym (t.keyed id o f)) other)
    ∙ h
  where
    differ : some o ≡ some x → ⊥
    differ e =
        let same : o ≡ x = cc e in
        absurd (cc (subst (λ (q : OperationState). active q ≡ true) same on, k))
finished_stays clock ops ops' a x t (added_finished o fresh) h k =
    find-store-other a o.id (finish clock o succeeded [] []) ops
      (apart a o.id x none ops fresh h (λ e. absurd (cc e)))
    ∙ h
finished_stays clock ops ops' a x t (added_running o fresh) h k =
    let ops1 = store_operation o.id o ops in
    let there : find_operation a ops1 ≡ some x =
      find-store-other a o.id o ops (apart a o.id x none ops fresh h (λ e. absurd (cc e))) ∙ h in
    cancel_all-other clock superseded_text a (superseded_ids o.kind o.id ops1) ops1 (
      not_collected (is_superseded o.kind o.id) a ops1
        (ap (passes (is_superseded o.kind o.id)) there ∙ inactive_first x (bytes_eq x.id o.id) _ k))
    ∙ there
finished_stays clock ops ops' a x t stopped h k =
    cancel_all-other clock shutdown_text a (active_ids ops) ops
      (not_collected active a ops (ap (passes active) h ∙ k))
    ∙ h
