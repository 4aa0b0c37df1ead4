-- ===== src/Operations/OneActive.antt =====
-- One operation of a family is active, after whatever internal/app/reducer.go grants.
use Prim.Native.Char.{code}
use mathlib.Core.Path.{subst}
use nudge.Base.{
  Bool, Bool-cases, List, [], any, ap, arith, false, inl, inr, is_some, none, refl, some, sym, true,
  ◌&&◌, ◌∙◌, ◌≡◌, ◌⊎◌,
}
use nudge.Base.Bytes.{Bytes, bytes_eq, bytes_eq_refl, bytes_eq_sound}
use nudge.Operations.{
  OperationState, Operations, active, find_operation, ids_where, kind_eq, kind_text,
  operation_family, passes, store_operation, succeeded,
}
use nudge.Operations.Collected.{any-sort_ids, found_collected}
use nudge.Operations.Evolves.{Evolves, added_finished, added_running, as_before, finished, stopped}
use nudge.Operations.Handle.{active_ids, shutdown_text}
use nudge.Operations.Lifecycle.{IsTable, cancel_all-keyed, cancelled-cases, store-cases}
use nudge.Operations.Reducer.{
  Clock, cancel_all, finish, is_superseded, superseded_ids, superseded_text,
}

-- Two operations are active and of one family.
abbrev pub rivals : OperationState → OperationState → Bool
rivals x y = active x && active y && kind_eq (operation_family x.kind) (operation_family y.kind)

-- Every active operation after a change was there before it.
abbrev IsShrunk : Operations → Operations → Type 0
IsShrunk ops ops' =
    (a : Bytes) (x : OperationState)
    → find_operation a ops' ≡ some x
    → active x ≡ true
    → find_operation a ops ≡ some x

shrunk-IsTable :
    (ops ops' : Operations)
    → IsTable ops
    → IsShrunk ops ops'
    → ((id : Bytes) (o : OperationState) → find_operation id ops' ≡ some o → o.id ≡ id)
    → IsTable ops'
shrunk-IsTable ops ops' t s keyed = record {
  keyed = keyed;
  single = λ a b x y f g r.
      t.single a b x y (s a x f (ground (arith, r))) (s b y g (ground (arith, r))) r;
}

store-keyed :
    (ops : Operations) (o : OperationState)
    → IsTable ops
    → (id : Bytes) (x : OperationState) → find_operation id (store_operation o.id o ops) ≡ some x
    → x.id ≡ id
store-keyed ops o t id x f = elim (store-cases id o.id o x ops f) [
  | inl (here, e) ↦ ap (λ (q : OperationState). q.id) (sym e) ∙ sym here
  | inr (e, k) ↦ t.keyed id x k
]

-- A finished operation is stored.
finished-IsTable :
    (ops : Operations) (o : OperationState)
    → IsTable ops
    → active o ≡ false
    → IsTable (store_operation o.id o ops)
finished-IsTable ops o t off =
    shrunk-IsTable ops (store_operation o.id o ops) t shrinks (store-keyed ops o t)
  where
    shrinks : IsShrunk ops (store_operation o.id o ops)
    shrinks a x f on = elim (store-cases a o.id o x ops f) [
      | inl (here, e) ↦ absurd (cc (subst (λ (q : OperationState). active q ≡ false) e off, on))
      | inr (e, k) ↦ k
    ]

cancelled-IsTable :
    (clock : Clock) (reason : Bytes) (ids : List Bytes) (ops : Operations)
    → IsTable ops
    → IsTable (cancel_all clock reason ids ops)
cancelled-IsTable clock reason ids ops t =
    shrunk-IsTable ops (cancel_all clock reason ids ops) t
      (λ a x f on. (cancelled-cases clock reason a ids x ops f on).1)
      (cancel_all-keyed clock reason ids ops t.keyed)

bytes_eq_sym : (s t : Bytes) → bytes_eq s t ≡ true → bytes_eq t s ≡ true
bytes_eq_sym s t h = subst (λ u. bytes_eq u s ≡ true) (bytes_eq_sound s t h) (bytes_eq_refl s)

rivals_sym : (x y : OperationState) → rivals x y ≡ true → rivals y x ≡ true
unfolding kind_eq
rivals_sym x y r = ground (
  arith,
  r,
  bytes_eq_sym (kind_text (operation_family x.kind)) (kind_text (operation_family y.kind)),
)

first_active : (x y : OperationState) → rivals x y ≡ true → active x ≡ true
first_active x y r = ground (arith, r)

second_active : (x y : OperationState) → rivals x y ≡ true → active y ≡ true
second_active x y r = ground (arith, r)

module _ (clock : Clock) (ops : Operations) (o : OperationState) (t : IsTable ops)
    (fresh : find_operation o.id ops ≡ none) where
  abbrev ops1 : Operations
  ops1 = store_operation o.id o ops

  abbrev ids : List Bytes
  ids = superseded_ids o.kind o.id ops1

  abbrev ops2 : Operations
  ops2 = cancel_all clock superseded_text ids ops1

  -- An active operation after the start is the new one, or was there and is of another family.
  started-cases :
      (a : Bytes) (x : OperationState)
      → find_operation a ops2 ≡ some x
      → active x ≡ true
      → ((a ≡ o.id) × (o ≡ x)) ⊎ ((find_operation a ops ≡ some x) × (rivals x o ≡ false))
  started-cases a x f on =
      let (outside_ids, g) = cancelled-cases clock superseded_text a ids x ops1 f on in
      elim (store-cases a o.id o x ops g) [
        | inl here ↦ inl here
        | inr (e, k) ↦ inr (
          k,
          elim (Bool-cases (rivals x o)) [
            | inr no_rival ↦ no_rival
            | inl rival ↦
                let apart : bytes_eq x.id o.id ≡ false =
                  subst (λ i. bytes_eq i o.id ≡ false) (sym (t.keyed a x k)) e in
                let superseded_one : is_superseded o.kind o.id x ≡ true =
                  ground (arith, apart, rival) in
                absurd (cc (outside_ids, collected superseded_one g))
          ],
        )
      ]
    where
      collected :
          is_superseded o.kind o.id x ≡ true
          → find_operation a ops1 ≡ some x
          → any (bytes_eq a) ids ≡ true
      collected q g =
          any-sort_ids a (ids_where (is_superseded o.kind o.id) ops1 ops1)
          ∙ found_collected (is_superseded o.kind o.id) a ops1 ops1
              (ap (passes (is_superseded o.kind o.id)) g ∙ q) (ap is_some g)

  started-IsTable : IsTable ops2
  started-IsTable = record {
    keyed = cancel_all-keyed clock superseded_text ids ops1 (store-keyed ops o t);
    single = λ a b x y f g r. elim (started-cases a x f (first_active x y r)) [
      | inl (here, e) ↦ elim (started-cases b y g (second_active x y r)) [
        | inl (here', e') ↦ here ∙ sym here'
        | inr (k, apart) ↦
            absurd (cc (subst (λ q. rivals y q ≡ true) (sym e) (rivals_sym x y r), apart))
      ]
      | inr (j, apart) ↦ elim (started-cases b y g (second_active x y r)) [
        | inl (here', e') ↦ absurd (cc (subst (λ q. rivals x q ≡ true) (sym e') r, apart))
        | inr (k, apart') ↦ t.single a b x y j k r
      ]
    ];
  }

pub change-IsTable :
    (clock : Clock) (ops ops' : Operations) → IsTable ops → Evolves clock ops ops' → IsTable ops'
change-IsTable clock ops ops' t as_before = t
change-IsTable clock ops ops' t (finished id o status code message f on off) =
    finished-IsTable ops (finish clock o status code message) t off
change-IsTable clock ops ops' t (added_finished o fresh) =
    finished-IsTable ops (finish clock o succeeded [] []) t refl
change-IsTable clock ops ops' t (added_running o fresh) = started-IsTable clock ops o t fresh
change-IsTable clock ops ops' t stopped =
    cancelled-IsTable clock shutdown_text (active_ids ops) ops t
