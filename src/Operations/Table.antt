-- ===== src/Operations/Table.antt =====
-- The map of operations of internal/app/state.go: what is found after a store and after a loop that
-- cancels.
use mathlib.Core.Path.{subst}
use nudge.Base.{
  Bool, Bool-cases, List, Option, [], any, ap, arith, false, if◌then◌else◌, inl, inr, none, not,
  refl, some, sym, true, ◌&&◌, ◌∙◌, ◌∷◌, ◌≡◌, ◌⊎◌,
}
use nudge.Base.Bytes.{Bytes, bytes_eq, bytes_eq_refl, bytes_eq_sound, codes}
use nudge.Operations.{
  OperationState, Operations, active, cancelled, find_operation, passes, store_operation,
}
use nudge.Operations.Reducer.{Clock, cancel_all, cancel_found, finish}

pub bytes_eq-cases : (a b : Bytes) → ((bytes_eq a b ≡ true) × (a ≡ b)) ⊎ (bytes_eq a b ≡ false)
bytes_eq-cases a b = elim (Bool-cases (bytes_eq a b)) [
  | inl e ↦ inl (e, bytes_eq_sound a b e)
  | inr e ↦ inr e
]

same_test {ℓ} :
    {A : Type ℓ} (t : Bool) (x y z : A)
    → (if t then x else z) ≡ (if t then x else (if t then y else z))
same_test true x y z = refl
same_test false x y z = refl

swap_tests {ℓ} :
    {A : Type ℓ} (t u : Bool) (x y z : A)
    → (t && u) ≡ false
    → (if t then x else (if u then y else z)) ≡ (if u then y else (if t then x else z))
swap_tests true true x y z h = absurd (cc h)
swap_tests true false x y z h = refl
swap_tests false true x y z h = refl
swap_tests false false x y z h = refl

-- A text is not equal to two different texts.
not_both : (a id key : Bytes) → bytes_eq id key ≡ false → (bytes_eq a key && bytes_eq a id) ≡ false
not_both a id key e = elim (bytes_eq-cases a key) [
  | inr k ↦ rw k refl
  | inl (k, same) ↦ elim (bytes_eq-cases a id) [
    | inr j ↦ rw (k, j) refl
    | inl (j, other) ↦ absurd (cc (e, subst (λ x. bytes_eq x key ≡ true) other k))
  ]
]

pub find-store :
    (a id : Bytes) (o : OperationState) (ops : Operations)
    → find_operation a (store_operation id o ops)
      ≡ (if bytes_eq a id then some o else find_operation a ops)
unfolding find_operation store_operation
find-store a id o [] = refl
find-store a id o ((key, old) ∷ ops) = elim (bytes_eq-cases id key) [
  | inl (e, same) ↦
      rw (e, same) (same_test (bytes_eq a key) (some o) (some old) (find_operation a ops))
  | inr e ↦
      rw (e, find-store a id o ops)
        (swap_tests (bytes_eq a key) (bytes_eq a id) (some old) (some o) (find_operation a ops)
          (not_both a id key e))
]

-- What is stored is found under its id, and the rest is as before.
pub find-store-same :
    (id : Bytes) (o : OperationState) (ops : Operations)
    → find_operation id (store_operation id o ops) ≡ some o
find-store-same id o ops = find-store id id o ops ∙ rw (bytes_eq_refl id) refl

pub find-store-other :
    (a id : Bytes) (o : OperationState) (ops : Operations)
    → bytes_eq a id ≡ false
    → find_operation a (store_operation id o ops) ≡ find_operation a ops
find-store-other a id o ops e = find-store a id o ops ∙ rw e refl

cancel_found-other :
    (clock : Clock) (reason a id : Bytes) (o : Option OperationState) (ops : Operations)
    → bytes_eq a id ≡ false
    → find_operation a (cancel_found clock reason id o ops) ≡ find_operation a ops
cancel_found-other clock reason a id none ops e = refl
cancel_found-other clock reason a id (some o) ops e = find-store-other a id _ ops e

-- The loop leaves what it does not pass over.
pub cancel_all-other :
    (clock : Clock) (reason a : Bytes) (ids : List Bytes) (ops : Operations)
    → any (bytes_eq a) ids ≡ false
    → find_operation a (cancel_all clock reason ids ops) ≡ find_operation a ops
unfolding cancel_all
cancel_all-other clock reason a [] ops h = refl
cancel_all-other clock reason a (id ∷ ids) ops h =
    cancel_all-other clock reason a ids (cancel_found clock reason id (find_operation id ops) ops)
      (ground (arith, h))
    ∙ cancel_found-other clock reason a id (find_operation id ops) ops (ground (arith, h))

-- Nothing active under an id.
abbrev pub idle : Bytes → Operations → Bool
idle a ops = not (passes active (find_operation a ops))

cancel_found-at :
    (clock : Clock) (reason id : Bytes) (o : Option OperationState) (ops : Operations)
    → find_operation id ops ≡ o
    → idle id (cancel_found clock reason id o ops) ≡ true
cancel_found-at clock reason id none ops e = rw e refl
cancel_found-at clock reason id (some o) ops e =
    rw (find-store-same id (finish clock o cancelled (codes "cancelled") reason) ops) refl

cancel_found-idle :
    (clock : Clock) (reason a id : Bytes) (ops : Operations)
    → idle a ops ≡ true
    → idle a (cancel_found clock reason id (find_operation id ops) ops) ≡ true
cancel_found-idle clock reason a id ops h = elim (bytes_eq-cases a id) [
  | inl (e, same) ↦
      subst (λ x. idle x (cancel_found clock reason id (find_operation id ops) ops) ≡ true)
        (sym same) (cancel_found-at clock reason id (find_operation id ops) ops refl)
  | inr e ↦
      ap (λ o. not (passes active o))
        (cancel_found-other clock reason a id (find_operation id ops) ops e)
      ∙ h
]

cancel_all-idle :
    (clock : Clock) (reason a : Bytes) (ids : List Bytes) (ops : Operations)
    → idle a ops ≡ true
    → idle a (cancel_all clock reason ids ops) ≡ true
unfolding cancel_all
cancel_all-idle clock reason a [] ops h = h
cancel_all-idle clock reason a (id ∷ ids) ops h =
    cancel_all-idle clock reason a ids (cancel_found clock reason id (find_operation id ops) ops)
      (cancel_found-idle clock reason a id ops h)

-- The loop leaves nothing active that it passes over.
pub cancel_all-cancels :
    (clock : Clock) (reason a : Bytes) (ids : List Bytes) (ops : Operations)
    → any (bytes_eq a) ids ≡ true
    → idle a (cancel_all clock reason ids ops) ≡ true
unfolding cancel_all
cancel_all-cancels clock reason a [] ops h = absurd (cc h)
cancel_all-cancels clock reason a (id ∷ ids) ops h = elim (bytes_eq-cases a id) [
  | inl (e, same) ↦
      cancel_all-idle clock reason a ids (cancel_found clock reason id (find_operation id ops) ops)
        (subst (λ x. idle x (cancel_found clock reason id (find_operation id ops) ops) ≡ true)
          (sym same) (cancel_found-at clock reason id (find_operation id ops) ops refl))
  | inr e ↦
      cancel_all-cancels clock reason a ids
        (cancel_found clock reason id (find_operation id ops) ops) (ground (arith, h, e))
]
