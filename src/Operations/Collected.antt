-- ===== src/Operations/Collected.antt =====
-- The ids that the loops of internal/app/reducer.go collect from the map of operations.
use mathlib.Core.Path.{subst}
use nudge.Base.{
  Bool, Bool-cases, List, [], any, ap, arith, false, if◌then◌else◌, inl, inr, is_some, refl, some,
  sym, true, ◌&&◌, ◌||◌, ◌∙◌, ◌∷◌, ◌≡◌,
}
use nudge.Base.Bytes.{Bytes, bytes_eq, bytes_eq_sound}
use nudge.Operations.{
  OperationState, Operations, find_operation, ids_where, insert_id, passes, sort_ids,
}
use nudge.Operations.Table.{bytes_eq-cases}

first_of : (a b : Bool) → (a && b) ≡ true → a ≡ true
first_of a b h = ground (arith, h)

second_of : (a b : Bool) → (a && b) ≡ true → b ≡ true
second_of a b h = ground (arith, h)

second_true : (a : Bool) → (a || true) ≡ true
second_true true = refl
second_true false = refl

-- The ids that are collected, in any order, are those whose operation passes.
any-insert_id :
    (a x : Bytes) (xs : List Bytes)
    → any (bytes_eq a) (insert_id x xs) ≡ (bytes_eq a x || any (bytes_eq a) xs)
unfolding insert_id
any-insert_id a x [] = refl
any-insert_id a x (y ∷ ys) = ground (arith, any-insert_id a x ys)

pub any-sort_ids :
    (a : Bytes) (xs : List Bytes) → any (bytes_eq a) (sort_ids xs) ≡ any (bytes_eq a) xs
unfolding sort_ids
any-sort_ids a [] = refl
any-sort_ids a (x ∷ xs) =
    any-insert_id a x (sort_ids xs) ∙ ap (λ t. bytes_eq a x || t) (any-sort_ids a xs)

any_if :
    (a key : Bytes) (t : Bool) (rest : List Bytes)
    → any (bytes_eq a) (if t then key ∷ rest else rest)
      ≡ (t && bytes_eq a key || any (bytes_eq a) rest)
any_if a key true rest = refl
any_if a key false rest = refl

pub collected_passes :
    (test : OperationState → Bool) (a : Bytes) (all_ops ops : Operations)
    → any (bytes_eq a) (ids_where test all_ops ops) ≡ true
    → passes test (find_operation a all_ops) ≡ true
unfolding ids_where
collected_passes test a all_ops [] h = absurd (cc h)
collected_passes test a all_ops ((key, o) ∷ ops) h =
    let t = passes test (find_operation key all_ops) in
    let rest = ids_where test all_ops ops in
    let either : (t && bytes_eq a key || any (bytes_eq a) rest) ≡ true =
      sym (any_if a key t rest) ∙ h in
    elim (Bool-cases (any (bytes_eq a) rest)) [
      | inl later ↦ collected_passes test a all_ops ops later
      | inr none_later ↦
          let first : (t && bytes_eq a key) ≡ true = ground (arith, either, none_later) in
          subst (λ x. passes test (find_operation x all_ops) ≡ true)
            (sym (bytes_eq_sound a key (second_of t (bytes_eq a key) first)))
            (first_of t (bytes_eq a key) first)
    ]

pub found_collected :
    (test : OperationState → Bool) (a : Bytes) (all_ops ops : Operations)
    → passes test (find_operation a all_ops) ≡ true
    → is_some (find_operation a ops) ≡ true
    → any (bytes_eq a) (ids_where test all_ops ops) ≡ true
unfolding ids_where find_operation
found_collected test a all_ops [] h k = absurd (cc k)
found_collected test a all_ops ((key, o) ∷ ops) h k =
    let rest = ids_where test all_ops ops in
    elim (bytes_eq-cases a key) [
      | inl (e, same) ↦
          let passing : passes test (find_operation key all_ops) ≡ true =
            subst (λ x. passes test (find_operation x all_ops) ≡ true) same h in
          any_if a key (passes test (find_operation key all_ops)) rest ∙ rw (passing, e) refl
      | inr e ↦
          any_if a key (passes test (find_operation key all_ops)) rest
          ∙ rw
              (found_collected test a all_ops ops h
                (subst (λ t. is_some (if t then some o else find_operation a ops) ≡ true) e k))
              (second_true (passes test (find_operation key all_ops) && bytes_eq a key))
    ]
