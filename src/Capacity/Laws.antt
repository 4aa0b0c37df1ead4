-- ===== src/Capacity/Laws.antt =====
-- Checked arithmetic returns the exact result or reports the overflow.
use nudge.Base.{
  All, List, [], ap, arith, if◌then◌else◌, ltb, sym, ℕ, ◌%◌, ◌*◌, ◌+◌, ◌/◌, ◌<◌, ◌∙◌, ◌∷◌, ◌≡◌, ◌≤◌,
}
use nudge.Base.Result.{Result, err, ok}
use nudge.Capacity.{
  CapacityError, VolumePeak, add, add_from, charge, max_u64, mul, other_classes, overflow, u64_mod,
}

abbrev pub sum : List ℕ → ℕ
sum (n ∷ ns) = n + sum ns
sum [] = 0

abbrev pub AreU64 : List ℕ → Type 0
AreU64 = All (λ x. x < u64_mod)

-- The answer that exact arithmetic with result `n` gives on 64 bits.
abbrev pub checked : ℕ → Result CapacityError ℕ
checked n = if ltb n u64_mod then ok n else err overflow

add_from-checked :
    (t : ℕ) (xs : List ℕ) → t < u64_mod → AreU64 xs → add_from t xs ≡ checked (t + sum xs)
unfolding add_from
add_from-checked t [] h k = ground arith
add_from-checked t (x ∷ xs) h k = ground (arith, add_from-checked ((t + x) % u64_mod) xs)

-- The sum of one or more 64-bit quantities is exact when it fits, and an overflow otherwise.
pub add-checked : (x : ℕ) (xs : List ℕ) → AreU64 (x ∷ xs) → add (x ∷ xs) ≡ checked (sum (x ∷ xs))
unfolding add
add-checked x xs k = add_from-checked 0 (x ∷ xs) (omega arith) k ∙ ap checked (omega arith)

lt-mul_of_div_lt : (m v c : ℕ) → 0 < c → m / c < v → m < v * c
lt-mul_of_div_lt m v c p h = grind arith

mul-le_of_le_div : (m v c : ℕ) → v ≤ m / c → v * c ≤ m
mul-le_of_le_div m v c h = grind arith

-- The product of two 64-bit numbers is exact when it fits, and an overflow otherwise.
pub mul-checked : (v c : ℕ) → v < u64_mod → c < u64_mod → mul v c ≡ checked (v * c)
unfolding mul
mul-checked v c h k = ground (arith, lt-mul_of_div_lt max_u64 v c, mul-le_of_le_div max_u64 v c)

checked-eq-ok : (m n : ℕ) → checked m ≡ ok n → n ≡ m
checked-eq-ok m n e = ground arith

-- A charge that is granted, over 64-bit quantities, is the sum of all nine classes, so it covers
-- the protected reserve.
pub charge-sum :
    (p : VolumePeak) (n : ℕ)
    → AreU64 (p.inputs ∷ other_classes p)
    → charge p ≡ ok n
    → (p.reserve ≤ n)
      × (n
          ≡ p.inputs + p.temporaries + p.finals + p.copy_on_write + p.database_wal + p.atomic_output
            + p.concurrent_reservations + p.reserve + p.retained_delta)
unfolding charge
charge-sum p n h e = omega (
  arith,
  checked-eq-ok (sum (p.inputs ∷ other_classes p)) n
      (sym (add-checked p.inputs (other_classes p) h) ∙ e),
)
