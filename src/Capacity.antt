-- ===== src/Capacity.antt =====
-- internal/capacity/arithmetic.go: checked sums and products of byte quantities. A `Bytes` or
-- `uint64` is a number below 2 ^ 64, and each operation keeps its wrap-around.
pub mod Laws
use nudge.Base.{List, [], if◌then◌else◌, ltb, not, ℕ, ◌%◌, ◌&&◌, ◌*◌, ◌+◌, ◌-◌, ◌/◌, ◌==◌, ◌^◌, ◌∷◌}
use nudge.Base.Result.{Result, err, ok}

abbrev pub u64_mod : ℕ
u64_mod = 2 ^ 64

abbrev pub max_u64 : ℕ
max_u64 = 2 ^ 64 - 1

pub data CapacityError : Type 0 where
  invalid overflow : CapacityError

-- The loop of `Add`.
unfoldable pub add_from : ℕ → List ℕ → Result CapacityError ℕ
add_from total [] = ok total
add_from total (value ∷ values) =
    let rest = add_from ((total + value) % u64_mod) values in
    if ltb (max_u64 - total) value then err overflow else rest

-- `Add`.
unfoldable pub add : List ℕ → Result CapacityError ℕ
unfolding add_from
add [] = err invalid
add (value ∷ values) = add_from 0 (value ∷ values)

-- `Mul`.
unfoldable pub mul : ℕ → ℕ → Result CapacityError ℕ
mul value count =
    if not (count == 0) && ltb (max_u64 / count) value
    then err overflow
    else ok (value * count % u64_mod)

pub record VolumePeak : Type 0 where
  pub inputs : ℕ
  pub temporaries : ℕ
  pub finals : ℕ
  pub copy_on_write : ℕ
  pub database_wal : ℕ
  pub atomic_output : ℕ
  pub concurrent_reservations : ℕ
  pub reserve : ℕ
  pub retained_delta : ℕ

-- The classes that `Charge` adds to the inputs.
abbrev pub other_classes : VolumePeak → List ℕ
other_classes p =
    p.temporaries ∷ p.finals ∷ p.copy_on_write ∷ p.database_wal ∷ p.atomic_output
    ∷ p.concurrent_reservations ∷ p.reserve ∷ p.retained_delta ∷ []

-- `VolumePeak.Charge`.
unfoldable pub charge : VolumePeak → Result CapacityError ℕ
charge p = add (p.inputs ∷ other_classes p)
