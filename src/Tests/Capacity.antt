-- ===== src/Tests/Capacity.antt =====
-- Sums and products near 2 ^ 64.
use nudge.Base.{[], arith, refl, ℕ, ◌+◌, ◌^◌, ◌∷◌, ◌≡◌, ◌≤◌}
use nudge.Base.Result.{err, ok}
use nudge.Capacity.{VolumePeak, add, charge, max_u64, mul, overflow}
use nudge.Capacity.Laws.{add-checked, charge-sum, mul-checked}

add-checked_example : add (max_u64 ∷ 1 ∷ []) ≡ err overflow
add-checked_example = add-checked max_u64 (1 ∷ []) (omega arith)

mul-checked_example : mul (2 ^ 32) (2 ^ 31) ≡ ok (2 ^ 63)
mul-checked_example = mul-checked (2 ^ 32) (2 ^ 31) (omega arith) (omega arith)

abbrev peak : VolumePeak
peak = record {
  inputs = 10;
  temporaries = 20;
  finals = 30;
  copy_on_write = 0;
  database_wal = 5;
  atomic_output = 7;
  concurrent_reservations = 0;
  reserve = 100;
  retained_delta = 1;
}

charge-peak : charge peak ≡ ok 173
unfolding charge add
charge-peak = refl

charge-sum_example : (100 ≤ 173) × (◌≡◌ {A = ℕ} 173 (10 + 20 + 30 + 0 + 5 + 7 + 0 + 100 + 1))
charge-sum_example = charge-sum peak 173 (omega arith) charge-peak
