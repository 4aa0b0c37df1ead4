-- ===== src/Review/Intent/Sorted.antt =====
-- What the loop over the expected paths of an intent in internal/domain/review/proposal.go accepts.
use nudge.Base.{
  All, List, Option, [], arith, false, length, none, refl, some, true, ℕ, ◌+◌, ◌∷◌, ◌≡◌, ◌≤◌,
}
use nudge.Base.Bytes.{Bytes, bytes_ltb}
use nudge.Base.Result.{is_ok, ok}
use nudge.Repo.Path.{validate_repo_path}
use nudge.Review.Intent.{
  ProposalIntent, max_proposal_expected_path_bytes, max_proposal_expected_path_total_bytes,
  out_of_order, paths_accepted, validate_intent,
}

bytes_ltb_irrefl : (s : Bytes) → bytes_ltb s s ≡ false
unfolding bytes_ltb
bytes_ltb_irrefl [] = refl
bytes_ltb_irrefl (c ∷ s) = ground (arith, bytes_ltb_irrefl s)

pub bytes_ltb_trans :
    (s t u : Bytes) → bytes_ltb s t ≡ true → bytes_ltb t u ≡ true → bytes_ltb s u ≡ true
unfolding bytes_ltb
bytes_ltb_trans [] [] u h k = absurd (cc h)
bytes_ltb_trans [] (b ∷ t) [] h k = absurd (cc k)
bytes_ltb_trans [] (b ∷ t) (c ∷ u) h k = refl
bytes_ltb_trans (a ∷ s) [] u h k = absurd (cc h)
bytes_ltb_trans (a ∷ s) (b ∷ t) [] h k = absurd (cc k)
bytes_ltb_trans (a ∷ s) (b ∷ t) (c ∷ u) h k = ground (arith, bytes_ltb_trans s t u)

-- Every path is below all that follow it.
abbrev pub IsIncreasing : List Bytes → Type 0
IsIncreasing [] = Unit
IsIncreasing (x ∷ xs) = All (λ y. bytes_ltb x y ≡ true) xs × IsIncreasing xs

abbrev pub total_bytes : List Bytes → ℕ
total_bytes [] = 0
total_bytes (x ∷ xs) = length x + total_bytes xs

abbrev pub IsExpectedPath : Bytes → Type 0
IsExpectedPath x =
    (is_ok (validate_repo_path x) ≡ true) × (length x ≤ max_proposal_expected_path_bytes)

paths_accepted-cons :
    (n : ℕ) (seen : List Bytes) (p : Option Bytes) (x : Bytes) (xs : List Bytes)
    → paths_accepted n seen p (x ∷ xs) ≡ ok tt
    → IsExpectedPath x
      × (n + length x ≤ max_proposal_expected_path_total_bytes)
      × (out_of_order p x ≡ false)
      × (paths_accepted (n + length x) (x ∷ seen) (some x) xs ≡ ok tt)
unfolding paths_accepted
paths_accepted-cons n seen p x xs h = ground arith

All-above :
    (a b : Bytes) (xs : List Bytes)
    → bytes_ltb a b ≡ true
    → All (λ y. bytes_ltb b y ≡ true) xs
    → All (λ y. bytes_ltb a y ≡ true) xs
All-above a b [] h k = tt
All-above a b (x ∷ xs) h (k, ks) = (bytes_ltb_trans a b x h k, All-above a b xs h ks)

-- After a path, the loop accepts only paths above it.
accepted_above :
    (n : ℕ) (seen : List Bytes) (a : Bytes) (xs : List Bytes)
    → paths_accepted n seen (some a) xs ≡ ok tt
    → All (λ y. bytes_ltb a y ≡ true) xs × IsIncreasing xs
accepted_above n seen a [] h = (tt, tt)
accepted_above n seen a (x ∷ xs) h =
    let (e, s, o, r) = paths_accepted-cons n seen (some a) x xs h in
    let (above, inc) = accepted_above (n + length x) (x ∷ seen) x xs r in
    let less : bytes_ltb a x ≡ true = ground (arith, o) in
    ((less, All-above a x xs less above), (above, inc))

accepted_bounds :
    (n : ℕ) (seen : List Bytes) (p : Option Bytes) (xs : List Bytes)
    → n ≤ max_proposal_expected_path_total_bytes
    → paths_accepted n seen p xs ≡ ok tt
    → All IsExpectedPath xs × (n + total_bytes xs ≤ max_proposal_expected_path_total_bytes)
accepted_bounds n seen p [] k h = (tt, omega arith)
accepted_bounds n seen p (x ∷ xs) k h =
    let (e, s, o, r) = paths_accepted-cons n seen p x xs h in
    let (es, t) = accepted_bounds (n + length x) (x ∷ seen) (some x) xs s r in
    ((e, es), omega arith)

accepted-IsIncreasing :
    (n : ℕ) (seen xs : List Bytes) → paths_accepted n seen none xs ≡ ok tt → IsIncreasing xs
accepted-IsIncreasing n seen [] h = tt
accepted-IsIncreasing n seen (x ∷ xs) h =
    let (e, s, o, r) = paths_accepted-cons n seen none x xs h in
    accepted_above (n + length x) (x ∷ seen) x xs r

validate_intent-paths :
    (i : ProposalIntent)
    → validate_intent i ≡ ok tt
    → (length i.expected_paths ≤ 5000) × (paths_accepted 0 [] none i.expected_paths ≡ ok tt)
unfolding validate_intent
validate_intent-paths i h = ground arith

-- An accepted intent has at most 5,000 expected paths, each a repository path of at most 16 KiB
-- and together at most 512 KiB, in strictly increasing order: so no path is expected twice.
pub validate_intent-IsIncreasing :
    (i : ProposalIntent)
    → validate_intent i ≡ ok tt
    → (length i.expected_paths ≤ 5000)
      × All IsExpectedPath i.expected_paths
      × (total_bytes i.expected_paths ≤ 524288)
      × IsIncreasing i.expected_paths
validate_intent-IsIncreasing i h =
    let (c, k) = validate_intent-paths i h in
    let (es, t) = accepted_bounds 0 [] none i.expected_paths (omega arith) k in
    (c, es, omega (arith, t), accepted-IsIncreasing 0 [] i.expected_paths k)
