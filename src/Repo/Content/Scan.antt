-- ===== src/Repo/Content/Scan.antt =====
-- What the loop over the runes in internal/domain/repository/content_class.go leaves to be read.
use nudge.Base.{
  Bool, [], ap, arith, false, if◌then◌else◌, inl, inr, length, not, refl, suc, true, zero, ℕ, ◌&&◌,
  ◌<◌, ◌∙◌, ◌∷◌, ◌≡◌, ◌≤◌, ◌⊎◌,
}
use nudge.Base.Bytes.{Bytes, is_empty}
use nudge.Base.Utf8.{
  Expect, RuneScan, full, invalid, never, rune_start, scan_at, scan_rest, scan_rune, short,
  utf8_run, utf8_run-never, utf8_step,
}
use nudge.Repo.Content.{take_runes}

abbrev pub is_start : Expect → Bool
is_start rune_start = true
is_start _ = false

abbrev is_never : Expect → Bool
is_never never = true
is_never _ = false

scan_at-full :
    (e : Expect) (s rest : Bytes) (m : RuneScan)
    → scan_at e s m ≡ full rest
    → ((e ≡ rune_start) × (s ≡ rest)) ⊎ (m ≡ full rest)
scan_at-full e s rest m h = ground arith

scan_rest-full :
    (e : Expect) (s rest : Bytes)
    → scan_rest e s ≡ full rest
    → (utf8_run e s ≡ utf8_run rune_start rest) × (length rest ≤ length s)
unfolding scan_rest
scan_rest-full e [] rest h = elim (scan_at-full e [] rest short h) [
  | inl (p, q) ↦ ground arith
  | inr m ↦ absurd (cc m)
]
scan_rest-full e (c ∷ s) rest h =
    elim (scan_at-full e (c ∷ s) rest (scan_rest (utf8_step e c) s) h) [
      | inl (p, q) ↦ (rw p (ap (utf8_run rune_start) q), omega (arith, ap length q))
      | inr m ↦ let (r, k) = scan_rest-full (utf8_step e c) s rest m in (r, omega arith)
    ]

scan_at-invalid :
    (e : Expect) (s : Bytes) (m : RuneScan) → scan_at e s m ≡ invalid → (e ≡ never) ⊎ (m ≡ invalid)
scan_at-invalid e s m h = ground arith

scan_rest-invalid : (e : Expect) (s : Bytes) → scan_rest e s ≡ invalid → utf8_run e s ≡ never
unfolding scan_rest
scan_rest-invalid e [] h = ground arith
scan_rest-invalid e (c ∷ s) h = elim (scan_at-invalid e (c ∷ s) (scan_rest (utf8_step e c) s) h) [
  | inl p ↦ rw p (utf8_run-never s)
  | inr m ↦ scan_rest-invalid (utf8_step e c) s m
]

scan_at-short :
    (e : Expect) (s : Bytes) (m : RuneScan)
    → scan_at e s m ≡ short
    → (is_start e ≡ false) × (m ≡ short)
scan_at-short e s m h = ground arith

scan_rest-short : (e : Expect) (s : Bytes) → scan_rest e s ≡ short → is_start (utf8_run e s) ≡ false
unfolding scan_rest
scan_rest-short e [] h = (scan_at-short e [] short h).0
scan_rest-short e (c ∷ s) h =
    scan_rest-short (utf8_step e c) s (scan_at-short e (c ∷ s) (scan_rest (utf8_step e c) s) h).1

pub scan_rune-full :
    (s rest : Bytes)
    → scan_rune s ≡ full rest
    → (utf8_run rune_start s ≡ utf8_run rune_start rest) × (length rest < length s)
unfolding scan_rune
scan_rune-full [] rest h = absurd (cc h)
scan_rune-full (c ∷ s) rest h =
    let (r, k) = scan_rest-full (utf8_step rune_start c) s rest h in (r, omega arith)

scan_rune-invalid : (s : Bytes) → scan_rune s ≡ invalid → utf8_run rune_start s ≡ never
unfolding scan_rune
scan_rune-invalid [] h = absurd (cc h)
scan_rune-invalid (c ∷ s) h = scan_rest-invalid (utf8_step rune_start c) s h

scan_rune-short :
    (c : ℕ) (s : Bytes) → scan_rune (c ∷ s) ≡ short → is_start (utf8_run rune_start (c ∷ s)) ≡ false
unfolding scan_rune
scan_rune-short c s h = scan_rest-short (utf8_step rune_start c) s h

pub RuneScan-cases : (r : RuneScan) → ((s : Bytes) × (r ≡ full s)) ⊎ (r ≡ invalid) ⊎ (r ≡ short)
RuneScan-cases (full s) = inl (s, refl)
RuneScan-cases invalid = inr (inl refl)
RuneScan-cases short = inr (inr refl)

-- What `take_runes` leaves stands for all that it was given.
abbrev pub IsRead : Bytes → Bytes × Bool → Type 0
IsRead s out =
    (utf8_run rune_start s ≡ (if out.1 then never else utf8_run rune_start out.0))
    × (is_start (utf8_run rune_start s) ≡ not out.1 && is_empty out.0)

pub IsRead-on :
    (s rest : Bytes) (out : Bytes × Bool)
    → utf8_run rune_start s ≡ utf8_run rune_start rest
    → IsRead rest out
    → IsRead s out
IsRead-on s rest out e (p, q) = (e ∙ p, ap is_start e ∙ q)

take_runes-nil : (n : ℕ) → take_runes n [] ≡ ([], false)
unfolding take_runes
take_runes-nil zero = refl
take_runes-nil (suc n) = refl

take_runes-full :
    (n c : ℕ) (s rest : Bytes)
    → scan_rune (c ∷ s) ≡ full rest
    → take_runes (suc n) (c ∷ s) ≡ take_runes n rest
unfolding take_runes
take_runes-full n c s rest p = ground arith

take_runes-invalid :
    (n c : ℕ) (s : Bytes) → scan_rune (c ∷ s) ≡ invalid → take_runes (suc n) (c ∷ s) ≡ ([], true)
unfolding take_runes
take_runes-invalid n c s p = ground arith

take_runes-short :
    (n c : ℕ) (s : Bytes) → scan_rune (c ∷ s) ≡ short → take_runes (suc n) (c ∷ s) ≡ (c ∷ s, false)
unfolding take_runes
take_runes-short n c s p = ground arith

pub take_runes-IsRead : (n : ℕ) (s : Bytes) → length s ≤ n → IsRead s (take_runes n s)
take_runes-IsRead n [] k = rw (take_runes-nil n) (refl, refl)
take_runes-IsRead zero (c ∷ s) k = absurd (omega arith)
take_runes-IsRead (suc n) (c ∷ s) k = elim (RuneScan-cases (scan_rune (c ∷ s))) [
  | inl (rest, p) ↦
      let (e, l) = scan_rune-full (c ∷ s) rest p in
      rw (take_runes-full n c s rest p)
        (IsRead-on (c ∷ s) rest (take_runes n rest) e (take_runes-IsRead n rest (omega arith)))
  | inr (inl p) ↦
      rw (take_runes-invalid n c s p)
        (scan_rune-invalid (c ∷ s) p, ap is_start (scan_rune-invalid (c ∷ s) p))
  | inr (inr p) ↦ rw (take_runes-short n c s p) (refl, scan_rune-short c s p)
]
