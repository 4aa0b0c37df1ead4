-- ===== src/Presentation/Fuel.antt =====
-- The loop over the runes of a text, internal/presentation/terminal_text.go, has enough fuel.
use nudge.Base.{
  [], ap, arith, inl, inr, length, none, refl, some, suc, sym, take, zero, ℕ, ◌-◌, ◌∙◌, ◌∷◌, ◌≡◌,
  ◌≤◌,
}
use nudge.Base.Bytes.{Bytes}
use nudge.Base.Utf8.{full, invalid, scan_rune, short}
use nudge.Presentation.{rune_value, runes_from}
use nudge.Repo.Content.Scan.{RuneScan-cases, scan_rune-full}

runes_from-full :
    (n c : ℕ) (s rest : Bytes)
    → scan_rune (c ∷ s) ≡ full rest
    → runes_from (suc n) (c ∷ s)
      ≡ some (rune_value (take (suc (length s) - length rest) (c ∷ s))) ∷ runes_from n rest
unfolding runes_from
runes_from-full n c s rest h = rw (h, runes_from) refl

runes_from-invalid :
    (n c : ℕ) (s : Bytes)
    → scan_rune (c ∷ s) ≡ invalid
    → runes_from (suc n) (c ∷ s) ≡ none ∷ runes_from n s
unfolding runes_from
runes_from-invalid n c s h = rw (h, runes_from) refl

runes_from-short :
    (n c : ℕ) (s : Bytes)
    → scan_rune (c ∷ s) ≡ short
    → runes_from (suc n) (c ∷ s) ≡ none ∷ runes_from n s
unfolding runes_from
runes_from-short n c s h = rw (h, runes_from) refl

-- More fuel than there are bytes changes nothing.
pub runes_from-enough :
    (n m : ℕ) (s : Bytes) → length s ≤ n → length s ≤ m → runes_from n s ≡ runes_from m s
unfolding runes_from
runes_from-enough zero zero [] h k = refl
runes_from-enough zero (suc m) [] h k = refl
runes_from-enough (suc n) zero [] h k = refl
runes_from-enough (suc n) (suc m) [] h k = refl
runes_from-enough zero m (c ∷ s) h k = absurd (omega arith)
runes_from-enough (suc n) zero (c ∷ s) h k = absurd (omega arith)
runes_from-enough (suc n) (suc m) (c ∷ s) h k = elim (RuneScan-cases (scan_rune (c ∷ s))) [
  | inl (rest, p) ↦
      let (q, l) = scan_rune-full (c ∷ s) rest p in
      runes_from-full n c s rest p
      ∙ ap (λ rs. some (rune_value (take (suc (length s) - length rest) (c ∷ s))) ∷ rs)
          (runes_from-enough n m rest (omega arith) (omega arith))
      ∙ sym (runes_from-full m c s rest p)
  | inr (inl p) ↦
      runes_from-invalid n c s p
      ∙ ap (λ rs. none ∷ rs) (runes_from-enough n m s (omega arith) (omega arith))
      ∙ sym (runes_from-invalid m c s p)
  | inr (inr p) ↦
      runes_from-short n c s p
      ∙ ap (λ rs. none ∷ rs) (runes_from-enough n m s (omega arith) (omega arith))
      ∙ sym (runes_from-short m c s p)
]
