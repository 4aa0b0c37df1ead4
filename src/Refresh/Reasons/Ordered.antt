-- ===== src/Refresh/Reasons/Ordered.antt =====
-- The reasons that internal/app/change_hints.go reads from bits are in the order that it accepts.
use nudge.Base.{
  Bool, List, Option, [], all, arith, false, none, not, refl, some, true, ◌&&◌, ◌∷◌, ◌≡◌,
}
use nudge.Refresh.Reasons.{
  Bits, RefreshReason, out_of_order, reason_eq, reasons_accepted, reasons_from_bits, reasons_of,
  refresh_reason_bit, refresh_reason_order, valid_refresh_reason,
}

-- A reason may stand before another.
abbrev before_in_order : RefreshReason → RefreshReason → Bool
before_in_order first second = not (out_of_order (some first) second)

unfoldable each_before_rest : List RefreshReason → Bool
each_before_rest [] = true
each_before_rest (r ∷ rs) =
    valid_refresh_reason r && all (before_in_order r) rs && each_before_rest rs

order-each_before_rest : each_before_rest refresh_reason_order ≡ true
unfolding each_before_rest valid_refresh_reason refresh_reason_bit reason_eq
order-each_before_rest = refl

all-reasons_of :
    (p : RefreshReason → Bool) (bits : Bits) (rs : List RefreshReason)
    → all p rs ≡ true
    → all p (reasons_of bits rs) ≡ true
unfolding reasons_of
all-reasons_of p [] rs h = refl
all-reasons_of p (b ∷ bits) [] h = refl
all-reasons_of p (true ∷ bits) (r ∷ rs) h = ground (arith, all-reasons_of p bits rs)
all-reasons_of p (false ∷ bits) (r ∷ rs) h = ground (arith, all-reasons_of p bits rs)

each_before-reasons_of :
    (bits : Bits) (rs : List RefreshReason)
    → each_before_rest rs ≡ true
    → each_before_rest (reasons_of bits rs) ≡ true
unfolding reasons_of each_before_rest
each_before-reasons_of [] rs h = refl
each_before-reasons_of (b ∷ bits) [] h = refl
each_before-reasons_of (true ∷ bits) (r ∷ rs) h =
    ground (arith, all-reasons_of (before_in_order r) bits rs, each_before-reasons_of bits rs)
each_before-reasons_of (false ∷ bits) (r ∷ rs) h = ground (arith, each_before-reasons_of bits rs)

accepted_after :
    (previous : Option RefreshReason) (rs : List RefreshReason)
    → all (λ r. not (out_of_order previous r)) rs ≡ true
    → each_before_rest rs ≡ true
    → reasons_accepted previous rs ≡ true
unfolding each_before_rest reasons_accepted
accepted_after previous [] h k = refl
accepted_after previous (r ∷ rs) h k = ground (arith, accepted_after (some r) rs)

all_first : (rs : List RefreshReason) → all (λ r. not (out_of_order none r)) rs ≡ true
all_first [] = refl
all_first (r ∷ rs) = all_first rs

pub reasons_from_bits-accepted :
    (bits : Bits) → reasons_accepted none (reasons_from_bits bits) ≡ true
unfolding reasons_from_bits
reasons_from_bits-accepted bits =
    accepted_after none (reasons_of bits refresh_reason_order)
      (all_first (reasons_of bits refresh_reason_order))
      (each_before-reasons_of bits refresh_reason_order order-each_before_rest)
