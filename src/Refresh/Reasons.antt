-- ===== src/Refresh/Reasons.antt =====
-- internal/app/change_hints.go: the reasons of a refresh, their bits, the hints and the requests.
pub mod Ordered
use nudge.Base.{
  Bool, List, Option, [], any, false, map, none, not, some, true, ℕ, ◌&&◌, ◌==◌, ◌||◌, ◌∷◌,
}
use nudge.Base.Bytes.{Bytes, bytes_eq}

pub data RefreshError : Type 0 where
  invalid_watched_set invalid_watch_hint invalid_refresh_request : RefreshError
  invalid_refresh_scheduler refresh_not_active : RefreshError

-- `reason_other s` is a string `s` that is no constant.
pub data RefreshReason : Type 0 where
  filesystem_change explicit_refresh app_resume provider_turn proposal_reset : RefreshReason
  proposal_applied proposal_rejected head_changed maximum_age watcher_overflow : RefreshReason
  watcher_error watcher_closed watched_root_replaced watched_set_changed : RefreshReason
  rescan_required : RefreshReason
  reason_other : Bytes → RefreshReason

-- `refreshReasonOrder`.
abbrev pub refresh_reason_order : List RefreshReason
refresh_reason_order =
    filesystem_change ∷ explicit_refresh ∷ app_resume ∷ provider_turn ∷ proposal_reset
    ∷ proposal_applied ∷ proposal_rejected ∷ head_changed ∷ maximum_age ∷ watcher_overflow
    ∷ watcher_error ∷ watcher_closed ∷ watched_root_replaced ∷ watched_set_changed ∷ rescan_required
    ∷ []

-- The index of a reason in that order; `none` for a string that is no constant.
abbrev pub reason_index : RefreshReason → Option ℕ
reason_index filesystem_change = some 0
reason_index explicit_refresh = some 1
reason_index app_resume = some 2
reason_index provider_turn = some 3
reason_index proposal_reset = some 4
reason_index proposal_applied = some 5
reason_index proposal_rejected = some 6
reason_index head_changed = some 7
reason_index maximum_age = some 8
reason_index watcher_overflow = some 9
reason_index watcher_error = some 10
reason_index watcher_closed = some 11
reason_index watched_root_replaced = some 12
reason_index watched_set_changed = some 13
reason_index rescan_required = some 14
reason_index (reason_other s) = none

-- `==` on reasons.
abbrev pub index_eq : Option ℕ → Option ℕ → Bool
index_eq (some i) (some j) = i == j
index_eq _ _ = false

unfoldable pub reason_eq : RefreshReason → RefreshReason → Bool
reason_eq (reason_other s) (reason_other t) = bytes_eq s t
reason_eq r t = index_eq (reason_index r) (reason_index t)

-- A `uint32` of which only the bits of the reasons are ever set, as these bits, the lowest first.
abbrev pub Bits : Type 0
Bits = List Bool

-- `refreshReasonBit`: the bit at the index of the reason, and no bit for another string.
unfoldable pub refresh_reason_bit : RefreshReason → Bits
refresh_reason_bit reason = map (λ value. reason_eq value reason) refresh_reason_order

-- `a | b`, `bits != 0` and `a < b`.
abbrev pub or_bits : Bits → Bits → Bits
or_bits [] ys = ys
or_bits (x ∷ xs) [] = x ∷ xs
or_bits (x ∷ xs) (y ∷ ys) = (x || y) ∷ or_bits xs ys

abbrev pub non_zero : Bits → Bool
non_zero = any (λ b. b)

abbrev pub bool_eq : Bool → Bool → Bool
bool_eq true b = b
bool_eq false b = not b

abbrev pub bits_eq : Bits → Bits → Bool
bits_eq [] ys = not (non_zero ys)
bits_eq (x ∷ xs) [] = not x && bits_eq xs []
bits_eq (x ∷ xs) (y ∷ ys) = bool_eq x y && bits_eq xs ys

abbrev pub bits_ltb : Bits → Bits → Bool
bits_ltb xs [] = false
bits_ltb [] (y ∷ ys) = y || non_zero ys
bits_ltb (x ∷ xs) (y ∷ ys) = bits_ltb xs ys || bits_eq xs ys && not x && y

-- `validRefreshReason`.
unfoldable pub valid_refresh_reason : RefreshReason → Bool
valid_refresh_reason reason = non_zero (refresh_reason_bit reason)

-- The reasons whose bits are set.
abbrev pub selected : Bool → RefreshReason → List RefreshReason → List RefreshReason
selected true reason rest = reason ∷ rest
selected false reason rest = rest

unfoldable pub reasons_of : Bits → List RefreshReason → List RefreshReason
reasons_of [] reasons = []
reasons_of (b ∷ bits) [] = []
reasons_of (b ∷ bits) (reason ∷ reasons) = selected b reason (reasons_of bits reasons)

-- `reasonsFromBits`.
unfoldable pub reasons_from_bits : Bits → List RefreshReason
reasons_from_bits bits = reasons_of bits refresh_reason_order

-- `reason == previous`, and the bit of the previous reason above the bit of the next.
abbrev pub out_of_order : Option RefreshReason → RefreshReason → Bool
out_of_order none reason = false
out_of_order (some previous) reason =
    reason_eq reason previous || bits_ltb (refresh_reason_bit reason) (refresh_reason_bit previous)

-- The loop of `RefreshRequest.Validate`.
unfoldable pub reasons_accepted : Option RefreshReason → List RefreshReason → Bool
reasons_accepted previous [] = true
reasons_accepted previous (reason ∷ reasons) =
    valid_refresh_reason reason
    && not (out_of_order previous reason)
    && reasons_accepted (some reason) reasons
