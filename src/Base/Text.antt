-- ===== src/Base/Text.antt =====
-- What the sources use of `strings`, `bytes` and `strconv`.
use Prim.Native.Nat.{suc, zero, ℕ, ◌%◌, ◌*◌, ◌+◌, ◌-◌, ◌/◌}
use mathlib.Core.Bool.{Bool, false, true, ◌&&◌, ◌||◌}
use mathlib.Core.List.{List, [], ◌++◌, ◌∷◌}
use mathlib.Core.Option.{Option, none, some}
use nudge.Base.Bytes.{Bytes, has_prefix, is_empty}
use nudge.Base.Int.{negsuc, pos, ℤ}
use nudge.Base.Lists.{length}
use nudge.Base.Tests.{if◌then◌else◌, leb, ltb, ◌==◌}
use nudge.Base.Utf8.{within}

-- The bytes of the white-space rune (`unicode.IsSpace`) that a text starts with; 0 if none.
unfoldable pub space_len : Bytes → ℕ
space_len [] = 0
space_len (a ∷ []) = if within 9 13 a || a == 0x20 then 1 else 0
space_len (a ∷ b ∷ []) =
    if within 9 13 a || a == 0x20 then 1 else if a == 0xC2 && (b == 0x85 || b == 0xA0) then 2 else 0
space_len (a ∷ b ∷ c ∷ s) =
    if within 9 13 a || a == 0x20
    then 1
    else if a == 0xC2 && (b == 0x85 || b == 0xA0)
    then 2
    else if a == 0xE1 && b == 0x9A && c == 0x80
        || a == 0xE2 && b == 0x80 && (within 0x80 0x8A c || c == 0xA8 || c == 0xA9 || c == 0xAF)
        || a == 0xE2 && b == 0x81 && c == 0x9F
        || a == 0xE3 && b == 0x80 && c == 0x80
    then 3
    else 0

-- The text is white space; the number counts the bytes of a rune still to be passed over.
all_space_from : ℕ → Bytes → Bool
all_space_from skip [] = true
all_space_from (suc skip) (c ∷ s) = all_space_from skip s
all_space_from zero (c ∷ s) =
    let n = space_len (c ∷ s) in
    let rest = all_space_from (n - 1) s in if n == 0 then false else rest

-- `strings.TrimSpace(s) == ""`.
unfoldable pub all_space : Bytes → Bool
unfolding all_space_from space_len
all_space s = all_space_from 0 s

trim_left_from : ℕ → Bytes → Bytes
trim_left_from skip [] = []
trim_left_from (suc skip) (c ∷ s) = trim_left_from skip s
trim_left_from zero (c ∷ s) =
    let n = space_len (c ∷ s) in
    let rest = trim_left_from (n - 1) s in if n == 0 then c ∷ s else rest

trim_right : Bytes → Bytes
unfolding all_space
trim_right [] = []
trim_right (c ∷ s) = if all_space (c ∷ s) then [] else c ∷ trim_right s

-- `strings.TrimSpace` and `bytes.TrimSpace`.
unfoldable pub trim_space : Bytes → Bytes
unfolding trim_left_from trim_right space_len
trim_space s = trim_right (trim_left_from 0 s)

-- `strings.TrimLeft(s, " \t")`.
unfoldable pub trim_left_blanks : Bytes → Bytes
trim_left_blanks [] = []
trim_left_blanks (c ∷ s) =
    let rest = trim_left_blanks s in if c == b' ' || c == b'\t' then rest else c ∷ s

abbrev emit_field : Bytes → List Bytes → List Bytes
emit_field [] fs = fs
emit_field (c ∷ s) fs = (c ∷ s) ∷ fs

fields_from : ℕ → Bytes → Bytes → List Bytes
fields_from skip cur [] = emit_field cur []
fields_from (suc skip) cur (c ∷ s) = fields_from skip cur s
fields_from zero cur (c ∷ s) =
    let n = space_len (c ∷ s) in
    let rest = fields_from (n - 1) (if n == 0 then cur ++ c ∷ [] else []) s in
    if n == 0 then rest else emit_field cur rest

-- `strings.Fields`.
unfoldable pub fields : Bytes → List Bytes
unfolding fields_from space_len
fields s = fields_from 0 [] s

-- `strings.Index(s, sep)`, `none` for -1.
unfoldable pub index_of : Bytes → Bytes → Option ℕ
index_of sep [] = if is_empty sep then some 0 else none
index_of sep (c ∷ s) =
    let rest = index_of sep s in
    if has_prefix (c ∷ s) sep then some 0 else elim rest [ none ↦ none | some i ↦ some (suc i) ]

-- `strings.LastIndex(s, sep)`, `none` for -1.
unfoldable pub last_index_of : Bytes → Bytes → Option ℕ
last_index_of sep [] = if is_empty sep then some 0 else none
last_index_of sep (c ∷ s) = elim (last_index_of sep s) [
  | some i ↦ some (suc i)
  | none ↦ if has_prefix (c ∷ s) sep then some 0 else none
]

abbrev add_to_first : ℕ → List Bytes → List Bytes
add_to_first c [] = (c ∷ []) ∷ []
add_to_first c (f ∷ fs) = (c ∷ f) ∷ fs

-- The number counts the bytes of a separator still to be passed over.
split_from : Bytes → ℕ → Bytes → List Bytes
split_from sep skip [] = [] ∷ []
split_from sep (suc skip) (c ∷ s) = split_from sep skip s
split_from sep zero (c ∷ s) =
    let hit = has_prefix (c ∷ s) sep in
    let rest = split_from sep (if hit then length sep - 1 else 0) s in
    if hit then [] ∷ rest else add_to_first c rest

-- `strings.Split(s, sep)` for a separator that is not empty.
unfoldable pub split : Bytes → Bytes → List Bytes
unfolding split_from
split s sep = split_from sep 0 s

-- The value of a run of digits in a base up to ten, after `acc`; `none` at any other byte.
unfoldable pub digits_value : ℕ → ℕ → Bytes → Option ℕ
digits_value base acc [] = some acc
digits_value base acc (c ∷ s) =
    let rest = digits_value base (acc * base + (c - b'0')) s in
    if leb b'0' c && ltb c (b'0' + base) then rest else none

abbrev below : ℕ → Option ℕ → Option ℕ
below limit none = none
below limit (some n) = if ltb n limit then some n else none

-- `strconv.ParseUint(s, base, w)` with `limit = 2 ^ w`, without the errors' texts.
unfoldable pub parse_uint : ℕ → ℕ → Bytes → Option ℕ
unfolding digits_value
parse_uint base limit [] = none
parse_uint base limit (c ∷ s) = below limit (digits_value base 0 (c ∷ s))

abbrev negate : Option ℕ → Option ℤ
negate none = none
negate (some n) = if n == 0 then some (pos 0) else some (negsuc (n - 1))

abbrev nonneg : Option ℕ → Option ℤ
nonneg none = none
nonneg (some n) = some (pos n)

-- `strconv.ParseInt(s, 10, w)` and `strconv.Atoi` with `half = 2 ^ (w - 1)`.
unfoldable pub parse_int : ℕ → Bytes → Option ℤ
unfolding parse_uint
parse_int half [] = none
parse_int half (c ∷ s) =
    if c == b'-'
    then negate (parse_uint 10 (half + 1) s)
    else if c == b'+'
    then nonneg (parse_uint 10 half s)
    else nonneg (parse_uint 10 half (c ∷ s))

-- The digits of `n`, least significant first in the recursion; the fuel bounds their number.
format_from : ℕ → ℕ → ℕ → Bytes → Bytes
format_from base zero n out = out
format_from base (suc fuel) n out =
    let digit = b'0' + n % base in
    let rest = format_from base fuel (n / base) (digit ∷ out) in
    if ltb n base then digit ∷ out else rest

-- `strconv.FormatUint(n, base)` for a base up to ten; `n` has at most `n + 1` digits.
unfoldable pub format_uint : ℕ → ℕ → Bytes
unfolding format_from
format_uint base n = format_from base (suc n) n []
