-- ===== src/Diff/Quoted.antt =====
-- internal/diff/parser.go, `decodeCQuoted` and `takeQuotedToken`: paths that Git quotes as C strings.
pub mod RoundTrip
use nudge.Base.{
  Bool, Option, [], drop, if◌then◌else◌, leb, length, none, not, some, suc, zero, ℕ, ◌%◌, ◌&&◌, ◌*◌,
  ◌++◌, ◌+◌, ◌-◌, ◌==◌, ◌∷◌,
}
use nudge.Base.Bytes.{Bytes, has_prefix}
use nudge.Base.Result.{Result, err, fail_if, ok, ◌>>=◌, ◌>>◌}
use nudge.Base.Text.{trim_left_blanks}
use nudge.Diff.Limits.{PatchError, malformed}

abbrev pub quote : ℕ
quote = b'"'

abbrev pub backslash : ℕ
backslash = b'\\'

abbrev pub is_octal : ℕ → Bool
is_octal c = leb b'0' c && leb c b'7'

-- The inner `for` of an octal escape: at most `count` further digits, read into the value. The result
-- holds the value, the number of digits read and what follows them.
unfoldable pub octal_digits : ℕ → ℕ → Bytes → ℕ × ℕ × Bytes
octal_digits zero value s = (value, 0, s)
octal_digits (suc count) value [] = (value, 0, [])
octal_digits (suc count) value (c ∷ s) =
    let more = octal_digits count (value * 8 + (c - b'0')) s in
    if is_octal c then (more.0, suc more.1, more.2) else (value, 0, c ∷ s)

octal_escape : ℕ × ℕ × Bytes → Option (ℕ × ℕ × Bytes)
octal_escape (value, used, rest) = if value == 0 then none else some (value % 256, suc used, rest)

-- The `switch` on the byte after a backslash: the byte that it stands for, the bytes read and the
-- rest, or `none` for an error. An octal value is stored in one byte.
unfoldable pub escaped : Bytes → Option (ℕ × ℕ × Bytes)
unfolding octal_escape
escaped [] = none
escaped (c ∷ s) =
    if c == b'a'
    then some (7, 1, s)
    else if c == b'b'
    then some (8, 1, s)
    else if c == b'f'
    then some (12, 1, s)
    else if c == b'n'
    then some (10, 1, s)
    else if c == b'r'
    then some (13, 1, s)
    else if c == b't'
    then some (9, 1, s)
    else if c == b'v'
    then some (11, 1, s)
    else if c == backslash
    then some (backslash, 1, s)
    else if c == quote
    then some (quote, 1, s)
    else if is_octal c
    then octal_escape (octal_digits 2 (c - b'0') s)
    else none

-- The loop of `decodeCQuoted` at `index`, with `s` for `value[index:]` and `out` for `result`. Every
-- round passes over a byte, so fuel above the length of `s` is enough.
unfoldable pub decode_from : ℕ → Bytes → Bytes → ℕ → Result PatchError (Bytes × ℕ)
decode_from zero s out index = err malformed
decode_from (suc fuel) [] out index = err malformed
decode_from (suc fuel) (c ∷ s) out index =
    let plain = decode_from fuel s (out ++ c ∷ []) (index + 1) in
    let escape : Result PatchError (Bytes × ℕ) = elim (escaped s) [
      | none ↦ err malformed
      | some (byte, used, rest) ↦ decode_from fuel rest (out ++ byte ∷ []) (index + 1 + used)
    ] in
    if c == quote then ok (out, index + 1) else if not (c == backslash) then plain else escape

-- `decodeCQuoted`: the decoded bytes, and how many bytes of the text the token takes.
unfoldable pub decode_c_quoted : Bytes → Result PatchError (Bytes × ℕ)
decode_c_quoted [] = err malformed
decode_c_quoted (c ∷ s) = if c == quote then decode_from (suc (length s)) s [] 1 else err malformed

-- `takeQuotedToken`.
unfoldable pub take_quoted_token : Bytes → Result PatchError (Bytes × Bytes)
take_quoted_token value = do
  let v = trim_left_blanks value
  fail_if (not (has_prefix v (quote ∷ []))) malformed
  (decoded, consumed) ← decode_c_quoted v
  ok (decoded, drop consumed v)
