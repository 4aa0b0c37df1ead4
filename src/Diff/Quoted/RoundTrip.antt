-- ===== src/Diff/Quoted/RoundTrip.antt =====
-- Git's own quoting of a path is decoded to that path.
use nudge.Base.{
  All, Bool-cases, Option, Option-cases, [], ap, append-nil, append_assoc, arith, if◌then◌else◌,
  inl, inr, leb, length, length-append, ltb, none, refl, some, suc, true, zero, ℕ, ◌%◌, ◌++◌, ◌+◌,
  ◌-◌, ◌/◌, ◌<◌, ◌==◌, ◌||◌, ◌∙◌, ◌∷◌, ◌≡◌, ◌≢◌,
}
use nudge.Base.Bytes.{Bytes}
use nudge.Base.Result.{ok}
use nudge.Diff.Quoted.{
  backslash, decode_c_quoted, decode_from, escaped, is_octal, octal_digits, octal_escape, quote,
}

-- How Git writes one byte of a quoted path (`quote_c_style`): a letter after a backslash for seven
-- control bytes, the quote and the backslash themselves after one, three octal digits for the other
-- bytes that are no printable ASCII.
octal_text : ℕ → Bytes
octal_text c = backslash ∷ (b'0' + c / 64) ∷ (b'0' + c / 8 % 8) ∷ (b'0' + c % 8) ∷ []

letter : ℕ → Option ℕ
letter c =
    if c == 7
    then some b'a'
    else if c == 8
    then some b'b'
    else if c == 9
    then some b't'
    else if c == 10
    then some b'n'
    else if c == 11
    then some b'v'
    else if c == 12
    then some b'f'
    else if c == 13
    then some b'r'
    else if c == quote
    then some quote
    else if c == backslash
    then some backslash
    else none

quote_byte : ℕ → Bytes
quote_byte c = elim (letter c) [
  | some l ↦ backslash ∷ l ∷ []
  | none ↦ if ltb c 0x20 || leb 0x7F c then octal_text c else c ∷ []
]

pub quote_bytes : Bytes → Bytes
quote_bytes [] = quote ∷ []
quote_bytes (c ∷ s) = quote_byte c ++ quote_bytes s

-- A path as Git writes it between quotes.
pub c_quoted : Bytes → Bytes
c_quoted s = quote ∷ quote_bytes s

-- The bytes that a path can hold.
abbrev pub IsPathByte : ℕ → Type 0
IsPathByte c = (0 < c) × (c < 256)

escaped-letter : (c l : ℕ) (s : Bytes) → letter c ≡ some l → escaped (l ∷ s) ≡ some (c, 1, s)
unfolding letter escaped
escaped-letter c l s e = ground arith

-- The value that three octal digits spell.
octal_digits-octal_text :
    (c : ℕ) (s : Bytes)
    → c < 256
    → octal_digits 2 (b'0' + c / 64 - b'0') ((b'0' + c / 8 % 8) ∷ (b'0' + c % 8) ∷ s) ≡ (c, 2, s)
unfolding octal_digits
octal_digits-octal_text c s h = ground arith

escaped-is_octal :
    (c : ℕ) (s : Bytes)
    → is_octal c ≡ true
    → escaped (c ∷ s) ≡ octal_escape (octal_digits 2 (c - b'0') s)
unfolding escaped
escaped-is_octal c s h = ground arith

octal_lead : (c : ℕ) → c < 256 → is_octal (b'0' + c / 64) ≡ true
octal_lead c h = ground arith

octal_escape-value : (c : ℕ) (s : Bytes) → IsPathByte c → octal_escape (c, 2, s) ≡ some (c, 3, s)
unfolding octal_escape
octal_escape-value c s h = ground arith

escaped-octal :
    (c : ℕ) (s : Bytes)
    → IsPathByte c
    → escaped ((b'0' + c / 64) ∷ (b'0' + c / 8 % 8) ∷ (b'0' + c % 8) ∷ s) ≡ some (c, 3, s)
escaped-octal c s h =
    escaped-is_octal (b'0' + c / 64) ((b'0' + c / 8 % 8) ∷ (b'0' + c % 8) ∷ s) (octal_lead c h.1)
    ∙ ap octal_escape (octal_digits-octal_text c s h.1)
    ∙ octal_escape-value c s h

-- A round of the decoder at a backslash.
decode_from-escape :
    (f c i n : ℕ) (s rest out : Bytes)
    → escaped s ≡ some (c, n, rest)
    → decode_from (suc f) (backslash ∷ s) out i ≡ decode_from f rest (out ++ c ∷ []) (i + 1 + n)
unfolding decode_from
decode_from-escape f c i n s rest out e = rw e

letter-none : (c : ℕ) → letter c ≡ none → (c ≢ quote) × (c ≢ backslash)
unfolding letter
letter-none c h = ground arith

decode_from-plain :
    (f c i : ℕ) (s out : Bytes)
    → c ≢ quote
    → c ≢ backslash
    → decode_from (suc f) (c ∷ s) out i ≡ decode_from f s (out ++ c ∷ []) (i + 1)
unfolding decode_from
decode_from-plain f c i s out h k = ground arith

-- One byte that Git has quoted is read back in one round of the decoder.
decode_from-quote_byte :
    (f c i : ℕ) (s out : Bytes)
    → IsPathByte c
    → decode_from (suc f) (quote_byte c ++ s) out i
      ≡ decode_from f s (out ++ c ∷ []) (i + length (quote_byte c))
unfolding quote_byte octal_text
decode_from-quote_byte f c i s out h = elim (Option-cases (letter c)) [
  | inr (l, e) ↦
      rw (e, quote_byte)
        (decode_from-escape f c i 1 (l ∷ s) s out (escaped-letter c l s e)
          ∙ ap (decode_from f s (out ++ c ∷ [])) (omega arith))
  | inl e ↦ elim (Bool-cases (ltb c 0x20 || leb 0x7F c)) [
    | inl t ↦
        rw (e, t, quote_byte)
          (decode_from-escape f c i 3 _ s out (escaped-octal c s h)
            ∙ ap (decode_from f s (out ++ c ∷ [])) (omega arith))
    | inr t ↦
        rw (e, t, quote_byte)
          (decode_from-plain f c i s out (letter-none c e).0 (letter-none c e).1)
  ]
]

abbrev pub ArePathBytes : Bytes → Type 0
ArePathBytes = All IsPathByte

quote_byte-length : (c : ℕ) → 0 < length (quote_byte c)
unfolding quote_byte octal_text
quote_byte-length c = elim (Option-cases (letter c)) [
  | inr (l, e) ↦ rw (e, quote_byte) (omega arith)
  | inl e ↦ elim (Bool-cases (ltb c 0x20 || leb 0x7F c)) [
    | inl t ↦ rw (e, t, quote_byte) (omega arith)
    | inr t ↦ rw (e, t, quote_byte) (omega arith)
  ]
]

quote_bytes-length : (s : Bytes) → length s < length (quote_bytes s)
unfolding quote_bytes
quote_bytes-length [] = omega arith
quote_bytes-length (c ∷ s) =
    omega (
      arith,
      quote_bytes-length s,
      quote_byte-length c,
      length-append (quote_byte c) (quote_bytes s),
    )

decode_from-quote :
    (f i : ℕ) (rest out : Bytes) → decode_from (suc f) (quote ∷ rest) out i ≡ ok (out, i + 1)
unfolding decode_from
decode_from-quote f i rest out = refl

decode_from-quote_bytes :
    (f i : ℕ) (s rest out : Bytes)
    → length s < f
    → ArePathBytes s
    → decode_from f (quote_bytes s ++ rest) out i ≡ ok (out ++ s, i + length (quote_bytes s))
unfolding quote_bytes
decode_from-quote_bytes zero i s rest out h p = absurd (omega arith)
decode_from-quote_bytes (suc f) i [] rest out h p = rw append-nil (decode_from-quote f i rest out)
decode_from-quote_bytes (suc f) i (c ∷ s) rest out h p =
    ap (λ t. decode_from (suc f) t out i) (append_assoc (quote_byte c) (quote_bytes s) rest)
    ∙ decode_from-quote_byte f c i (quote_bytes s ++ rest) out p.0
    ∙ decode_from-quote_bytes f (i + length (quote_byte c)) s rest (out ++ c ∷ []) (omega arith) p.1
    ∙ ap (λ o. ok (o, i + length (quote_byte c) + length (quote_bytes s)))
        (append_assoc out (c ∷ []) s)
    ∙ ap (λ n. ok (out ++ c ∷ s, n)) (omega (arith, length-append (quote_byte c) (quote_bytes s)))

-- A path that Git has quoted is decoded to that path, whatever follows the closing quote, and the
-- token ends at that quote. The path holds bytes other than NUL.
pub decode_c_quoted-c_quoted :
    (s rest : Bytes)
    → ArePathBytes s
    → decode_c_quoted (c_quoted s ++ rest) ≡ ok (s, length (c_quoted s))
unfolding decode_c_quoted c_quoted
decode_c_quoted-c_quoted s rest p =
    decode_from-quote_bytes (suc (length (quote_bytes s ++ rest))) 1 s rest []
      (omega (arith, quote_bytes-length s, length-append (quote_bytes s) rest)) p
    ∙ ap (λ n. ok (s, n)) (omega arith)
