-- ===== src/Base/Utf8.antt =====
-- What the sources use of `unicode/utf8` and `unicode`: validity of an encoding, and control runes.
use Prim.Native.Nat.{ℕ, ◌<◌, ◌≤◌}
use mathlib.Core.Bool.{Bool, false, not, true, ◌&&◌, ◌||◌}
use mathlib.Core.List.{[], ◌++◌, ◌∷◌}
use mathlib.Core.Path.{refl, ◌≡◌}
use native.Mathlib.Omega.{arith}
use nudge.Base.Bytes.{Bytes}
use nudge.Base.Lists.{All}
use nudge.Base.Tests.{if◌then◌else◌, leb, ltb, ◌==◌}

-- What the next byte must be: the start of a rune, or one of the continuation bytes of one_more. The
-- ranges after 0xE0, 0xED, 0xF0 and 0xF4 exclude overlong forms, surrogates and runes over 0x10FFFF.
pub data Expect : Type 0 where
  rune_start one_more two_more three_more after_e0 after_ed after_f0 after_f4 never : Expect

abbrev pub within : ℕ → ℕ → ℕ → Bool
within lo hi c = leb lo c && leb c hi

abbrev lead : ℕ → Expect
lead c =
    if ltb c 0x80
    then rune_start
    else if within 0xC2 0xDF c
    then one_more
    else if c == 0xE0
    then after_e0
    else if c == 0xED
    then after_ed
    else if within 0xE1 0xEF c
    then two_more
    else if c == 0xF0
    then after_f0
    else if within 0xF1 0xF3 c
    then three_more
    else if c == 0xF4
    then after_f4
    else never

abbrev follow : ℕ → ℕ → ℕ → Expect → Expect
follow lo hi c e = if within lo hi c then e else never

abbrev pub utf8_step : Expect → ℕ → Expect
utf8_step rune_start c = lead c
utf8_step one_more c = follow 0x80 0xBF c rune_start
utf8_step two_more c = follow 0x80 0xBF c one_more
utf8_step three_more c = follow 0x80 0xBF c two_more
utf8_step after_e0 c = follow 0xA0 0xBF c one_more
utf8_step after_ed c = follow 0x80 0x9F c one_more
utf8_step after_f0 c = follow 0x90 0xBF c two_more
utf8_step after_f4 c = follow 0x80 0x8F c two_more
utf8_step never c = never

abbrev pub utf8_end : Expect → Bool
utf8_end rune_start = true
utf8_end _ = false

utf8_from : Expect → Bytes → Bool
utf8_from e [] = utf8_end e
utf8_from e (c ∷ s) = utf8_from (utf8_step e c) s

-- `utf8.Valid` and `utf8.ValidString`.
unfoldable pub valid_utf8 : Bytes → Bool
unfolding utf8_from
valid_utf8 s = utf8_from rune_start s

-- Some rune of a valid text is a control character (`unicode.IsControl`): below 0x20, or 0x7F to
-- 0x9F, of which those from 0x80 on are written 0xC2 and the byte.
has_control_from : ℕ → Bytes → Bool
has_control_from last [] = false
has_control_from last (c ∷ s) =
    ltb c 0x20 || c == 0x7F || last == 0xC2 && within 0x80 0x9F c || has_control_from c s

-- `validText` of internal/domain/repository/repository.go.
unfoldable pub valid_text : Bytes → Bool
unfolding has_control_from
valid_text s = valid_utf8 s && not (has_control_from 0 s)

abbrev pub IsPrintable : ℕ → Type 0
IsPrintable c = (0x20 ≤ c) × (c < 0x7F)

utf8_from-printable : (s : Bytes) → All IsPrintable s → utf8_from rune_start s ≡ true
unfolding utf8_from
utf8_from-printable [] h = refl
utf8_from-printable (c ∷ s) h = ground (arith, utf8_from-printable s)

has_control_from-printable :
    (l : ℕ) (s : Bytes) → l < 0x7F → All IsPrintable s → has_control_from l s ≡ false
unfolding has_control_from
has_control_from-printable l [] k h = refl
has_control_from-printable l (c ∷ s) k h = ground (arith, has_control_from-printable c s)

-- Printable ASCII is valid text.
pub valid_text-printable : (s : Bytes) → All IsPrintable s → valid_text s ≡ true
unfolding valid_text valid_utf8
valid_text-printable s h =
    ground (arith, utf8_from-printable s h, has_control_from-printable 0 s (omega arith) h)

pub valid_utf8-printable : (s : Bytes) → All IsPrintable s → valid_utf8 s ≡ true
unfolding valid_utf8
valid_utf8-printable s h = utf8_from-printable s h

utf8_from-append :
    (e : Expect) (s t : Bytes)
    → utf8_from e s ≡ true
    → utf8_from rune_start t ≡ true
    → utf8_from e (s ++ t) ≡ true
unfolding utf8_from
utf8_from-append rune_start [] t h k = k
utf8_from-append one_more [] t h k = absurd (cc h)
utf8_from-append two_more [] t h k = absurd (cc h)
utf8_from-append three_more [] t h k = absurd (cc h)
utf8_from-append after_e0 [] t h k = absurd (cc h)
utf8_from-append after_ed [] t h k = absurd (cc h)
utf8_from-append after_f0 [] t h k = absurd (cc h)
utf8_from-append after_f4 [] t h k = absurd (cc h)
utf8_from-append never [] t h k = absurd (cc h)
utf8_from-append e (c ∷ s) t h k = utf8_from-append (utf8_step e c) s t h k

-- Valid encodings one after the other are a valid encoding.
pub valid_utf8-append :
    (s t : Bytes) → valid_utf8 s ≡ true → valid_utf8 t ≡ true → valid_utf8 (s ++ t) ≡ true
unfolding valid_utf8
valid_utf8-append s t h k = utf8_from-append rune_start s t h k

-- What must come after some bytes.
abbrev pub utf8_run : Expect → Bytes → Expect
utf8_run e [] = e
utf8_run e (c ∷ s) = utf8_run (utf8_step e c) s

pub utf8_run-append : (e : Expect) (s t : Bytes) → utf8_run e (s ++ t) ≡ utf8_run (utf8_run e s) t
utf8_run-append e [] t = refl
utf8_run-append e (c ∷ s) t = utf8_run-append (utf8_step e c) s t

pub utf8_run-never : (s : Bytes) → utf8_run never s ≡ never
utf8_run-never [] = refl
utf8_run-never (c ∷ s) = utf8_run-never s

utf8_from-run : (e : Expect) (s : Bytes) → utf8_from e s ≡ utf8_end (utf8_run e s)
unfolding utf8_from
utf8_from-run e [] = refl
utf8_from-run e (c ∷ s) = utf8_from-run (utf8_step e c) s

-- An encoding is valid when it ends between two runes.
pub valid_utf8-run : (s : Bytes) → valid_utf8 s ≡ utf8_end (utf8_run rune_start s)
unfolding valid_utf8
valid_utf8-run s = utf8_from-run rune_start s

-- What `utf8.DecodeRune` and `utf8.FullRune` say of a text: a rune and what follows it, no rune, or
-- the beginning of one.
pub data RuneScan : Type 0 where
  full : Bytes → RuneScan
  invalid short : RuneScan

-- The scan at a state, before the bytes that are left; `more` is what reading on would give.
abbrev pub scan_at : Expect → Bytes → RuneScan → RuneScan
scan_at rune_start s more = full s
scan_at never s more = invalid
scan_at _ s more = more

unfoldable pub scan_rest : Expect → Bytes → RuneScan
scan_rest e [] = scan_at e [] short
scan_rest e (c ∷ s) = scan_at e (c ∷ s) (scan_rest (utf8_step e c) s)

-- The scan of a text from its start.
unfoldable pub scan_rune : Bytes → RuneScan
scan_rune [] = short
scan_rune (c ∷ s) = scan_rest (utf8_step rune_start c) s
