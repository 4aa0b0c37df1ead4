-- ===== src/Repo/TextBytes/Endings.antt =====
-- The counts of line endings in internal/domain/repository/text.go.
use nudge.Base.{
  Bool, [], ap, arith, false, if◌then◌else◌, refl, true, ℕ, ◌&&◌, ◌++◌, ◌+◌, ◌==◌, ◌∙◌, ◌∷◌, ◌≡◌,
}
use nudge.Base.Bytes.{Bytes}
use nudge.Repo.TextBytes.{EndingCounts, count_byte, count_bytes}

abbrev pub occurrences : ℕ → Bytes → ℕ
occurrences b [] = 0
occurrences b (c ∷ s) = (if c == b then 1 else 0) + occurrences b s

-- The pairs of a carriage return and a newline, after a byte that was or was not a carriage return.
abbrev pub pairs_after : Bool → Bytes → ℕ
pairs_after crs [] = 0
pairs_after crs (c ∷ s) = (if crs && c == b'\n' then 1 else 0) + pairs_after (c == b'\r') s

abbrev pub one_if : Bool → ℕ
one_if true = 1
one_if false = 0

count_byte_lem :
    (e : EndingCounts) (c : ℕ)
    → let f = count_byte e c in
      (f.lfs + f.crlfs ≡ e.lfs + e.crlfs + (if c == b'\n' then 1 else 0))
      × (f.crs + f.crlfs + one_if f.previous_cr
          ≡ e.crs + e.crlfs + one_if e.previous_cr + (if c == b'\r' then 1 else 0))
      × (f.crlfs ≡ e.crlfs + (if e.previous_cr && c == b'\n' then 1 else 0))
      × (f.previous_cr ≡ (c == b'\r'))
unfolding count_byte
count_byte_lem e c = ground arith

pub count_bytes_lem :
    (e : EndingCounts) (s : Bytes)
    → let f = count_bytes e s in
      (f.lfs + f.crlfs ≡ e.lfs + e.crlfs + occurrences b'\n' s)
      × (f.crs + f.crlfs + one_if f.previous_cr
          ≡ e.crs + e.crlfs + one_if e.previous_cr + occurrences b'\r' s)
      × (f.crlfs ≡ e.crlfs + pairs_after e.previous_cr s)
unfolding count_bytes
count_bytes_lem e [] = ground arith
count_bytes_lem e (c ∷ s) =
    let (a, b, p, q) = count_byte_lem e c in
    let (a', b', p') = count_bytes_lem (count_byte e c) s in
    (omega (arith, a, a'), omega (arith, b, b'), p' ∙ omega (arith, p, ap (λ b. pairs_after b s) q))

pub count_bytes-append :
    (e : EndingCounts) (s t : Bytes) → count_bytes e (s ++ t) ≡ count_bytes (count_bytes e s) t
unfolding count_bytes
count_bytes-append e [] t = refl
count_bytes-append e (c ∷ s) t = count_bytes-append (count_byte e c) s t
