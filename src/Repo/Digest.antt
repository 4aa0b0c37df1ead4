-- ===== src/Repo/Digest.antt =====
-- SHA-256 as the sources use it: a text of 64 hexadecimal digits for a string of bytes. The standard
-- library's function is a parameter of the definitions that call it, and this is what they rely on.
use nudge.Base.{All, Bool, [], all, arith, false, length, refl, true, ℕ, ◌&&◌, ◌==◌, ◌||◌, ◌∷◌, ◌≡◌}
use nudge.Base.Bytes.{Bytes, is_empty}
use nudge.Base.Utf8.{IsPrintable, valid_text, valid_text-printable, within}

abbrev pub is_lower_hex : ℕ → Bool
is_lower_hex c = within b'0' b'9' c || within b'a' b'f' c

-- `validSHA256` of internal/diff/validate.go.
unfoldable pub valid_sha256 : Bytes → Bool
valid_sha256 value = length value == 64 && all is_lower_hex value

-- `hex.EncodeToString(sha256.Sum256(data))`.
pub record Digest : Type 0 where
  pub digest : Bytes → Bytes
  pub digest_form : (s : Bytes) → valid_sha256 (digest s) ≡ true

lower_hex-IsPrintable : (s : Bytes) → all is_lower_hex s ≡ true → All IsPrintable s
lower_hex-IsPrintable [] h = tt
lower_hex-IsPrintable (c ∷ s) h = ground (arith, lower_hex-IsPrintable s)

sha256-ne-empty : (s : Bytes) → valid_sha256 s ≡ true → is_empty s ≡ false
unfolding valid_sha256
sha256-ne-empty [] h = cc
sha256-ne-empty (c ∷ s) h = refl

-- A digest is a valid, non-empty text.
pub digest_text :
    (d : Digest) (s : Bytes) → (is_empty (d.digest s) ≡ false) × (valid_text (d.digest s) ≡ true)
unfolding valid_sha256
digest_text d s = (
  sha256-ne-empty (d.digest s) (d.digest_form s),
  valid_text-printable (d.digest s)
      (lower_hex-IsPrintable (d.digest s) (ground (arith, d.digest_form s))),
)
