-- ===== src/Tests/Digests.antt =====
-- A stand-in for SHA-256 with results of its form.
use nudge.Base.{[], refl, suc, true, zero, ℕ, ◌∷◌, ◌≡◌}
use nudge.Base.Bytes.{Bytes}
use nudge.Repo.Digest.{Digest, valid_sha256}

unfoldable pub zeros : ℕ → Bytes
zeros zero = []
zeros (suc n) = b'0' ∷ zeros n

pub zeros-form : valid_sha256 (zeros 64) ≡ true
unfolding zeros valid_sha256
zeros-form = refl

abbrev pub zero_digest : Digest
zero_digest = record { digest = λ s. zeros 64; digest_form = λ s. zeros-form }
