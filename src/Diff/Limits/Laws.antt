-- ===== src/Diff/Limits/Laws.antt =====
-- Which limits a caller can set.
use nudge.Base.{arith, false, inl, inr, refl, suc, zero, ℕ, ◌*◌, ◌↔◌, ◌≡◌, ◌≢◌, ◌⊎◌}
use nudge.Base.Int.{leb_ℤ, ltb_ℤ, negsuc, pos, ℤ, ◌<ℤ◌, ◌≤ℤ◌}
use nudge.Base.Result.{ok}
use nudge.Diff.Limits.{
  PatchParseLimits, default_patch_parse_limits, max_int32, override, validate_limits, with_defaults,
}

override_pos : (l d : ℤ) → pos 0 <ℤ d → (leb_ℤ (override l d) (pos 0) ≡ false) ↔ (pos 0 ≤ℤ l)
unfolding override
override_pos l d h = ground arith

override_int32 :
    (l d : ℤ) → d ≤ℤ max_int32 → (ltb_ℤ max_int32 (override l d) ≡ false) ↔ (l ≤ℤ max_int32)
unfolding override
override_int32 l d h = ground arith

-- The limit that is used for the one that was asked for: zero asks for the default.
abbrev pub IsFilled : ℕ → ℤ → ℤ → Type 0
IsFilled default asked used =
    ((asked ≡ pos 0) × (used ≡ pos default)) ⊎ ((asked ≢ pos 0) × (used ≡ asked))

override-IsFilled : (n : ℕ) (l : ℤ) → IsFilled n l (override l (pos n))
unfolding override
override-IsFilled n (pos zero) = inl (refl, refl)
override-IsFilled n (pos (suc m)) = inr ((λ e. absurd (cc e)), ground arith)
override-IsFilled n (negsuc m) = inr ((λ e. absurd (cc e)), ground arith)

-- The limits of `DefaultPatchParseLimits`, in the order of their fields.
pub record AreFilled (asked used : PatchParseLimits) : Type 0 where
  pub filled_patch_bytes : IsFilled 268_435_456 asked.max_patch_bytes used.max_patch_bytes
  pub filled_file_bytes : IsFilled 16_777_216 asked.max_file_bytes used.max_file_bytes
  pub filled_binary_bytes : IsFilled 268_435_456 asked.max_binary_bytes used.max_binary_bytes
  pub filled_line_bytes : IsFilled 1_048_576 asked.max_line_bytes used.max_line_bytes
  pub filled_header_bytes : IsFilled 65_536 asked.max_header_bytes used.max_header_bytes
  pub filled_files : IsFilled 100_000 asked.max_files used.max_files
  pub filled_hunks : IsFilled 500_000 asked.max_hunks used.max_hunks
  pub filled_rows : IsFilled 10_000_000 asked.max_rows used.max_rows

with_defaults-AreFilled : (l : PatchParseLimits) → AreFilled l (with_defaults l)
unfolding with_defaults default_patch_parse_limits
with_defaults-AreFilled l = record {
  filled_patch_bytes = override-IsFilled 268_435_456 l.max_patch_bytes;
  filled_file_bytes = override-IsFilled 16_777_216 l.max_file_bytes;
  filled_binary_bytes = override-IsFilled 268_435_456 l.max_binary_bytes;
  filled_line_bytes = override-IsFilled 1_048_576 l.max_line_bytes;
  filled_header_bytes = override-IsFilled 65_536 l.max_header_bytes;
  filled_files = override-IsFilled 100_000 l.max_files;
  filled_hunks = override-IsFilled 500_000 l.max_hunks;
  filled_rows = override-IsFilled 10_000_000 l.max_rows;
}

accepted-with_defaults :
    (l : PatchParseLimits)
    → (validate_limits (with_defaults l) ≡ ok tt) ↔ (
        (pos 0 ≤ℤ l.max_patch_bytes)
        × (pos 0 ≤ℤ l.max_file_bytes)
        × (pos 0 ≤ℤ l.max_binary_bytes)
        × (pos 0 ≤ℤ l.max_line_bytes)
        × (l.max_line_bytes ≤ℤ max_int32)
        × (pos 0 ≤ℤ l.max_header_bytes)
        × (l.max_header_bytes ≤ℤ max_int32)
        × (pos 0 ≤ℤ l.max_files)
        × (pos 0 ≤ℤ l.max_hunks)
        × (pos 0 ≤ℤ l.max_rows))
unfolding validate_limits with_defaults default_patch_parse_limits
accepted-with_defaults l = ground (
  arith,
  override_pos l.max_patch_bytes (pos (256 * 1024 * 1024)),
  override_pos l.max_file_bytes (pos (16 * 1024 * 1024)),
  override_pos l.max_binary_bytes (pos (256 * 1024 * 1024)),
  override_pos l.max_line_bytes (pos (1 * 1024 * 1024)),
  override_int32 l.max_line_bytes (pos (1 * 1024 * 1024)),
  override_pos l.max_header_bytes (pos (64 * 1024)),
  override_int32 l.max_header_bytes (pos (64 * 1024)),
  override_pos l.max_files (pos 100_000),
  override_pos l.max_hunks (pos 500_000),
  override_pos l.max_rows (pos 10_000_000),
)

-- A limit of zero is replaced by its default (256 MiB for a patch and for a binary file, 16 MiB
-- for a file, 1 MiB for a line, 64 KiB for a header, 100,000 files, 500,000 hunks, 10,000,000
-- rows), every other limit stays, and the limits are then accepted exactly when none was negative
-- and the two that the parser narrows to 32 bits fit there.
pub validate-with_defaults :
    (l : PatchParseLimits)
    → AreFilled l (with_defaults l)
      × ((validate_limits (with_defaults l) ≡ ok tt) ↔ (
          (pos 0 ≤ℤ l.max_patch_bytes)
          × (pos 0 ≤ℤ l.max_file_bytes)
          × (pos 0 ≤ℤ l.max_binary_bytes)
          × (pos 0 ≤ℤ l.max_line_bytes)
          × (l.max_line_bytes ≤ℤ max_int32)
          × (pos 0 ≤ℤ l.max_header_bytes)
          × (l.max_header_bytes ≤ℤ max_int32)
          × (pos 0 ≤ℤ l.max_files)
          × (pos 0 ≤ℤ l.max_hunks)
          × (pos 0 ≤ℤ l.max_rows)))
validate-with_defaults l = (with_defaults-AreFilled l, accepted-with_defaults l)
