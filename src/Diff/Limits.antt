-- ===== src/Diff/Limits.antt =====
-- internal/diff/validate.go: the errors and the limits of the parser.
pub mod Laws
use nudge.Base.{Bool, if◌then◌else◌, not, ℕ, ◌*◌, ◌-◌, ◌^◌, ◌||◌}
use nudge.Base.Int.{eqb_ℤ, leb_ℤ, ltb_ℤ, pos, ℤ}
use nudge.Base.Result.{Result, fail_if, ◌>>◌}

-- The exported errors; the texts that wrap them are left out. `interrupted` is a context's error.
pub data PatchError : Type 0 where
  invalid_source malformed truncated limited unsupported sink_failed interrupted : PatchError

pub record PatchParseLimits : Type 0 where
  pub max_patch_bytes : ℤ
  pub max_file_bytes : ℤ
  pub max_binary_bytes : ℤ
  pub max_line_bytes : ℤ
  pub max_header_bytes : ℤ
  pub max_files : ℤ
  pub max_hunks : ℤ
  pub max_rows : ℤ

-- `DefaultPatchParseLimits`.
unfoldable pub default_patch_parse_limits : PatchParseLimits
default_patch_parse_limits = record {
  max_patch_bytes = pos (256 * 1024 * 1024);
  max_file_bytes = pos (16 * 1024 * 1024);
  max_binary_bytes = pos (256 * 1024 * 1024);
  max_line_bytes = pos (1 * 1024 * 1024);
  max_header_bytes = pos (64 * 1024);
  max_files = pos 100_000;
  max_hunks = pos 500_000;
  max_rows = pos 10_000_000;
}

-- `if l.Max != 0 { d.Max = l.Max }`.
override : ℤ → ℤ → ℤ
override l d = if not (eqb_ℤ l (pos 0)) then l else d

-- `PatchParseLimits.withDefaults`.
unfoldable pub with_defaults : PatchParseLimits → PatchParseLimits
unfolding override
with_defaults l =
    let d = default_patch_parse_limits in
    record {
      max_patch_bytes = override l.max_patch_bytes d.max_patch_bytes;
      max_file_bytes = override l.max_file_bytes d.max_file_bytes;
      max_binary_bytes = override l.max_binary_bytes d.max_binary_bytes;
      max_line_bytes = override l.max_line_bytes d.max_line_bytes;
      max_header_bytes = override l.max_header_bytes d.max_header_bytes;
      max_files = override l.max_files d.max_files;
      max_hunks = override l.max_hunks d.max_hunks;
      max_rows = override l.max_rows d.max_rows;
    }

abbrev pub max_int32 : ℤ
max_int32 = pos (2 ^ 31 - 1)

-- `PatchParseLimits.Validate`.
unfoldable pub validate_limits : PatchParseLimits → Result PatchError (Unit {0})
validate_limits l =
    fail_if
      (leb_ℤ l.max_patch_bytes (pos 0)
        || leb_ℤ l.max_file_bytes (pos 0)
        || leb_ℤ l.max_binary_bytes (pos 0)
        || leb_ℤ l.max_line_bytes (pos 0)
        || leb_ℤ l.max_header_bytes (pos 0)
        || leb_ℤ l.max_files (pos 0)
        || leb_ℤ l.max_hunks (pos 0)
        || leb_ℤ l.max_rows (pos 0))
      limited
    >> fail_if (ltb_ℤ max_int32 l.max_line_bytes || ltb_ℤ max_int32 l.max_header_bytes) limited

-- `n > limit` and `n >= limit`, for a count or size `n`.
abbrev pub exceeds : ℕ → ℤ → Bool
exceeds n limit = ltb_ℤ limit (pos n)

abbrev pub reaches : ℕ → ℤ → Bool
reaches n limit = leb_ℤ limit (pos n)
