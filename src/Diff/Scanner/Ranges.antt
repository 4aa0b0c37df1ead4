-- ===== src/Diff/Scanner/Ranges.antt =====
-- internal/diff/parser.go: `readRange` and `hashRange`, which read a part of a patch's source.
pub mod Slices
use nudge.Base.{
  Bool, Option, [], false, if◌then◌else◌, length, ltb, none, some, suc, true, zero, ℕ, ◌++◌, ◌+◌,
  ◌-◌, ◌||◌,
}
use nudge.Base.Bytes.{Bytes, is_empty}
use nudge.Base.Int.{negsuc, pos, pos_part, ℤ}
use nudge.Base.Result.{Result, err, map_result, ok}
use nudge.Diff.Limits.{PatchError, interrupted, invalid_source, truncated}
use nudge.Diff.Scanner.{PatchSource, ReadAt, patch_read_chunk}
use nudge.Repo.Digest.{Digest}

-- What a call gives; `none` is the lack of fuel.
abbrev pub Read : Type 0
Read = Option (Result PatchError Bytes)

-- A round after its read.
unfoldable pub range_part : ℕ → Bytes → ReadAt → (Bytes → Read) → Read
range_part want out r more =
    if ltb want (length r.bytes)
    then some (err invalid_source)
    else if r.failed
    then some (err invalid_source)
    else elim (is_empty r.bytes) [ true ↦ some (err truncated) | false ↦ more (out ++ r.bytes) ]

module _ (source : PatchSource) (cancelled : ℕ → Bool) (chunk : ℕ → ℕ) where
  -- The loop of both, which asks for `chunk` of the bytes that are missing; `out` is what was read.
  -- `cancelled` is whether the context has ended when so many bytes are read.
  unfoldable pub range_from : ℕ → ℕ → ℕ → Bytes → Read
  range_from zero offset count out = none
  range_from (suc fuel) offset count out = elim (ltb (length out) count) [
    | false ↦ some (ok out)
    | true ↦ elim (cancelled (length out)) [
      | true ↦ some (err interrupted)
      | false ↦
          let want = chunk (count - length out) in
          range_part want out (source.read_at want (offset + length out))
            (λ out'. range_from fuel offset count out')
    ]
  ]

abbrev pub hash_read : Digest → Read → Read
hash_read d none = none
hash_read d (some r) = some (map_result d.digest r)

module _ (source : PatchSource) (cancelled : ℕ → Bool) where
  -- The range is not within the source.
  abbrev pub outside : ℤ → ℤ → Bool
  outside (negsuc offset) count = true
  outside (pos offset) (negsuc count) = true
  outside (pos offset) (pos count) = ltb source.size offset || ltb (source.size - offset) count

  -- `readRange`.
  unfoldable pub read_range : ℤ → ℤ → Read
  read_range offset count =
      if outside offset count
      then some (err truncated)
      else range_from source cancelled (λ missing. missing) (suc (pos_part count)) (pos_part offset)
          (pos_part count) []

  -- The bytes that `hashRange` hashes.
  unfoldable pub hashed_range : ℤ → ℤ → Read
  hashed_range offset count =
      if outside offset count
      then some (err truncated)
      else range_from source cancelled
          (λ missing. if ltb missing patch_read_chunk then missing else patch_read_chunk)
          (suc (pos_part count)) (pos_part offset) (pos_part count) []

  -- `hashRange`.
  unfoldable pub hash_range : Digest → ℤ → ℤ → Read
  hash_range d offset count = hash_read d (hashed_range offset count)
