-- ===== src/Diff/Scanner.antt =====
-- internal/diff/parser.go: how a patch is read from its source, in chunks: `patchScanner`, which cuts
-- lines, and `readRange`. A source is the caller's; a read gives bytes or fails.
pub mod Lines
pub mod Fill
pub mod Ranges
pub mod Refines
use nudge.Base.{
  Bool, Option, [], false, if◌then◌else◌, leb, length, ltb, none, not, some, suc, true, zero, ℕ,
  ◌*◌, ◌++◌, ◌+◌, ◌-◌, ◌==◌, ◌||◌, ◌∷◌,
}
use nudge.Base.Bytes.{Bytes, is_empty}
use nudge.Base.Result.{Result, err, fail_if, ok, ◌>>=◌, ◌>>◌}
use nudge.Diff.Builder.{PatchLine}
use nudge.Diff.Limits.{PatchError, invalid_source, limited}

-- The result of `ReadAt`: the first bytes of the buffer, as many as it reports, and whether it
-- reports an error other than `io.EOF`.
pub record ReadAt : Type 0 where
  pub bytes : Bytes
  pub failed : Bool

-- `PatchSource`; `read_at want offset` reads into a buffer of `want` bytes.
pub record PatchSource : Type 0 where
  pub size : ℕ
  pub read_at : ℕ → ℕ → ReadAt

-- `patchScanner`; `buffer` is the unread part of its buffer, and `hashed` what its hash was given.
pub record PatchScanner : Type 0 where
  pub read_at : ℕ
  pub consumed : ℕ
  pub buffer : Bytes
  pub eof : Bool
  pub hashed : Bytes

-- `newPatchScanner`.
abbrev pub new_patch_scanner : PatchScanner
new_patch_scanner = record { read_at = 0; consumed = 0; buffer = []; eof = false; hashed = [] }

abbrev pub patch_read_chunk : ℕ
patch_read_chunk = 32 * 1024

-- What comes before the first newline, and what after it.
abbrev pub after_first : ℕ → Bytes × Option Bytes → Bytes × Option Bytes
after_first c (text, rest) = (c ∷ text, rest)

unfoldable pub cut_line : Bytes → Bytes × Option Bytes
cut_line [] = ([], none)
cut_line (c ∷ s) = let more = cut_line s in if c == 10 then ([], some s) else after_first c more

-- The result of `next`; `none` is the lack of fuel.
abbrev pub Scan : Type 0
Scan = Option (Result PatchError (Option PatchLine × PatchScanner))

-- The scanner behind some bytes of its buffer.
abbrev pub behind : PatchScanner → ℕ → Bytes → PatchScanner
behind s count rest = record s { consumed = s.consumed + count; buffer = rest }

module _ (source : PatchSource) where
  -- The length of the next buffer.
  abbrev pub chunk_length : PatchScanner → ℕ
  chunk_length s =
      let remaining = source.size - s.read_at in
      if ltb remaining patch_read_chunk then remaining else patch_read_chunk

  -- `fill` after its read.
  unfoldable pub filled : PatchScanner → ReadAt → Result PatchError PatchScanner
  filled s r = do
    fail_if (ltb (chunk_length s) (length r.bytes)) invalid_source
    fail_if r.failed invalid_source
    ok (record s {
      hashed = s.hashed ++ r.bytes;
      read_at = s.read_at + length r.bytes;
      eof = is_empty r.bytes;
      buffer = r.bytes;
    })

  -- `fill`.
  unfoldable pub fill : PatchScanner → Result PatchError PatchScanner
  fill s =
      if s.eof || not (is_empty s.buffer)
      then ok s
      else if leb source.size s.read_at
      then ok (record s { eof = true; buffer = [] })
      else filled s (source.read_at (chunk_length s) s.read_at)

-- The end of the source: the last line, if it has bytes.
unfoldable pub last_line : ℕ → Bytes → PatchScanner → Scan
last_line start [] s = some (ok (none, s))
last_line start (c ∷ line) s = some (
    ok (some (record { offset = start; end = s.consumed; text = c ∷ line; terminated = false }), s))

module _ (max_line : ℕ) where
  -- One round of the loop of `next` on a buffer that is cut at its first newline; `more` goes on.
  unfoldable pub scan_part :
      ℕ → Bytes → PatchScanner → Bytes × Option Bytes → (Bytes → PatchScanner → Scan) → Scan
  scan_part start line s (part, none) more = elim (ltb max_line (length line + length part)) [
    | true ↦ some (err limited)
    | false ↦ more (line ++ part) (behind s (length part) [])
  ]
  scan_part start line s (part, some rest) more =
      if ltb max_line (length line + length part)
      then some (err limited)
      else some (
          ok (
            some (record {
              offset = start;
              end = s.consumed + (length part + 1);
              text = line ++ part;
              terminated = true;
            }),
            behind s (length part + 1) rest,
          ))

  -- The loop of `next` after a `fill`, by the unread bytes.
  unfoldable pub scan_buffer :
      ℕ → Bytes → PatchScanner → Bytes → (Bytes → PatchScanner → Scan) → Scan
  scan_buffer start line s [] more = elim s.eof [
    | true ↦ last_line start line s
    | false ↦ more line s
  ]
  scan_buffer start line s (c ∷ buffer) more = scan_part start line s (cut_line (c ∷ buffer)) more

  unfoldable pub scan_filled :
      ℕ → Bytes → Result PatchError PatchScanner → (Bytes → PatchScanner → Scan) → Scan
  scan_filled start line (err e) more = some (err e)
  scan_filled start line (ok s) more = scan_buffer start line s s.buffer more

module _ (source : PatchSource) (max_line : ℕ) where
  -- The loop of `next`, with the line so far.
  unfoldable pub next_from : ℕ → ℕ → Bytes → PatchScanner → Scan
  next_from zero start line s = none
  next_from (suc fuel) start line s =
      scan_filled max_line start line (fill source s) (λ line' s'. next_from fuel start line' s')

  -- `next`.
  unfoldable pub next : PatchScanner → Scan
  next s = next_from (source.size + length s.buffer + 2) s.consumed [] s
