-- ===== src/Repo/TextLines.antt =====
-- internal/domain/repository/text.go: the lines of a text, with the exact bytes that each stands for. A
-- text in memory has fewer than 2^63 bytes, so offsets are natural numbers.
pub mod Cover
use nudge.Base.{
  Bool, List, [], if◌then◌else◌, length, not, suc, zero, ℕ, ◌&&◌, ◌+◌, ◌==◌, ◌||◌, ◌∷◌,
}
use nudge.Base.Bytes.{Bytes, is_empty}
use nudge.Base.Result.{Result, fail_if, ok, ◌>>◌}
use nudge.Base.Utf8.{valid_utf8}
use nudge.Repo.Hunk.{LineTerminator, cr, crlf, lf, none_terminator}
use nudge.Repo.Path.{RepoError, text_content_class_drift}

pub record TextLineProjection : Type 0 where
  pub raw_start : ℕ
  pub raw_end : ℕ
  pub terminator : LineTerminator
  pub display_text : Bytes

abbrev pub is_break : ℕ → Bool
is_break c = c == b'\n' || c == b'\r'

-- The inner loop: the bytes before a line break, and those from it on.
unfoldable pub until_break : Bytes → Bytes × Bytes
until_break [] = ([], [])
until_break (c ∷ s) =
    let more = until_break s in if is_break c then ([], c ∷ s) else (c ∷ more.0, more.1)

-- The terminator at the end of a line, its length, and what follows it.
unfoldable pub cut_terminator : Bytes → LineTerminator × ℕ × Bytes
cut_terminator [] = (none_terminator, 0, [])
cut_terminator (c ∷ []) = if c == b'\r' then (cr, 1, []) else (lf, 1, [])
cut_terminator (c ∷ d ∷ s) =
    if c == b'\r' && d == b'\n'
    then (crlf, 2, s)
    else if c == b'\r'
    then (cr, 1, d ∷ s)
    else (lf, 1, d ∷ s)

-- The line at the start of `bytes`, which stands at the offset `start`, and the rest.
unfoldable pub next_line : ℕ → Bytes → TextLineProjection × Bytes
next_line start bytes =
    let (content, tail) = until_break bytes in
    let (terminator, size, rest) = cut_terminator tail in
    (
      record {
        raw_start = start;
        raw_end = start + length content + size;
        terminator = terminator;
        display_text = content;
      },
      rest,
    )

-- The loop over the lines. Every line takes a byte, so fuel for each byte is enough.
unfoldable pub text_lines : ℕ → ℕ → Bytes → List TextLineProjection
text_lines zero start bytes = []
text_lines (suc fuel) start [] = []
text_lines (suc fuel) start (c ∷ s) =
    let (line, rest) = next_line start (c ∷ s) in line ∷ text_lines fuel line.raw_end rest

abbrev pub empty_line : TextLineProjection
empty_line = record { raw_start = 0; raw_end = 0; terminator = none_terminator; display_text = [] }

-- `ProjectTextLines`.
unfoldable pub project_text_lines : Bytes → Result RepoError (List TextLineProjection)
project_text_lines bytes =
    fail_if (not (valid_utf8 bytes)) text_content_class_drift
    >> ok (if is_empty bytes then empty_line ∷ [] else text_lines (length bytes) 0 bytes)
