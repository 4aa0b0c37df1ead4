-- ===== src/Repo/TextLines/Cover.antt =====
-- The lines that `ProjectTextLines` of internal/domain/repository/text.go gives cover the text exactly.
use nudge.Base.{
  Bool, Bool-cases, List, [], any, ap, arith, false, inl, inr, length, length-append, not, refl,
  suc, sym, true, zero, ℕ, ◌&&◌, ◌++◌, ◌+◌, ◌∙◌, ◌∷◌, ◌≡◌, ◌≤◌,
}
use nudge.Base.Bytes.{Bytes, is_empty}
use nudge.Base.Result.{ok}
use nudge.Base.Utf8.{valid_utf8}
use nudge.Repo.Hunk.{LineTerminator, cr, crlf, lf, none_terminator}
use nudge.Repo.TextLines.{
  TextLineProjection, cut_terminator, empty_line, is_break, next_line, project_text_lines,
  text_lines, until_break,
}

abbrev pub terminator_bytes : LineTerminator → Bytes
terminator_bytes lf = b'\n' ∷ []
terminator_bytes crlf = b'\r' ∷ b'\n' ∷ []
terminator_bytes cr = b'\r' ∷ []
terminator_bytes _ = []

abbrev pub is_unended : LineTerminator → Bool
is_unended none_terminator = true
is_unended _ = false

-- A line at an offset, and the text after it: the text before was the line's content, which has no
-- break in it, and its terminator; without a terminator, nothing follows.
pub record IsLine (start : ℕ) (bytes rest : Bytes) (l : TextLineProjection) : Type 0 where
  pub starts : l.raw_start ≡ start
  pub content : bytes ≡ l.display_text ++ (terminator_bytes l.terminator ++ rest)
  pub ends : l.raw_end + length rest ≡ start + length bytes
  pub unbroken : any is_break l.display_text ≡ false
  pub last : is_unended l.terminator && not (is_empty rest) ≡ false

-- Lines one after the other, from an offset to the end of the text.
abbrev pub AreLines : ℕ → Bytes → List TextLineProjection → Type 0
AreLines start bytes [] = bytes ≡ []
AreLines start bytes (l ∷ ls) =
    (rest : Bytes) × IsLine start bytes rest l × AreLines l.raw_end rest ls

abbrev at_break : Bytes → Bool
at_break [] = true
at_break (c ∷ s) = is_break c

until_break_lem :
    (s : Bytes)
    → ((until_break s).0 ++ (until_break s).1 ≡ s)
      × (any is_break (until_break s).0 ≡ false)
      × (at_break (until_break s).1 ≡ true)
unfolding until_break
until_break_lem [] = (refl, refl, refl)
until_break_lem (c ∷ s) =
    let (a, b, k) = until_break_lem s in
    elim (Bool-cases (is_break c)) [
      | inl p ↦ rw p (refl, refl, p)
      | inr p ↦ rw p (ap (◌∷◌ c) a, ground (arith, p, b), k)
    ]

cut_terminator_lem :
    (s : Bytes)
    → at_break s ≡ true
    → let (t, n, rest) = cut_terminator s in
      (terminator_bytes t ++ rest ≡ s)
      × (n + length rest ≡ length s)
      × (is_unended t && not (is_empty rest) ≡ false)
unfolding cut_terminator
cut_terminator_lem [] h = (refl, refl, refl)
cut_terminator_lem (c ∷ []) h = ground arith
cut_terminator_lem (c ∷ d ∷ s) h = ground arith

next_line-IsLine :
    (start : ℕ) (s : Bytes) → IsLine start s (next_line start s).1 (next_line start s).0
unfolding next_line
next_line-IsLine start s =
    let (a, b, k) = until_break_lem s in
    let (t, n, u) = cut_terminator_lem (until_break s).1 k in
    record {
      starts = refl;
      content = sym (ap (λ x. (until_break s).0 ++ x) t ∙ a);
      ends = omega (arith, n, ap length a, length-append (until_break s).0 (until_break s).1);
      unbroken = b;
      last = u;
    }

cut_takes : (c : ℕ) (s : Bytes) → length (cut_terminator (c ∷ s)).2 ≤ length s
unfolding cut_terminator
cut_takes c [] = ground arith
cut_takes c (d ∷ s) = ground arith

length-until_break : (s : Bytes) → length (until_break s).1 ≤ length s
unfolding until_break
length-until_break [] = omega arith
length-until_break (c ∷ s) = ground (arith, length-until_break s)

next_line_takes : (start c : ℕ) (s : Bytes) → length (next_line start (c ∷ s)).1 ≤ length s
unfolding next_line until_break
next_line_takes start c s = elim (Bool-cases (is_break c)) [
  | inl p ↦ rw p (cut_takes c s)
  | inr p ↦ rw p (
      omega (
        arith,
        length-until_break s,
        (cut_terminator_lem (until_break s).1 (until_break_lem s).2).1,
      ))
]

text_lines-AreLines :
    (fuel start : ℕ) (s : Bytes) → length s ≤ fuel → AreLines start s (text_lines fuel start s)
unfolding text_lines
text_lines-AreLines zero start [] k = refl
text_lines-AreLines zero start (c ∷ s) k = absurd (omega arith)
text_lines-AreLines (suc fuel) start [] k = refl
text_lines-AreLines (suc fuel) start (c ∷ s) k =
    let l = (next_line start (c ∷ s)).0 in
    let rest = (next_line start (c ∷ s)).1 in
    (
      rest,
      next_line-IsLine start (c ∷ s),
      text_lines-AreLines fuel l.raw_end rest (omega (arith, next_line_takes start c s)),
    )

-- A valid text is projected to at least one line, and the lines cover it exactly: they stand one
-- after the other from its start to its end, each is its displayed text, which has no line break,
-- followed by its terminator, and only the last can be without a terminator.
pub project_text_lines-AreLines :
    (s : Bytes)
    → valid_utf8 s ≡ true
    → (ls : List TextLineProjection) × (project_text_lines s ≡ ok ls)
      × AreLines 0 s ls
      × (1 ≤ length ls)
unfolding project_text_lines text_lines
project_text_lines-AreLines [] v = (
  empty_line ∷ [],
  rw v refl,
  ([], record { starts = refl; content = refl; ends = refl; unbroken = refl; last = refl }, refl),
  omega arith,
)
project_text_lines-AreLines (c ∷ s) v = (
  text_lines (length (c ∷ s)) 0 (c ∷ s),
  rw v refl,
  text_lines-AreLines (length (c ∷ s)) 0 (c ∷ s) (omega arith),
  omega arith,
)
