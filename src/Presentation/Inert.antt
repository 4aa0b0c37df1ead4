-- ===== src/Presentation/Inert.antt =====
-- What internal/presentation/terminal_text.go leaves in a text.
use mathlib.Core.Path.{subst}
use nudge.Base.{
  All, Bool, Bool-cases, List, [], ap, append-nil, arith, false, if-both, inl, inr, leb, length,
  map, not, not-not, refl, suc, sym, true, ℕ, ◌&&◌, ◌++◌, ◌==◌, ◌||◌, ◌∙◌, ◌∷◌, ◌≡◌,
}
use nudge.Base.Bytes.{Bytes}
use nudge.Base.Utf8.{within}
use nudge.Presentation.{
  Runes, TerminalTextMode, is_replaced, join_lines, normalize_newlines, onto_first, project_runes,
  project_terminal_text, sanitize_line, sanitize_rune, split_lines, terminal_text_multiline,
  terminal_text_scalar, text_runes,
}

-- The runes that a terminal shows: none of the controls, of the marks and overrides of direction, and
-- of the separators of lines and paragraphs.
abbrev pub is_shown : ℕ → Bool
is_shown r =
    within 0x20 0x7E r
    || within 0xA0 0x061B r
    || within 0x061D 0x200D r
    || within 0x2010 0x2027 r
    || within 0x202F 0x2065 r
    || leb 0x206A r

abbrev pub IsShown : ℕ → Type 0
IsShown r = is_shown r ≡ true

is_shown-is_replaced : (r : ℕ) → is_shown r ≡ not (is_replaced r)
is_shown-is_replaced r = ground arith

IsShown-is_replaced : (r : ℕ) → is_replaced r ≡ false → IsShown r
IsShown-is_replaced r e = is_shown-is_replaced r ∙ ap not e

is_replaced-IsShown : (r : ℕ) → IsShown r → is_replaced r ≡ false
is_replaced-IsShown r h =
    let e : not (is_replaced r) ≡ true = sym (is_shown-is_replaced r) ∙ h in
    sym (not-not (is_replaced r)) ∙ ap not e

sanitize_rune-IsShown : (b : Bool) (r : ℕ) → All IsShown (sanitize_rune b r)
unfolding sanitize_rune
sanitize_rune-IsShown b r =
    if-both (All IsShown) (r == 9) (λ e. (refl, (refl, tt)))
      (λ e.
        if-both (All IsShown) (b && r == 10) (λ e. (refl, (refl, tt)))
          (λ e.
            if-both (All IsShown) (b && r == 13) (λ e. (refl, (refl, tt)))
              (λ e.
                if-both (All IsShown) (is_replaced r) (λ e. (refl, tt))
                  (λ e. (IsShown-is_replaced r e, tt)))))

All-append : (xs ys : Runes) → All IsShown xs → All IsShown ys → All IsShown (xs ++ ys)
All-append [] ys h k = k
All-append (x ∷ xs) ys (h, hs) k = (h, All-append xs ys hs k)

sanitize_line-IsShown : (b : Bool) (rs : Runes) → All IsShown (sanitize_line b rs)
unfolding sanitize_line
sanitize_line-IsShown b [] = tt
sanitize_line-IsShown b (r ∷ rs) =
    All-append (sanitize_rune b r) (sanitize_line b rs) (sanitize_rune-IsShown b r)
      (sanitize_line-IsShown b rs)

-- A shown rune stays as it is.
sanitize_rune-keeps : (b : Bool) (r : ℕ) → IsShown r → sanitize_rune b r ≡ r ∷ []
unfolding sanitize_rune
sanitize_rune-keeps b r h = let e = is_replaced-IsShown r h in ground arith

sanitize_line-keeps : (b : Bool) (rs : Runes) → All IsShown rs → sanitize_line b rs ≡ rs
unfolding sanitize_line
sanitize_line-keeps b [] h = refl
sanitize_line-keeps b (r ∷ rs) (h, hs) =
    rw (sanitize_rune-keeps b r h) (ap (λ xs. r ∷ xs) (sanitize_line-keeps b rs hs))

abbrev AllShown : Runes → Type 0
AllShown rs = All IsShown rs

-- The lines of a text whose runes are shown.
split_lines-one_line : (line : Runes) → AllShown line → split_lines line ≡ line ∷ []
unfolding split_lines
split_lines-one_line [] h = refl
split_lines-one_line (r ∷ line) (h, hs) =
    let e : (r == 10) ≡ false = ground arith in
    rw e (ap (onto_first r) (split_lines-one_line line hs))

split_lines-newline :
    (line rs : Runes) → AllShown line → split_lines (line ++ 10 ∷ rs) ≡ line ∷ split_lines rs
unfolding split_lines
split_lines-newline [] rs h = refl
split_lines-newline (r ∷ line) rs (h, hs) =
    let e : (r == 10) ≡ false = ground arith in
    rw e (ap (onto_first r) (split_lines-newline line rs hs))

split_lines-join_lines :
    (line : Runes) (lines : List Runes)
    → All AllShown (line ∷ lines)
    → split_lines (join_lines (line ∷ lines)) ≡ line ∷ lines
unfolding join_lines
split_lines-join_lines line [] (h, hs) = split_lines-one_line line h
split_lines-join_lines line (next ∷ lines) (h, hs) =
    split_lines-newline line (join_lines (next ∷ lines)) h
    ∙ ap (λ xs. line ∷ xs) (split_lines-join_lines next lines hs)

split_lines-cons :
    (rs : Runes) → (line : Runes) × (lines : List Runes) × (split_lines rs ≡ line ∷ lines)
unfolding split_lines
split_lines-cons [] = ([], [], refl)
split_lines-cons (r ∷ rs) =
    let (line, lines, e) = split_lines-cons rs in
    elim (Bool-cases (r == 10)) [
      | inl t ↦ ([], split_lines rs, rw t refl)
      | inr t ↦ (r ∷ line, lines, rw t (ap (onto_first r) e))
    ]

-- What a text of several lines is made of.
abbrev pub IsPlain : ℕ → Type 0
IsPlain r = (r == 10 || is_shown r) ≡ true

line-IsPlain : (line rest : Runes) → AllShown line → All IsPlain rest → All IsPlain (line ++ rest)
line-IsPlain [] rest h k = k
line-IsPlain (r ∷ line) rest (h, hs) k = (ground arith, line-IsPlain line rest hs k)

join_lines-IsPlain : (lines : List Runes) → All AllShown lines → All IsPlain (join_lines lines)
unfolding join_lines
join_lines-IsPlain [] h = tt
join_lines-IsPlain (line ∷ []) (h, hs) =
    subst (All IsPlain) (append-nil line) (line-IsPlain line [] h tt)
join_lines-IsPlain (line ∷ next ∷ lines) (h, hs) =
    line-IsPlain line (10 ∷ join_lines (next ∷ lines)) h
      (refl, join_lines-IsPlain (next ∷ lines) hs)

normalize_newlines-keeps : (rs : Runes) → All IsPlain rs → normalize_newlines false rs ≡ rs
unfolding normalize_newlines
normalize_newlines-keeps [] h = refl
normalize_newlines-keeps (r ∷ rs) (h, hs) =
    let e : (r == 13) ≡ false = ground arith in
    rw e (ap (λ xs. r ∷ xs) (normalize_newlines-keeps rs hs))

sanitized-AllShown : (lines : List Runes) → All AllShown (map (sanitize_line false) lines)
sanitized-AllShown [] = tt
sanitized-AllShown (line ∷ lines) = (sanitize_line-IsShown false line, sanitized-AllShown lines)

map-sanitize_line :
    (lines : List Runes) → All AllShown lines → map (sanitize_line false) lines ≡ lines
map-sanitize_line [] h = refl
map-sanitize_line (line ∷ lines) (h, hs) =
    let e = sanitize_line-keeps false line h in let e' = map-sanitize_line lines hs in cc (e, e')

-- The lines of what is left are the lines of the text, each sanitized.
split_lines-sanitized :
    (rs : Runes)
    → split_lines
        (normalize_newlines false (join_lines (map (sanitize_line false) (split_lines rs))))
      ≡ map (sanitize_line false) (split_lines rs)
split_lines-sanitized rs =
    let (line, lines, e) = split_lines-cons rs in
    let Keeps : List Runes → Type 0 = λ ls.
      split_lines (normalize_newlines false (join_lines (map (sanitize_line false) ls)))
      ≡ map (sanitize_line false) ls in
    let parts = map (sanitize_line false) (line ∷ lines) in
    let shown = sanitized-AllShown (line ∷ lines) in
    subst Keeps (sym e) (
      ap split_lines (normalize_newlines-keeps (join_lines parts) (join_lines-IsPlain parts shown))
      ∙ split_lines-join_lines (sanitize_line false line) (map (sanitize_line false) lines) shown)

length-map : (f : Runes → Runes) (lines : List Runes) → length (map f lines) ≡ length lines
length-map f [] = refl
length-map f (line ∷ lines) = ap suc (length-map f lines)

-- What a mode leaves.
abbrev pub IsLeft : TerminalTextMode → ℕ → Type 0
IsLeft terminal_text_scalar r = IsShown r
IsLeft terminal_text_multiline r = IsPlain r

-- The lines of a text of a mode.
abbrev pub lines_of : TerminalTextMode → Runes → List Runes
lines_of terminal_text_scalar rs = rs ∷ []
lines_of terminal_text_multiline rs = split_lines (normalize_newlines false rs)

pub record IsInert (mode : TerminalTextMode) (input output : Runes) : Type 0 where
  pub left : All (IsLeft mode) output
  pub again : project_runes mode output ≡ output
  pub lines : length (lines_of mode output) ≡ length (lines_of mode input)

project_runes-IsInert :
    (mode : TerminalTextMode) (rs : Runes) → IsInert mode rs (project_runes mode rs)
unfolding project_runes
project_runes-IsInert terminal_text_scalar rs = record {
  left = sanitize_line-IsShown true rs;
  again = sanitize_line-keeps true (sanitize_line true rs) (sanitize_line-IsShown true rs);
  lines = refl;
}
project_runes-IsInert terminal_text_multiline rs =
    let lines = split_lines (normalize_newlines false rs) in
    let parts = map (sanitize_line false) lines in
    let e = split_lines-sanitized (normalize_newlines false rs) in
    record {
      left = join_lines-IsPlain parts (sanitized-AllShown lines);
      again =
          ap (λ ls. join_lines (map (sanitize_line false) ls)) e
          ∙ ap join_lines (map-sanitize_line parts (sanitized-AllShown lines));
      lines = ap length e ∙ length-map (sanitize_line false) lines;
    }

-- Whatever the bytes, what `ProjectTerminalText` returns has only runes that a terminal shows,
-- and, in the multiline mode, newlines: no control, no mark or override of direction, no other
-- separator of lines. It has as many lines as the text has in that mode, and projecting its runes
-- again changes nothing.
pub project_terminal_text-IsInert :
    (input : Bytes) (mode : TerminalTextMode)
    → IsInert mode (text_runes input) (project_terminal_text input mode)
unfolding project_terminal_text
project_terminal_text-IsInert input mode = project_runes-IsInert mode (text_runes input)
