-- ===== src/Presentation.antt =====
-- internal/presentation/terminal_text.go: the projection of untrusted text to inert text. A text of
-- valid UTF-8 is the list of its runes.
pub mod Fuel
pub mod Inert
use nudge.Base.{
  Bool, List, Option, [], false, if◌then◌else◌, length, ltb, map, none, some, suc, take, true, zero,
  ℕ, ◌%◌, ◌&&◌, ◌*◌, ◌++◌, ◌+◌, ◌-◌, ◌==◌, ◌||◌, ◌∷◌,
}
use nudge.Base.Bytes.{Bytes, codes}
use nudge.Base.Utf8.{full, invalid, scan_rune, short, within}

pub data TerminalTextMode : Type 0 where
  terminal_text_scalar terminal_text_multiline : TerminalTextMode

abbrev pub Runes : Type 0
Runes = List ℕ

-- U+FFFD.
abbrev pub replacement : ℕ
replacement = 0xFFFD

-- The code point of an encoding.
abbrev pub low_bits : ℕ → ℕ
low_bits c = c % 64

abbrev pub rune_value : Bytes → ℕ
rune_value (a ∷ []) = a
rune_value (a ∷ b ∷ []) = a % 32 * 64 + low_bits b
rune_value (a ∷ b ∷ c ∷ []) = a % 16 * 4096 + low_bits b * 64 + low_bits c
rune_value (a ∷ b ∷ c ∷ d ∷ []) = a % 8 * 262144 + low_bits b * 4096 + low_bits c * 64 + low_bits d
rune_value _ = replacement

-- The runes of a text, with `none` for a byte that begins no encoding. Every round passes over a
-- byte, so fuel for each of them is enough.
unfoldable pub runes_from : ℕ → Bytes → List (Option ℕ)
runes_from zero s = []
runes_from (suc fuel) [] = []
runes_from (suc fuel) (c ∷ s) = elim (scan_rune (c ∷ s)) [
  | full rest ↦
      some (rune_value (take (suc (length s) - length rest) (c ∷ s))) ∷ runes_from fuel rest
  | invalid ↦ none ∷ runes_from fuel s
  | short ↦ none ∷ runes_from fuel s
]

-- `strings.ToValidUTF8`: each run of bytes that are no encoding is replaced by one rune.
unfoldable pub valid_runes : Bool → List (Option ℕ) → Runes
valid_runes in_run [] = []
valid_runes in_run (some r ∷ runes) = r ∷ valid_runes false runes
valid_runes in_run (none ∷ runes) =
    let rest = valid_runes true runes in if in_run then rest else replacement ∷ rest

-- The runes of a text that was made valid.
abbrev pub text_runes : Bytes → Runes
text_runes input = valid_runes false (runes_from (length input) input)

-- `isBidiControl`.
abbrev pub is_bidi_control : ℕ → Bool
is_bidi_control r =
    r == 0x061C || r == 0x200E || r == 0x200F || within 0x202A 0x202E r || within 0x2066 0x2069 r

-- The cases of `sanitizeLine` that are replaced.
abbrev pub is_replaced : ℕ → Bool
is_replaced r =
    ltb r 0x20 || r == 0x7F || within 0x80 0x9F r || is_bidi_control r || r == 0x2028 || r == 0x2029

unfoldable pub sanitize_rune : Bool → ℕ → Runes
sanitize_rune show_newlines r =
    if r == 9
    then codes "\\t"
    else if show_newlines && r == 10
    then codes "\\n"
    else if show_newlines && r == 13
    then codes "\\r"
    else if is_replaced r
    then replacement ∷ []
    else r ∷ []

-- `sanitizeLine`.
unfoldable pub sanitize_line : Bool → Runes → Runes
sanitize_line show_newlines [] = []
sanitize_line show_newlines (r ∷ rs) =
    sanitize_rune show_newlines r ++ sanitize_line show_newlines rs

-- The replacer of "\r\n" and "\r" by "\n". `after_cr` is that the rune before was a carriage return, which is replaced already.
unfoldable pub normalize_newlines : Bool → Runes → Runes
normalize_newlines after_cr [] = []
normalize_newlines after_cr (r ∷ rs) =
    let rest = normalize_newlines (r == 13) rs in
    if r == 13 then 10 ∷ rest else if after_cr && r == 10 then rest else r ∷ rest

-- `strings.Split` at the newlines, and `strings.Join` with them.
abbrev pub onto_first : ℕ → List Runes → List Runes
onto_first r [] = (r ∷ []) ∷ []
onto_first r (line ∷ lines) = (r ∷ line) ∷ lines

unfoldable pub split_lines : Runes → List Runes
split_lines [] = [] ∷ []
split_lines (r ∷ rs) = let rest = split_lines rs in if r == 10 then [] ∷ rest else onto_first r rest

unfoldable pub join_lines : List Runes → Runes
join_lines [] = []
join_lines (line ∷ []) = line
join_lines (line ∷ lines) = line ++ 10 ∷ join_lines lines

-- `ProjectTerminalText` on the runes of a valid text.
unfoldable pub project_runes : TerminalTextMode → Runes → Runes
project_runes terminal_text_scalar rs = sanitize_line true rs
project_runes terminal_text_multiline rs =
    join_lines (map (sanitize_line false) (split_lines (normalize_newlines false rs)))

-- `ProjectTerminalText`.
unfoldable pub project_terminal_text : Bytes → TerminalTextMode → Runes
project_terminal_text input mode = project_runes mode (text_runes input)
