-- ===== src/Tests/Presentation.antt =====
-- Texts with an escape, a tab, and the three kinds of newline.
use nudge.Base.{[], refl, ◌++◌, ◌∷◌, ◌≡◌}
use nudge.Base.Bytes.{Bytes, codes}
use nudge.Base.Utf8.{scan_rest, scan_rune}
use nudge.Presentation.{
  join_lines, normalize_newlines, project_runes, project_terminal_text, replacement, runes_from,
  sanitize_line, sanitize_rune, split_lines, terminal_text_multiline, terminal_text_scalar,
  text_runes, valid_runes,
}
use nudge.Presentation.Inert.{IsInert, project_terminal_text-IsInert}

abbrev mixed : Bytes
mixed = codes "\r\n\ta\r" ++ 27 ∷ 0xE2 ∷ 0x80 ∷ 0xAE ∷ []

project_terminal_text-IsInert_example :
    IsInert terminal_text_multiline
      (text_runes mixed)
      (project_terminal_text mixed terminal_text_multiline)
project_terminal_text-IsInert_example = project_terminal_text-IsInert mixed terminal_text_multiline

-- "é", an escape, two bytes that are no encoding, and a newline.
scalar_text :
    project_terminal_text (0xC3 ∷ 0xA9 ∷ 27 ∷ 0xFF ∷ 0xC3 ∷ 10 ∷ []) terminal_text_scalar
    ≡ 0xE9 ∷ replacement ∷ replacement ∷ codes "\\n"
unfolding project_terminal_text project_runes runes_from scan_rune scan_rest valid_runes
    sanitize_line sanitize_rune
scalar_text = refl

multiline_text :
    project_terminal_text (codes "a\r\nb\tc\rd") terminal_text_multiline ≡ codes "a\nb\\tc\nd"
unfolding project_terminal_text project_runes runes_from scan_rune scan_rest valid_runes
    sanitize_line sanitize_rune normalize_newlines split_lines join_lines
multiline_text = refl

-- U+202E, in its three bytes.
bidi_text :
    project_terminal_text (0xE2 ∷ 0x80 ∷ 0xAE ∷ []) terminal_text_multiline ≡ replacement ∷ []
unfolding project_terminal_text project_runes runes_from scan_rune scan_rest valid_runes
    sanitize_line sanitize_rune normalize_newlines split_lines join_lines
bidi_text = refl
