-- ===== src/Tests/Repo.antt =====
-- Modes.
use nudge.Base.{List, [], arith, false, length, refl, true, ℕ, ◌↔◌, ◌∷◌, ◌≡◌, ◌≤◌}
use nudge.Base.Bytes.{Bytes, codes}
use nudge.Base.Int.{pos}
use nudge.Base.Result.{Result, is_ok, is_ok-value, map_result, ok, ◌>>=◌}
use nudge.Base.Text.{split}
use nudge.Base.Utf8.{scan_rest, scan_rune, valid_text, valid_utf8}
use nudge.Repo.Content.{
  classify, classify_content, new_content_classifier, opaque_bytes, regular_text_utf8, take_runes,
  write,
}
use nudge.Repo.Content.Streaming.{classify-write_all, joined, write_all}
use nudge.Repo.Mode.{
  ModeTransition, new_mode_transition, unchanged, validate_git_mode, validate_mode_transition,
}
use nudge.Repo.Mode.Laws.{new_mode_transition-valid}
use nudge.Repo.Path.{RepoError, new_repo_path, validate_repo_path}
use nudge.Repo.Rename.{change_renamed, new_rename_evidence}
use nudge.Repo.Rename.Laws.{IsMoved, contents, new_rename_evidence-matches}
use nudge.Repo.Symlink.{
  SymlinkEvidence, classify_symlink_target, enter, git_admin_alias, is_actionable,
  lexically_escaping, move, new_symlink_evidence, new_symlink_target_ref, parent_of, resolve_target,
  symlink_evidence, symlink_reason, validate_symlink_evidence, walk,
}
use nudge.Repo.Symlink.Contained.{IsInside, new_symlink_evidence-IsInside}
use nudge.Repo.TextBytes.{new_text_writer, semantics}
use nudge.Repo.TextBytes.Evidence.{semantics-text_evidence, text_evidence}
use nudge.Repo.TextBytes.Stream.{write_texts}
use nudge.Repo.TextLines.{TextLineProjection, project_text_lines}
use nudge.Repo.TextLines.Cover.{AreLines, project_text_lines-AreLines}
use nudge.Tests.Digests.{zero_digest, zeros}

abbrev to_executable : Result RepoError ModeTransition
to_executable = new_mode_transition zero_digest 0o100644 0o100755

to_executable_ok : is_ok to_executable ≡ true
unfolding new_mode_transition validate_git_mode
to_executable_ok = refl

executable_value : ModeTransition
executable_value = (is_ok-value to_executable to_executable_ok).0

new_mode_transition-valid_example :
    (executable_value.old_mode ≡ 0o100644)
    × (executable_value.new_mode ≡ 0o100755)
    × ((executable_value.kind ≡ unchanged) ↔ (◌≡◌ {A = ℕ} 0o100644 0o100755))
    × (validate_mode_transition zero_digest executable_value ≡ ok tt)
unfolding executable_value
new_mode_transition-valid_example =
    new_mode_transition-valid zero_digest 0o100644 0o100755 executable_value
      (is_ok-value to_executable to_executable_ok).1

abbrev sibling_evidence : SymlinkEvidence
sibling_evidence = symlink_evidence zero_digest (codes "a/b/l") (codes "../c") [] [] [] (codes "v1")

new_symlink_evidence-IsInside_example :
    IsInside (codes "a/b/l") (codes "../c")
    × (sibling_evidence.path_key ≡ codes "a/b/l")
    × (sibling_evidence.target_hash ≡ zero_digest.digest (codes "../c"))
unfolding new_symlink_evidence symlink_evidence is_actionable validate_symlink_evidence
    classify_symlink_target resolve_target walk enter move parent_of split new_repo_path
    validate_repo_path valid_text valid_utf8 symlink_reason new_symlink_target_ref zeros
new_symlink_evidence-IsInside_example =
    new_symlink_evidence-IsInside zero_digest (codes "a/b/l") (codes "../c") [] [] [] (codes "v1")
      sibling_evidence refl refl

escaping_link :
    classify_symlink_target (codes "a/l") (codes "../../x") (pos 0) (pos 0) ≡ lexically_escaping
unfolding classify_symlink_target resolve_target walk enter move parent_of split validate_repo_path
escaping_link = refl

admin_link :
    classify_symlink_target (codes "a/l") (codes "../.GIT/x") (pos 0) (pos 0) ≡ git_admin_alias
unfolding classify_symlink_target resolve_target walk enter move parent_of split validate_repo_path
admin_link = refl

-- A two-byte rune that is cut between two chunks.
classify-write_all_example :
    classify (write_all (new_content_classifier false) ((b'a' ∷ 0xC3 ∷ []) ∷ (0xA9 ∷ []) ∷ []))
    ≡ classify_content (b'a' ∷ 0xC3 ∷ 0xA9 ∷ []) false
classify-write_all_example = classify-write_all false ((b'a' ∷ 0xC3 ∷ []) ∷ (0xA9 ∷ []) ∷ [])

cut_rune :
    classify (write_all (new_content_classifier false) ((b'a' ∷ 0xC3 ∷ []) ∷ (0xA9 ∷ []) ∷ []))
    ≡ regular_text_utf8
unfolding classify write take_runes scan_rune scan_rest
cut_rune = refl

unfinished_rune :
    classify (write_all (new_content_classifier false) ((b'a' ∷ 0xC3 ∷ []) ∷ [])) ≡ opaque_bytes
unfolding classify write take_runes scan_rune scan_rest
unfinished_rune = refl

abbrev two_chunks : List Bytes
two_chunks = (b'a' ∷ b'\r' ∷ []) ∷ (b'\n' ∷ b'b' ∷ b'\n' ∷ []) ∷ []

semantics-text_evidence_example :
    (write_texts new_text_writer two_chunks >>= λ w. semantics zero_digest w 5)
    ≡ ok (text_evidence zero_digest (b'a' ∷ b'\r' ∷ b'\n' ∷ b'b' ∷ b'\n' ∷ []))
semantics-text_evidence_example = semantics-text_evidence zero_digest two_chunks (omega arith)

cut_ending :
    (text_evidence zero_digest (joined two_chunks)).endings
    ≡ record { lf_count = 1; crlf_count = 1; cr_count = 0; final_lf = true; mixed = true }
cut_ending = refl

abbrev two_lines : Bytes
two_lines = codes "a\r\nb"

project_text_lines-AreLines_example :
    (ls : List TextLineProjection) × (project_text_lines two_lines ≡ ok ls)
    × AreLines 0 two_lines ls
    × (1 ≤ length ls)
unfolding valid_utf8
project_text_lines-AreLines_example = project_text_lines-AreLines two_lines refl

new_rename_evidence-matches_example :
    ((is_ok (new_rename_evidence zero_digest 1 60 change_renamed (codes "a") (codes "b")) ≡ true)
      ↔ IsMoved 1 60 change_renamed (codes "a") (codes "b"))
    × (map_result
          (contents zero_digest (codes "a") (codes "b"))
          (new_rename_evidence zero_digest 1 60 change_renamed (codes "a") (codes "b"))
        ≡ map_result
            (λ e. (1, 60, change_renamed, true))
            (new_rename_evidence zero_digest 1 60 change_renamed (codes "a") (codes "b")))
new_rename_evidence-matches_example =
    new_rename_evidence-matches zero_digest 1 60 change_renamed (codes "a") (codes "b")
