-- ===== src/Diff/Records/Forget.antt =====
-- A builder without what it collects, as the index pass keeps it, and the metadata records over it.
use nudge.Base.{List, Option, [], false, none, refl, some, ◌∷◌, ◌≡◌}
use nudge.Base.Bytes.{Bytes, codes}
use nudge.Base.Result.{map_result, map_result-step}
use nudge.Base.Text.{fields, split}
use nudge.Diff.Builder.{HunkBuilder, PatchLine, SectionBuilder}
use nudge.Diff.Header.{parse_mode, parse_patch_path_line, parse_similarity_percent}
use nudge.Diff.Records.{
  RecordKind, binary_files, consume_index, consume_record, copy_from_record, copy_to_record,
  deleted_file_record, dissimilarity_index, git_binary, hunk_header, index_fields, index_record,
  moved_path, new_file_line, new_file_record, new_mode_record, object_range, old_file_record,
  old_mode_record, rename_from_record, rename_to_record, similarity_index, unknown_record,
}

-- The open hunk without its lines.
abbrev pub forget_hunk : HunkBuilder → HunkBuilder
forget_hunk h = record h { lines = []; last_content_index = none }

abbrev pub forget_open : Option HunkBuilder → Option HunkBuilder
forget_open none = none
forget_open (some h) = some (forget_hunk h)

abbrev pub forget : SectionBuilder → SectionBuilder
forget b = record b { hunk = forget_open b.hunk; diff_hunks = []; collect = false }

index_fields-forget :
    (b : SectionBuilder) (fs : List Bytes)
    → index_fields (forget b) fs ≡ map_result forget (index_fields b fs)
unfolding index_fields
index_fields-forget b [] = refl
index_fields-forget b (r ∷ []) =
    map_result-step forget (object_range (split r (codes ".."))) _ _ (λ o e. refl)
index_fields-forget b (r ∷ m ∷ []) =
    map_result-step forget (object_range (split r (codes ".."))) _ _
      (λ o e. map_result-step forget (parse_mode m) _ _ (λ x f. refl))
index_fields-forget b (r ∷ m ∷ x ∷ fs) = refl

pub consume_record-forget :
    (b : SectionBuilder) (line : PatchLine) (k : RecordKind)
    → consume_record (forget b) line k ≡ map_result forget (consume_record b line k)
unfolding consume_record consume_index
consume_record-forget b line git_binary = refl
consume_record-forget b line binary_files = refl
consume_record-forget b line (index_record raw) = index_fields-forget b (fields raw)
consume_record-forget b line (old_mode_record raw) =
    map_result-step forget (parse_mode raw) _ _ (λ x f. refl)
consume_record-forget b line (new_mode_record raw) =
    map_result-step forget (parse_mode raw) _ _ (λ x f. refl)
consume_record-forget b line (new_file_record raw) =
    map_result-step forget (parse_mode raw) _ _ (λ x f. refl)
consume_record-forget b line (deleted_file_record raw) =
    map_result-step forget (parse_mode raw) _ _ (λ x f. refl)
consume_record-forget b line (rename_from_record raw) =
    map_result-step forget (moved_path raw) _ _ (λ x f. refl)
consume_record-forget b line (rename_to_record raw) =
    map_result-step forget (moved_path raw) _ _ (λ x f. refl)
consume_record-forget b line (copy_from_record raw) =
    map_result-step forget (moved_path raw) _ _ (λ x f. refl)
consume_record-forget b line (copy_to_record raw) =
    map_result-step forget (moved_path raw) _ _ (λ x f. refl)
consume_record-forget b line (old_file_record raw) =
    map_result-step forget (parse_patch_path_line raw (codes "a/")) _ _ (λ x f. refl)
consume_record-forget b line (new_file_line raw) =
    map_result-step forget (parse_patch_path_line raw (codes "b/")) _ _ (λ x f. refl)
consume_record-forget b line (similarity_index raw) =
    map_result-step forget (parse_similarity_percent raw) _ _ (λ x f. refl)
consume_record-forget b line dissimilarity_index = refl
consume_record-forget b line hunk_header = refl
consume_record-forget b line unknown_record = refl
