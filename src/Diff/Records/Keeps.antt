-- ===== src/Diff/Records/Keeps.antt =====
-- What a metadata record leaves alone.
use nudge.Base.{List, [], arith, ◌∷◌, ◌≡◌}
use nudge.Base.Bytes.{Bytes}
use nudge.Base.Result.{ok}
use nudge.Base.Text.{fields}
use nudge.Diff.Builder.{PatchLine, SectionBuilder}
use nudge.Diff.Records.{
  RecordKind, consume_index, consume_record, hunk_header, index_fields, index_record,
}

-- The rows and hunks of two builders are the same.
pub record SameRows (b b' : SectionBuilder) : Type 0 where
  pub same_hunk : b'.hunk ≡ b.hunk
  pub same_hunks : b'.hunks ≡ b.hunks
  pub same_diff_hunks : b'.diff_hunks ≡ b.diff_hunks
  pub same_rows : b'.total_rows ≡ b.total_rows
  pub same_collect : b'.collect ≡ b.collect
  pub same_start : b'.start ≡ b.start

index_fields-SameRows :
    (b b' : SectionBuilder) (fs : List Bytes) → index_fields b fs ≡ ok b' → SameRows b b'
unfolding index_fields
index_fields-SameRows b b' [] e = ground arith
index_fields-SameRows b b' (r ∷ []) e = ground arith
index_fields-SameRows b b' (r ∷ m ∷ []) e = ground arith
index_fields-SameRows b b' (r ∷ m ∷ x ∷ fs) e = ground arith

consume_index-SameRows :
    (b b' : SectionBuilder) (s : Bytes) → consume_index b s ≡ ok b' → SameRows b b'
unfolding consume_index
consume_index-SameRows b b' s e = index_fields-SameRows b b' (fields s) e

pub consume_record-SameRows :
    (b b' : SectionBuilder) (line : PatchLine) (k : RecordKind)
    → consume_record b line k ≡ ok b'
    → SameRows b b'
unfolding consume_record
consume_record-SameRows b b' line (index_record raw) e = consume_index-SameRows b b' raw e
consume_record-SameRows b b' line hunk_header e = ground arith
consume_record-SameRows b b' line _ e = ground arith
