-- ===== src/Repo/Content.antt =====
-- internal/domain/repository/content_class.go: the class of a file's bytes, at once and in chunks.
pub mod Scan
pub mod Streaming
use nudge.Base.{Bool, [], false, if◌then◌else◌, length, not, suc, true, zero, ℕ, ◌++◌, ◌||◌, ◌∷◌}
use nudge.Base.Bytes.{Bytes, has_byte, is_empty}
use nudge.Base.Result.{Result, err, ok}
use nudge.Base.Utf8.{full, invalid, scan_rune, short, valid_utf8}
use nudge.Repo.Path.{RepoError, invalid_content_class}

-- `content_unset` is the empty string, and `content_other s` any other string that is no constant.
pub data ContentClassV1 : Type 0 where
  regular_text_utf8 regular_binary opaque_bytes content_unset : ContentClassV1
  content_other : Bytes → ContentClassV1

-- `ContentClassV1.Validate`.
abbrev pub validate_content_class : ContentClassV1 → Result RepoError (Unit {0})
validate_content_class content_unset = err invalid_content_class
validate_content_class (content_other s) = err invalid_content_class
validate_content_class _ = ok tt

-- `IsByteOriented`.
abbrev pub is_byte_oriented : ContentClassV1 → Bool
is_byte_oriented regular_binary = true
is_byte_oriented opaque_bytes = true
is_byte_oriented _ = false

-- `ClassifyContentV1`.
unfoldable pub classify_content : Bytes → Bool → ContentClassV1
classify_content bytes explicit_binary_patch =
    if explicit_binary_patch || has_byte 0 bytes
    then regular_binary
    else if valid_utf8 bytes
    then regular_text_utf8
    else opaque_bytes

pub record ContentClassifierV1 : Type 0 where
  pub explicit_binary_patch : Bool
  pub nul : Bool
  pub invalid_seen : Bool
  pub pending : Bytes

-- `NewContentClassifierV1`.
abbrev pub new_content_classifier : Bool → ContentClassifierV1
new_content_classifier explicit_binary_patch = record {
  explicit_binary_patch = explicit_binary_patch;
  nul = false;
  invalid_seen = false;
  pending = [];
}

-- The loop of `Write` over the bytes that are combined: what is left pending, and whether the bytes are
-- invalid. Every round passes over a byte, so fuel for each of them is enough.
unfoldable pub take_runes : ℕ → Bytes → Bytes × Bool
take_runes zero s = ([], false)
take_runes (suc fuel) [] = ([], false)
take_runes (suc fuel) (c ∷ s) = elim (scan_rune (c ∷ s)) [
  | short ↦ (c ∷ s, false)
  | invalid ↦ ([], true)
  | full rest ↦ take_runes fuel rest
]

-- `Write`, from the classifier to the changed classifier.
unfoldable pub write : ContentClassifierV1 → Bytes → ContentClassifierV1
write c bytes =
    let nul = c.nul || has_byte 0 bytes in
    let combined = c.pending ++ bytes in
    let out = take_runes (length combined) combined in
    if c.invalid_seen
    then record c { nul = nul }
    else record c { nul = nul; pending = out.0; invalid_seen = out.1 }

abbrev is_nonempty : Bytes → Bool
is_nonempty s = not (is_empty s)

-- `Classify`.
unfoldable pub classify : ContentClassifierV1 → ContentClassV1
classify c =
    if c.explicit_binary_patch || c.nul
    then regular_binary
    else if c.invalid_seen || is_nonempty c.pending
    then opaque_bytes
    else regular_text_utf8
