-- ===== src/Review/Values.antt =====
-- internal/domain/review/validation.go: identifiers, metadata, times and the errors of the package.
use nudge.Base.{Bool, not, ◌&&◌, ◌||◌}
use nudge.Base.Bytes.{Bytes, is_empty}
use nudge.Base.Utf8.{valid_utf8}

pub data ReviewError : Type 0 where
  invalid_review_thread invalid_code_anchor invalid_message invalid_status_transition : ReviewError
  invalid_state invalid_proposal invalid_proposal_transition : ReviewError

-- `validReviewID`, and `validDomainID` at the types of identifiers that it is called with.
abbrev pub valid_domain_id : Bytes → Bool
valid_domain_id value = not (is_empty value)

-- `validMetadata`.
unfoldable pub valid_metadata : Bytes → Bool
valid_metadata value = not (is_empty value) && valid_utf8 value

-- `validOptionalMetadata`.
unfoldable pub valid_optional_metadata : Bytes → Bool
valid_optional_metadata value = is_empty value || valid_utf8 value
