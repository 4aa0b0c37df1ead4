-- ===== src/Diff/Header/Ranges.antt =====
-- The ranges that a hunk header is read to.
use nudge.Base.{List, Option-cases, [], arith, drop, inl, inr, not, take, true, ℕ, ◌==◌, ◌∷◌, ◌≡◌}
use nudge.Base.Bytes.{Bytes, codes, has_prefix}
use nudge.Base.Result.{>>=-eq-ok, fail_if, ok}
use nudge.Base.Text.{fields, index_of, split}
use nudge.Diff.Header.{HunkRanges, parse_hunk_header, parse_hunk_range, range_parts, two_ranges}
use nudge.Diff.Limits.{malformed}
use nudge.Repo.Hunk.{valid_hunk_range}

-- A range of one or more lines starts at a line.
abbrev pub IsRange : ℕ × ℕ → Type 0
IsRange (first_line, size) = valid_hunk_range first_line size ≡ true

range_parts-IsRange : (ps : List Bytes) (r : ℕ × ℕ) → range_parts ps ≡ ok r → IsRange r
unfolding range_parts valid_hunk_range
range_parts-IsRange [] r e = absurd (ground arith)
range_parts-IsRange (p ∷ []) r e = ground arith
range_parts-IsRange (p ∷ q ∷ []) r e = ground arith
range_parts-IsRange (p ∷ q ∷ x ∷ ps) r e = absurd (ground arith)

parse_hunk_range-IsRange : (s : Bytes) (c : ℕ) (r : ℕ × ℕ) → parse_hunk_range s c ≡ ok r → IsRange r
unfolding parse_hunk_range
parse_hunk_range-IsRange [] c r e = absurd (ground arith)
parse_hunk_range-IsRange (a ∷ []) c r e = absurd (ground arith)
parse_hunk_range-IsRange (a ∷ b ∷ s) c r e =
    let (u, f, g) = >>=-eq-ok (fail_if (not (a == c)) malformed) _ e in
    range_parts-IsRange (split (b ∷ s) (codes ",")) r g

-- Both ranges of a header.
abbrev pub AreRanges : HunkRanges → Type 0
AreRanges r = IsRange (r.base_start, r.base_count) × IsRange (r.head_start, r.head_count)

two_ranges-AreRanges : (fs : List Bytes) (r : HunkRanges) → two_ranges fs ≡ ok r → AreRanges r
unfolding two_ranges
two_ranges-AreRanges [] r e = absurd (ground arith)
two_ranges-AreRanges (f ∷ []) r e = absurd (ground arith)
two_ranges-AreRanges (f ∷ g ∷ []) r e =
    let (base, p, after) = >>=-eq-ok (parse_hunk_range f b'-') _ e in
    let (head, q, done) = >>=-eq-ok (parse_hunk_range g b'+') _ after in
    let base_range = parse_hunk_range-IsRange f b'-' base p in
    let head_range = parse_hunk_range-IsRange g b'+' head q in ground arith
two_ranges-AreRanges (f ∷ g ∷ x ∷ fs) r e = absurd (ground arith)

-- In an accepted hunk header a side that counts lines starts at a line from one on.
pub parse_hunk_header-AreRanges :
    (s : Bytes) (r : HunkRanges) → parse_hunk_header s ≡ ok r → AreRanges r
unfolding parse_hunk_header
parse_hunk_header-AreRanges s r e =
    let (u, f, g) = >>=-eq-ok (fail_if (not (has_prefix s (codes "@@ "))) malformed) _ e in
    elim (Option-cases (index_of (codes " @@") (drop 3 s))) [
      | inl n ↦ absurd (cc (rw n at g))
      | inr (i, n) ↦ two_ranges-AreRanges (fields (take i (drop 3 s))) r (rw n at g)
    ]
