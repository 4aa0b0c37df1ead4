-- ===== src/Diff/Scanner/Ranges/Slices.antt =====
-- The ranges that internal/diff/parser.go reads from a faithful source.
use nudge.Base.{
  Bool, Bool-cases, [], ap, arith, drop, false, if◌then◌else◌, inl, inr, length, ltb, ltb→lt, refl,
  some, suc, sym, take, true, zero, ℕ, ◌++◌, ◌+◌, ◌-◌, ◌<◌, ◌∙◌, ◌∷◌, ◌≡◌, ◌≤◌,
}
use nudge.Base.Bytes.{Bytes}
use nudge.Base.Int.{negsuc, pos, pos_part, ℤ}
use nudge.Base.Result.{Result, err, map_result, ok}
use nudge.Diff.Limits.{PatchError, truncated}
use nudge.Diff.Scanner.{PatchSource}
use nudge.Diff.Scanner.Lines.{Holds, drop-drop, length-slice, take-add}
use nudge.Diff.Scanner.Ranges.{
  Read, hash_range, hash_read, hashed_range, outside, range_from, range_part, read_range,
}
use nudge.Repo.Digest.{Digest}

module _ (source : PatchSource) (cancelled : ℕ → Bool) (chunk : ℕ → ℕ) where
  stops :
      (fuel offset count : ℕ) (out : Bytes)
      → ltb (length out) count ≡ false
      → range_from source cancelled chunk (suc fuel) offset count out ≡ some (ok out)
  unfolding range_from
  stops fuel offset count out e = ground (arith, e)

  goes_on :
      (fuel offset count : ℕ) (out : Bytes)
      → ltb (length out) count ≡ true
      → cancelled (length out) ≡ false
      → range_from source cancelled chunk (suc fuel) offset count out
        ≡ range_part
            (chunk (count - length out))
            out
            (source.read_at (chunk (count - length out)) (offset + length out))
            (range_from source cancelled chunk fuel offset count)
  unfolding range_from
  goes_on fuel offset count out e c = ground (arith, e, c)

range_part-more :
    (want : ℕ) (out bytes : Bytes) (more : Bytes → Read)
    → 0 < length bytes
    → length bytes ≤ want
    → range_part want out (record { bytes = bytes; failed = false }) more ≡ more (out ++ bytes)
unfolding range_part
range_part-more want out [] more p q = absurd (omega arith)
range_part-more want out (c ∷ bytes) more p q = ground arith

module _ (source : PatchSource) (content : Bytes) (h : Holds source content) (chunk : ℕ → ℕ)
    (asks : (missing : ℕ) → 0 < missing → (0 < chunk missing) × (chunk missing ≤ missing)) where
  range_from-slice :
      (fuel offset count done : ℕ)
      → count - done < fuel
      → done ≤ count
      → offset + count ≤ length content
      → range_from source (λ _. false) chunk fuel offset count (take done (drop offset content))
        ≡ some (ok (take count (drop offset content)))
  range_from-slice zero offset count done m le inside = absurd (omega arith)
  range_from-slice (suc fuel) offset count done m le inside = elim (Bool-cases (ltb done count)) [
    | inr e ↦
        let same : done ≡ count = ground (arith, e, le) in
        stops source (λ _. false) chunk fuel offset count out (ground (arith, e, len))
        ∙ ap (λ n. some (ok (take n (drop offset content)))) same
    | inl e ↦
        let (some_wanted, few) = asks (count - done) (ground (arith, e)) in
        let (k, some_read, le', read) =
          h.reads (chunk (count - done)) (offset + done) some_wanted
            (omega (arith, ltb→lt done count e)) in
        goes_on source (λ _. false) chunk fuel offset count out (ground (arith, e, len)) refl
        ∙ ap
            (λ n.
              range_part (chunk (count - n)) out (source.read_at (chunk (count - n)) (offset + n))
                more)
            len
        ∙ ap (λ r. range_part (chunk (count - done)) out r more) read
        ∙ range_part-more (chunk (count - done)) out (take k (drop (offset + done) content)) more
            (rw (length-slice k (offset + done) content (within_content k le' few e)) some_read)
            (rw (length-slice k (offset + done) content (within_content k le' few e)) le')
        ∙ ap more (
            ap (λ bytes. out ++ take k bytes) (sym (drop-drop offset done content))
            ∙ take-add done k (drop offset content))
        ∙ range_from-slice fuel offset count (done + k) (omega arith) (omega arith) inside
  ]
    where
      out : Bytes
      out = take done (drop offset content)

      more : Bytes → Read
      more = range_from source (λ _. false) chunk fuel offset count

      within_content :
          (k : ℕ)
          → k ≤ chunk (count - done)
          → chunk (count - done) ≤ count - done
          → ltb done count ≡ true
          → offset + done + k ≤ length content
      within_content k le' few e = omega (arith, ltb→lt done count e)

      len : length out ≡ done
      len = length-slice done offset content (omega arith)

-- The bytes of a range of the content, or the error that there is no such range.
abbrev pub slice_of : Bytes → ℤ → ℤ → Result PatchError Bytes
slice_of content (negsuc offset) count = err truncated
slice_of content (pos offset) (negsuc count) = err truncated
slice_of content (pos offset) (pos count) =
    if ltb (length content) (offset + count)
    then err truncated
    else ok (take count (drop offset content))

module _ (source : PatchSource) (content : Bytes) (h : Holds source content) where
  range-slice :
      (chunk : ℕ → ℕ) (offset count : ℤ)
      → ((missing : ℕ) → 0 < missing → (0 < chunk missing) × (chunk missing ≤ missing))
      → (if outside source (λ _. false) offset count
          then some (err truncated)
          else range_from source
              (λ _. false)
              chunk
              (suc (pos_part count))
              (pos_part offset)
              (pos_part count)
              [])
        ≡ some (slice_of content offset count)
  range-slice chunk (negsuc offset) count asks = refl
  range-slice chunk (pos offset) (negsuc count) asks = refl
  range-slice chunk (pos offset) (pos count) asks =
      elim (Bool-cases (ltb (length content) (offset + count))) [
        | inl e ↦
            let out : outside source (λ _. false) (pos offset) (pos count) ≡ true =
              ground (arith, e, h.whole) in
            rw (out, e) refl
        | inr e ↦
            let inside : outside source (λ _. false) (pos offset) (pos count) ≡ false =
              ground (arith, e, h.whole) in
            rw (inside, e)
              (range_from-slice source content h chunk asks (suc count) offset count 0 (omega arith)
                (omega arith) (ground (arith, e)))
      ]

  -- For a source that holds a content, with a context that does not end, `readRange` returns the
  -- bytes of the range, `hashRange` the digest of these bytes, and both `ErrPatchTruncated` when
  -- the range is not within the content, however short the source's reads are: the loops end.
  pub read_range-slice :
      (d : Digest) (offset count : ℤ)
      → (read_range source (λ _. false) offset count ≡ some (slice_of content offset count))
        × (hash_range source (λ _. false) d offset count
            ≡ some (map_result d.digest (slice_of content offset count)))
  unfolding read_range hash_range hashed_range
  read_range-slice d offset count = (
    range-slice (λ missing. missing) offset count (λ missing p. (p, omega arith)),
    ap (hash_read d) (range-slice _ offset count (λ missing p. (ground (arith, p), ground arith))),
  )
