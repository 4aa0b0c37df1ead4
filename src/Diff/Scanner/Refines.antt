-- ===== src/Diff/Scanner/Refines.antt =====
-- The chunked scanner of internal/diff/parser.go refines the cut of a whole text into lines.
use mathlib.Core.Path.{subst}
use nudge.Base.{
  Bool-cases, Option, Option-cases, [], ap, append-nil, append_assoc, arith, drop, false, inl, inr,
  length, length-append, ltb, none, refl, some, suc, sym, true, zero, ℕ, ◌++◌, ◌+◌, ◌-◌, ◌<◌, ◌∙◌,
  ◌∷◌, ◌≡◌, ◌≤◌,
}
use nudge.Base.Bytes.{Bytes, is_empty}
use nudge.Base.Result.{err, ok}
use nudge.Diff.Builder.{PatchLine}
use nudge.Diff.Limits.{limited}
use nudge.Diff.Scanner.{
  PatchScanner, PatchSource, Scan, behind, cut_line, last_line, next, next_from, scan_buffer,
  scan_filled, scan_part,
}
use nudge.Diff.Scanner.Fill.{fill-IsFilled}
use nudge.Diff.Scanner.Lines.{
  Holds, IsRefined, IsScanning, behind-IsScanning, cut_line-append, cut_line-joins,
  cut_line-unbroken, drop_all, left, line_of, line_of-long, text_line, text_line-broken,
  text_line-last, text_line-long, text_line-nil,
}

module _ (source : PatchSource) (content : Bytes) (h : Holds source content) (max_line : ℕ) where
  -- What a round of `next` starts with: a line without a newline, read up to the scanner.
  record IsReading (start : ℕ) (line : Bytes) (s : PatchScanner) : Type 0 where
    scanning : IsScanning content s
    reached : start + length line ≡ s.consumed
    unbroken : (cut_line line).1 ≡ none
    fits : length line ≤ max_line

  abbrev Goal : ℕ → Bytes → PatchScanner → Scan → Type 0
  Goal start line s scan =
      IsRefined content scan (text_line max_line start (line ++ left content s))

  last_line-IsRefined :
      (start : ℕ) (line : Bytes) (s : PatchScanner)
      → IsReading start line s
      → s.buffer ≡ []
      → s.eof ≡ true
      → Goal start line s (last_line start line s)
  unfolding last_line
  last_line-IsRefined start line s i b e = go line i
    where
      nothing : left content s ≡ []
      nothing =
          ap (λ bytes. bytes ++ drop s.read_at content) b
          ∙ ap (λ n. drop n content) (i.scanning.ended e)
          ∙ drop_all content

      go : (line : Bytes) → IsReading start line s → Goal start line s (last_line start line s)
      go [] r = (r.scanning, rw nothing (text_line-nil max_line start))
      go (c ∷ line) r = (
        r.scanning,
        rw (nothing, append-nil (c ∷ line), sym r.reached)
            (text_line-last max_line start c line r.unbroken r.fits),
      )

  module _ (start : ℕ) (line : Bytes) (s : PatchScanner) (more : Bytes → PatchScanner → Scan)
      (i : IsReading start line s) where
    scan_whole :
        (cut_line s.buffer).1 ≡ none
        → ltb max_line (length line + length s.buffer) ≡ false
        → IsReading start (line ++ s.buffer) (behind s (length s.buffer) [])
    scan_whole k fits = record {
      scanning =
          behind-IsScanning content s (length s.buffer) s.buffer [] i.scanning
            (sym (append-nil s.buffer)) refl;
      reached = omega (arith, i.reached, length-append line s.buffer);
      unbroken = rw (cut_line-append line s.buffer i.unbroken) k;
      fits = ground (arith, fits, length-append line s.buffer);
    }

    -- The loop goes on behind the buffer, with the invariant.
    abbrev GoesOn : Type 0
    GoesOn =
        (line' : Bytes)
        → IsReading start line' (behind s (length s.buffer) [])
        → Goal start line' (behind s (length s.buffer) [])
            (more line' (behind s (length s.buffer) []))

    too_long :
        (part : Bytes) (rest : Option Bytes)
        → ltb max_line (length line + length part) ≡ true
        → scan_part max_line start line s (part, rest) more ≡ some (err limited)
    unfolding scan_part
    too_long part none e = ground (arith, e)
    too_long part (some rest) e = ground (arith, e)

    goes_on :
        (part : Bytes)
        → ltb max_line (length line + length part) ≡ false
        → scan_part max_line start line s (part, none) more
          ≡ more (line ++ part) (behind s (length part) [])
    unfolding scan_part
    goes_on part e = ground (arith, e)

    abbrev cut_off : Bytes → PatchLine
    cut_off part = record {
      offset = start;
      end = s.consumed + (length part + 1);
      text = line ++ part;
      terminated = true;
    }

    ends :
        (part rest : Bytes)
        → ltb max_line (length line + length part) ≡ false
        → scan_part max_line start line s (part, some rest) more
          ≡ some (ok (some (cut_off part), behind s (length part + 1) rest))
    unfolding scan_part
    ends part rest e = ground (arith, e)

    whole_buffer :
        (cut_line s.buffer).1 ≡ none
        → GoesOn
        → Goal start line s (scan_part max_line start line s (s.buffer, none) more)
    whole_buffer k ih = elim (Bool-cases (ltb max_line (length line + length s.buffer))) [
      | inl e ↦
          subst (Goal start line s) (sym (too_long s.buffer none e))
            (text_line-long max_line start line s.buffer (drop s.read_at content) i.unbroken k e)
      | inr e ↦ subst (Goal start line s) (sym (goes_on s.buffer e)) (
          subst
            (λ text.
              IsRefined content (more (line ++ s.buffer) (behind s (length s.buffer) []))
                (text_line max_line start text))
            (append_assoc line s.buffer (drop s.read_at content))
            (ih (line ++ s.buffer) (scan_whole k e)))
    ]

    line_end :
        (part rest : Bytes)
        → ltb max_line (length line + length part) ≡ false
        → line_of max_line start (line ++ part, some (rest ++ drop s.read_at content))
          ≡ ok (some (cut_off part), rest ++ drop s.read_at content)
    line_end part rest e =
        let short_enough : ltb max_line (length (line ++ part)) ≡ false =
          ground (arith, e, length-append line part) in
        let same_end : start + (length (line ++ part) + 1) ≡ s.consumed + (length part + 1) =
          omega (arith, i.reached, length-append line part) in
        rw (short_enough, same_end) refl

    broken_buffer :
        (rest : Bytes)
        → (cut_line s.buffer).1 ≡ some rest
        → Goal start line s
            (scan_part max_line start line s ((cut_line s.buffer).0, some rest) more)
    broken_buffer rest k =
        let part = (cut_line s.buffer).0 in
        let after = drop s.read_at content in
        let cut = text_line-broken max_line start line s.buffer after i.unbroken rest k in
        elim (Bool-cases (ltb max_line (length line + length part))) [
          | inl e ↦ subst (Goal start line s) (sym (too_long part (some rest) e)) (
              cut
              ∙ line_of-long max_line start (line ++ part) (some (rest ++ after))
                  (ground (arith, e, length-append line part)))
          | inr e ↦ subst (Goal start line s) (sym (ends part rest e)) (
            behind-IsScanning content s (length part + 1) (part ++ 10 ∷ []) rest i.scanning
                (cut_line-joins s.buffer rest k ∙ sym (append_assoc part (10 ∷ []) rest))
                (omega (arith, length-append part (10 ∷ []))),
            cut ∙ line_end part rest e,
          )
        ]

    part-IsRefined :
        GoesOn → Goal start line s (scan_part max_line start line s (cut_line s.buffer) more)
    part-IsRefined ih = elim (Option-cases (cut_line s.buffer).1) [
      | inl k ↦
          subst (λ cut. Goal start line s (scan_part max_line start line s cut more))
            (sym (cut_line-unbroken s.buffer k)) (whole_buffer k ih)
      | inr (rest, k) ↦
          subst
            (λ o.
              Goal start line s (scan_part max_line start line s ((cut_line s.buffer).0, o) more))
            (sym k) (broken_buffer rest k)
    ]

    at_end : s.eof ≡ true → scan_buffer max_line start line s [] more ≡ last_line start line s
    unfolding scan_buffer
    at_end e = ground (arith, e)

    -- After a `fill`: a buffer with bytes is scanned, and without bytes the source is at its end.
    buffer-IsRefined :
        (b : Bytes)
        → s.buffer ≡ b
        → (is_empty b ≡ true → s.eof ≡ true)
        → (is_empty b ≡ false → GoesOn)
        → Goal start line s (scan_buffer max_line start line s b more)
    unfolding scan_buffer
    buffer-IsRefined [] e p ih =
        subst (Goal start line s) (sym (at_end (p refl)))
          (last_line-IsRefined start line s i e (p refl))
    buffer-IsRefined (c ∷ b) e p ih =
        subst (λ b'. Goal start line s (scan_part max_line start line s (cut_line b') more)) e
          (part-IsRefined (ih refl))

  some_bytes : (b : Bytes) → is_empty b ≡ false → 0 < length b
  some_bytes [] h = absurd (cc h)
  some_bytes (c ∷ b) h = omega arith

  next_from-IsRefined :
      (fuel start : ℕ) (line : Bytes) (s : PatchScanner)
      → (source.size - s.read_at) + length s.buffer < fuel
      → IsReading start line s
      → Goal start line s (next_from source max_line fuel start line s)
  unfolding next_from scan_filled
  next_from-IsRefined zero start line s m i = absurd (omega arith)
  next_from-IsRefined (suc fuel) start line s m i =
      let (s', e, f) = fill-IsFilled source content h s i.scanning in
      let more = next_from source max_line fuel start in
      let reading : IsReading start line s' = record {
        scanning = f.scanning;
        reached = i.reached ∙ sym f.same;
        unbroken = i.unbroken;
        fits = i.fits;
      } in
      subst (λ r. Goal start line s (scan_filled max_line start line r more)) (sym e)
        (subst
          (λ text.
            IsRefined content (scan_buffer max_line start line s' s'.buffer more)
              (text_line max_line start (line ++ text)))
          f.rest
          (buffer-IsRefined start line s' more reading s'.buffer refl f.progress
            (λ nonempty line' reading'.
              next_from-IsRefined fuel start line' (behind s' (length s'.buffer) [])
                (omega (arith, m, f.shrinks, some_bytes s'.buffer nonempty)) reading')))

  -- From a scanner that has read, hashed and passed over beginnings of a content that its source
  -- holds, `next` has the result that cutting the next line off the unread content has, however
  -- short the source's reads are: the same line with its offsets, the same end, or the same error
  -- for a line that is too long. When it succeeds its new scanner is again such a scanner, and has
  -- just the rest of the content unread.
  pub next-IsRefined :
      (s : PatchScanner)
      → IsScanning content s
      → IsRefined content (next source max_line s) (text_line max_line s.consumed (left content s))
  unfolding next cut_line
  next-IsRefined s i =
      next_from-IsRefined (source.size + length s.buffer + 2) s.consumed [] s (omega arith)
        (record { scanning = i; reached = omega arith; unbroken = refl; fits = omega arith })
