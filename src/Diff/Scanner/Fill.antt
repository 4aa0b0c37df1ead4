-- ===== src/Diff/Scanner/Fill.antt =====
-- `fill` of internal/diff/parser.go reads on in the content of its source.
use nudge.Base.{
  Bool-cases, [], ap, arith, drop, false, inl, inr, leb, leb→le, length, refl, sym, take, true, ℕ,
  ◌++◌, ◌+◌, ◌-◌, ◌<◌, ◌∙◌, ◌∷◌, ◌≡◌, ◌≤◌,
}
use nudge.Base.Bytes.{Bytes, is_empty}
use nudge.Base.Result.{ok}
use nudge.Diff.Scanner.{PatchScanner, PatchSource, chunk_length, fill, filled}
use nudge.Diff.Scanner.Lines.{Holds, IsScanning, left, length-slice, take-add, take-drop-split}

module _ (source : PatchSource) (content : Bytes) (h : Holds source content) where
  -- What a `fill` gives: the same position, more of the content, and bytes or the end.
  pub record IsFilled (s s' : PatchScanner) : Type 0 where
    pub scanning : IsScanning content s'
    pub same : s'.consumed ≡ s.consumed
    pub rest : left content s' ≡ left content s
    pub progress : is_empty s'.buffer ≡ true → s'.eof ≡ true
    pub shrinks :
        (source.size - s'.read_at) + length s'.buffer ≤ (source.size - s.read_at) + length s.buffer

  -- The scanner after a read of some bytes.
  abbrev read_on : ℕ → PatchScanner → PatchScanner
  read_on count s =
      let bytes = take count (drop s.read_at content) in
      record s {
        hashed = s.hashed ++ bytes;
        read_at = s.read_at + length bytes;
        eof = is_empty bytes;
        buffer = bytes;
      }

  nonempty : (bytes : Bytes) → 0 < length bytes → is_empty bytes ≡ false
  nonempty [] some_bytes = absurd (omega arith)
  nonempty (c ∷ bytes) some_bytes = refl

  read_on-IsFilled :
      (count : ℕ) (s : PatchScanner)
      → 0 < count
      → s.read_at + count ≤ length content
      → IsScanning content s
      → s.buffer ≡ []
      → IsFilled s (read_on count s)
  read_on-IsFilled count s some_bytes le i b =
      let len = length-slice count s.read_at content le in
      let nonempty_read = nonempty (take count (drop s.read_at content)) (rw len some_bytes) in
      let together = take-drop-split s.read_at count content in
      record {
        scanning = record {
          inside = rw len le;
          held = ground (arith, i.held, b);
          remains =
              rw len (together ∙ ap (λ bytes. bytes ++ drop s.read_at content) (sym b) ∙ i.remains);
          digested = rw (len, i.digested) (take-add s.read_at count content);
          ended = λ e. cc nonempty_read;
        };
        same = refl;
        rest = rw len (together ∙ ap (λ bytes. bytes ++ drop s.read_at content) (sym b));
        progress = λ e. e;
        shrinks = omega (arith, h.whole, len, le);
      }

  filled-ok :
      (count : ℕ) (s : PatchScanner)
      → count ≤ chunk_length source s
      → s.read_at + count ≤ length content
      → filled source s (record { bytes = take count (drop s.read_at content); failed = false })
        ≡ ok (read_on count s)
  unfolding filled
  filled-ok count s c le = ground (arith, length-slice count s.read_at content le)

  empty : (bytes : Bytes) → is_empty bytes ≡ true → bytes ≡ []
  empty [] e = refl
  empty (c ∷ bytes) e = cc

  same-IsFilled :
      (s : PatchScanner)
      → IsScanning content s
      → (is_empty s.buffer ≡ true → s.eof ≡ true)
      → IsFilled s s
  same-IsFilled s i p = record {
    scanning = i;
    same = refl;
    rest = refl;
    progress = p;
    shrinks = omega arith;
  }

  -- At the end of the content a `fill` notes it.
  at_end-IsFilled :
      (s : PatchScanner)
      → IsScanning content s
      → s.buffer ≡ []
      → source.size ≤ s.read_at
      → IsFilled s (record s { eof = true; buffer = [] })
  at_end-IsFilled s i b le =
      let rest = ap (λ bytes. bytes ++ drop s.read_at content) (sym b) in
      record {
        scanning = record {
          inside = i.inside;
          held = ground (arith, i.held, b);
          remains = rest ∙ i.remains;
          digested = i.digested;
          ended = λ e. omega (arith, h.whole, i.inside, le);
        };
        same = refl;
        rest = rest;
        progress = λ e. refl;
        shrinks = omega arith;
      }

  pub fill-IsFilled :
      (s : PatchScanner)
      → IsScanning content s
      → (s' : PatchScanner) × (fill source s ≡ ok s') × IsFilled s s'
  unfolding fill
  fill-IsFilled s i = elim (Bool-cases s.eof) [
    | inl e ↦ (s, rw e refl, same-IsFilled s i (λ _. e))
    | inr e ↦ elim (Bool-cases (is_empty s.buffer)) [
      | inr b ↦ (s, rw (e, b) refl, same-IsFilled s i (λ t. cc (b, t)))
      | inl b ↦ elim (Bool-cases (leb source.size s.read_at)) [
        | inl le ↦ (
          record s { eof = true; buffer = [] },
          rw (e, b, le) refl,
          at_end-IsFilled s i (empty s.buffer b) (leb→le source.size s.read_at le),
        )
        | inr lt ↦
            let want = chunk_length source s in
            let (count, some_bytes, le, read) =
              h.reads want s.read_at (ground (arith, h.whole)) (ground (arith, h.whole)) in
            (
              read_on count s,
              simp (e, b, lt, read) (filled-ok count s le (ground (arith, h.whole))),
              read_on-IsFilled count s some_bytes (ground (arith, h.whole)) i (empty s.buffer b),
            )
      ]
    ]
  ]
