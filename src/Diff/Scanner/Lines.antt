-- ===== src/Diff/Scanner/Lines.antt =====
-- What `patchScanner` of internal/diff/parser.go promises: the next line of a whole text, with no
-- chunks, and the sources that are read faithfully.
use nudge.Base.{
  List, Option, [], ap, append_assoc, arith, drop, false, length, length-append, length-drop,
  length-take, ltb, none, refl, some, suc, sym, take, take-append-drop, true, unary_clauses, zero,
  ℕ, ◌++◌, ◌+◌, ◌<◌, ◌∙◌, ◌∷◌, ◌≡◌, ◌≤◌,
}
use nudge.Base.Bytes.{Bytes}
use nudge.Base.Result.{Result, err, fail_if, ok, ◌>>◌}
use nudge.Diff.Builder.{PatchLine}
use nudge.Diff.Limits.{PatchError, limited}
use nudge.Diff.Scanner.{PatchScanner, PatchSource, Scan, behind, cut_line}

-- The line that a text starts with, cut at its first newline, and the text behind it.
abbrev pub line_of : ℕ → ℕ → Bytes × Option Bytes → Result PatchError (Option PatchLine × Bytes)
line_of max_line start (text, some rest) =
    fail_if (ltb max_line (length text)) limited
    >> ok (
      some (record {
        offset = start;
        end = start + (length text + 1);
        text = text;
        terminated = true;
      }),
      rest,
    )
line_of max_line start ([], none) = ok (none, [])
line_of max_line start (c ∷ text, none) =
    fail_if (ltb max_line (length (c ∷ text))) limited
    >> ok (
      some (record {
        offset = start;
        end = start + length (c ∷ text);
        text = c ∷ text;
        terminated = false;
      }),
      [],
    )

-- The next line of `text`, which starts at `start`.
abbrev pub text_line : ℕ → ℕ → Bytes → Result PatchError (Option PatchLine × Bytes)
text_line max_line start text = line_of max_line start (cut_line text)

-- The source holds `content`: a read inside it gives some of the bytes that are asked for, without
-- an error, as `io.ReaderAt` documents; how many is not said.
pub record Holds (source : PatchSource) (content : Bytes) : Type 0 where
  pub whole : source.size ≡ length content
  pub reads :
      (want offset : ℕ)
      → 0 < want
      → offset + want ≤ length content
      → (count : ℕ) × (0 < count)
        × (count ≤ want)
        × (source.read_at want offset
            ≡ record { bytes = take count (drop offset content); failed = false })

-- What a scanner has not yet passed over.
abbrev pub left : Bytes → PatchScanner → Bytes
left content s = s.buffer ++ drop s.read_at content

-- The scanner has read a beginning of the content and hashed what it read; it passed over a
-- beginning of that.
pub record IsScanning (content : Bytes) (s : PatchScanner) : Type 0 where
  pub inside : s.read_at ≤ length content
  pub held : s.consumed + length s.buffer ≡ s.read_at
  pub remains : left content s ≡ drop s.consumed content
  pub digested : s.hashed ≡ take s.read_at content
  pub ended : s.eof ≡ true → s.read_at ≡ length content

-- The scan agrees with a line of the text, and its scanner goes on behind that line.
abbrev pub IsRefined : Bytes → Scan → Result PatchError (Option PatchLine × Bytes) → Type 0
IsRefined content none line = ⊥
IsRefined content (some (err e)) line = line ≡ err e
IsRefined content (some (ok (l, s))) line = IsScanning content s × (line ≡ ok (l, left content s))

-- Cutting and joining.
pub take-drop-split {ℓ} :
    {A : Type ℓ} (n k : ℕ) (xs : List A) → take k (drop n xs) ++ drop (n + k) xs ≡ drop n xs
take-drop-split zero k xs = let e : 0 + k ≡ k = omega arith in rw e (take-append-drop k xs)
take-drop-split (suc n) zero [] = simp unary_clauses refl
take-drop-split (suc n) (suc k) [] = simp unary_clauses refl
take-drop-split (suc n) k (x ∷ xs) =
    let e : suc n + k ≡ suc (n + k) = omega arith in rw e (take-drop-split n k xs)

pub take-add {ℓ} :
    {A : Type ℓ} (n k : ℕ) (xs : List A) → take n xs ++ take k (drop n xs) ≡ take (n + k) xs
take-add zero k xs = let e : 0 + k ≡ k = omega arith in rw e refl
take-add (suc n) zero [] = simp unary_clauses refl
take-add (suc n) (suc k) [] = simp unary_clauses refl
take-add (suc n) k (x ∷ xs) =
    let e : suc n + k ≡ suc (n + k) = omega arith in rw e (ap (◌∷◌ x) (take-add n k xs))

pub cut_line-append :
    (line text : Bytes)
    → (cut_line line).1 ≡ none
    → cut_line (line ++ text) ≡ (line ++ (cut_line text).0, (cut_line text).1)
unfolding cut_line
cut_line-append [] text h = refl
cut_line-append (c ∷ line) text h = ground (arith, cut_line-append line text)

-- A text with no newline is its own first line.
pub cut_line-unbroken : (text : Bytes) → (cut_line text).1 ≡ none → cut_line text ≡ (text, none)
unfolding cut_line
cut_line-unbroken [] h = refl
cut_line-unbroken (c ∷ text) h = ground (arith, cut_line-unbroken text)

-- A text with a newline is cut at it, whatever follows.
pub cut_line-broken :
    (text rest after : Bytes)
    → (cut_line text).1 ≡ some rest
    → cut_line (text ++ after) ≡ ((cut_line text).0, some (rest ++ after))
unfolding cut_line
cut_line-broken [] rest after h = absurd (cc h)
cut_line-broken (c ∷ text) rest after h = ground (arith, cut_line-broken text rest after)

pub cut_line-joins :
    (text rest : Bytes) → (cut_line text).1 ≡ some rest → text ≡ (cut_line text).0 ++ (10 ∷ rest)
unfolding cut_line
cut_line-joins [] rest h = absurd (cc h)
cut_line-joins (c ∷ text) rest h = ground (arith, cut_line-joins text rest)

pub line_of-long :
    (max_line start : ℕ) (text : Bytes) (rest : Option Bytes)
    → ltb max_line (length text) ≡ true
    → line_of max_line start (text, rest) ≡ err limited
line_of-long max_line start [] none h = absurd (ground (arith, h))
line_of-long max_line start (c ∷ text) none h = rw h refl
line_of-long max_line start text (some rest) h = rw h refl

pub drop_all {ℓ} : {A : Type ℓ} (xs : List A) → drop (length xs) xs ≡ []
drop_all [] = refl
drop_all (x ∷ xs) = drop_all xs

pub drop-append {ℓ} : {A : Type ℓ} (xs ys : List A) → drop (length xs) (xs ++ ys) ≡ ys
drop-append [] ys = refl
drop-append (x ∷ xs) ys = drop-append xs ys

pub drop-drop {ℓ} : {A : Type ℓ} (n k : ℕ) (xs : List A) → drop k (drop n xs) ≡ drop (n + k) xs
drop-drop zero k xs = let e : 0 + k ≡ k = omega arith in rw e refl
drop-drop (suc n) zero [] = simp unary_clauses refl
drop-drop (suc n) (suc k) [] = simp unary_clauses refl
drop-drop (suc n) k (x ∷ xs) =
    let e : suc n + k ≡ suc (n + k) = omega arith in rw e (drop-drop n k xs)

-- A scanner that passes over the first bytes of its buffer goes on scanning.
pub behind-IsScanning :
    (content : Bytes) (s : PatchScanner) (count : ℕ) (passed rest : Bytes)
    → IsScanning content s
    → s.buffer ≡ passed ++ rest
    → count ≡ length passed
    → IsScanning content (behind s count rest)
behind-IsScanning content s count passed rest i b n = record {
  inside = i.inside;
  held = omega (arith, i.held, ap length b, n, length-append passed rest);
  remains =
      let D = drop s.read_at content in
      sym (drop-append passed (rest ++ D))
      ∙ ap (drop (length passed))
          (sym (append_assoc passed rest D) ∙ ap (λ bytes. bytes ++ D) (sym b) ∙ i.remains)
      ∙ drop-drop s.consumed (length passed) content
      ∙ ap (λ k. drop (s.consumed + k) content) (sym n);
  digested = i.digested;
  ended = i.ended;
}

pub text_line-nil : (max_line start : ℕ) → text_line max_line start [] ≡ ok (none, [])
unfolding cut_line
text_line-nil max_line start = refl

-- The next line of a text without a newline.
pub text_line-last :
    (max_line start c : ℕ) (text : Bytes)
    → (cut_line (c ∷ text)).1 ≡ none
    → length (c ∷ text) ≤ max_line
    → text_line max_line start (c ∷ text)
      ≡ ok (
        some (record {
          offset = start;
          end = start + length (c ∷ text);
          text = c ∷ text;
          terminated = false;
        }),
        [],
      )
text_line-last max_line start c text h fits =
    let e : ltb max_line (length (c ∷ text)) ≡ false = ground (arith, fits) in
    rw (cut_line-unbroken (c ∷ text) h) (rw e refl)

module _ (max_line start : ℕ) (line block after : Bytes) (h : (cut_line line).1 ≡ none) where
  -- A line that is too long already.
  pub text_line-long :
      (cut_line block).1 ≡ none
      → ltb max_line (length line + length block) ≡ true
      → text_line max_line start (line ++ (block ++ after)) ≡ err limited
  text_line-long k long =
      rw (cut_line-append line (block ++ after) h, cut_line-append block after k)
        (line_of-long max_line start (line ++ (block ++ (cut_line after).0)) (cut_line after).1 (
          ground (
            arith,
            long,
            length-append line (block ++ (cut_line after).0),
            length-append block (cut_line after).0,
          )))

  -- A line that ends in the block.
  pub text_line-broken :
      (rest : Bytes)
      → (cut_line block).1 ≡ some rest
      → text_line max_line start (line ++ (block ++ after))
        ≡ line_of max_line start (line ++ (cut_line block).0, some (rest ++ after))
  text_line-broken rest k =
      rw (cut_line-append line (block ++ after) h, cut_line-broken block rest after k) refl

pub length-slice :
    (count offset : ℕ) (content : Bytes)
    → offset + count ≤ length content
    → length (take count (drop offset content)) ≡ count
length-slice count offset content le =
    omega (arith, length-take count (drop offset content), length-drop offset content)
