-- ===== src/Repo/TextBytes/Stream.antt =====
-- The observer of internal/domain/repository/text.go reads any chunks as the text that they make up.
use mathlib.Core.Path.{subst}
use nudge.Base.{
  Bool, List, [], ap, append-nil, append_assoc, arith, false, length, length-append, ltb, not,
  not-not, refl, suc, sym, take, true, zero, ℕ, ◌++◌, ◌+◌, ◌-◌, ◌<◌, ◌^◌, ◌∙◌, ◌∷◌, ◌≡◌,
}
use nudge.Base.Bytes.{Bytes}
use nudge.Base.Result.{Result, ok, ◌>>=◌}
use nudge.Repo.Content.{take_runes}
use nudge.Repo.Content.Scan.{IsRead, take_runes-IsRead}
use nudge.Repo.Content.Streaming.{IsRead-append, IsRead-dead, joined}
use nudge.Repo.Path.{RepoError}
use nudge.Repo.TextBytes.{
  EndingCounts, TextByteSemanticsWriter, count_bytes, last_of, next_runes, write_text,
}
use nudge.Repo.TextBytes.Endings.{count_bytes-append}

pub last_of-append : (b : ℕ) (s t : Bytes) → last_of b (s ++ t) ≡ last_of (last_of b s) t
last_of-append b [] t = refl
last_of-append b (c ∷ s) t = last_of-append c s t

take-take_append : (n : ℕ) (s t : Bytes) → take n (take n s ++ t) ≡ take n (s ++ t)
take-take_append zero s t = refl
take-take_append (suc n) [] t = refl
take-take_append (suc n) (c ∷ s) t = ap (◌∷◌ c) (take-take_append n s t)

abbrev pub no_counts : EndingCounts
no_counts = record { lfs = 0; crlfs = 0; crs = 0; previous_cr = false }

-- The writer has read the bytes `s`.
pub record HasSeen (w : TextByteSemanticsWriter) (s : Bytes) : Type 0 where
  pub saw_bytes : w.hashed ≡ s
  pub saw_length : w.total ≡ length s
  pub saw_last : w.last_byte ≡ last_of 0 s
  pub saw_endings : w.counts ≡ count_bytes no_counts s
  pub saw_prefix : w.prefix ≡ take 3 s
  pub saw_runes : IsRead s (w.pending, not w.valid)

next_runes-IsRead :
    (v : Bool) (p s t : Bytes)
    → IsRead s (p, not v)
    → IsRead (s ++ t) ((next_runes v p t).0, not (not (next_runes v p t).1))
next_runes-IsRead false p s t r = IsRead-dead s t p r
next_runes-IsRead true p s t r =
    let out = take_runes (length (p ++ t)) (p ++ t) in
    subst (λ b. IsRead (s ++ t) (out.0, b)) (sym (not-not out.1))
      (IsRead-append s t p out r (take_runes-IsRead (length (p ++ t)) (p ++ t) (omega arith)))

-- A chunk that keeps the length within 64 bits is read.
write_text-HasSeen :
    (w : TextByteSemanticsWriter) (s t : Bytes)
    → HasSeen w s
    → length (s ++ t) < 2 ^ 64
    → (w' : TextByteSemanticsWriter) × (write_text w t ≡ ok w') × HasSeen w' (s ++ t)
unfolding write_text
write_text-HasSeen w s [] h k = (w, refl, subst (HasSeen w) (sym (append-nil s)) h)
write_text-HasSeen w s (c ∷ t) h k =
    let room : ltb (2 ^ 64 - 1 - length (c ∷ t)) w.total ≡ false =
      ground (arith, h.saw_length, length-append s (c ∷ t)) in
    (
      _,
      rw room refl,
      record {
        saw_bytes = ap (λ x. x ++ c ∷ t) h.saw_bytes;
        saw_length = ap (λ x. x + length (c ∷ t)) h.saw_length ∙ sym (length-append s (c ∷ t));
        saw_last = sym (last_of-append 0 s (c ∷ t));
        saw_endings =
            ap (λ x. count_bytes x (c ∷ t)) h.saw_endings
            ∙ sym (count_bytes-append no_counts s (c ∷ t));
        saw_prefix = ap (λ x. take 3 (x ++ c ∷ t)) h.saw_prefix ∙ take-take_append 3 s (c ∷ t);
        saw_runes = next_runes-IsRead w.valid w.pending s (c ∷ t) h.saw_runes;
      },
    )

-- The writer after some chunks.
abbrev pub write_texts :
    TextByteSemanticsWriter → List Bytes → Result RepoError TextByteSemanticsWriter
write_texts w [] = ok w
write_texts w (chunk ∷ chunks) = write_text w chunk >>= λ next. write_texts next chunks

pub write_texts-HasSeen :
    (w : TextByteSemanticsWriter) (s : Bytes) (chunks : List Bytes)
    → HasSeen w s
    → length (s ++ joined chunks) < 2 ^ 64
    → (w' : TextByteSemanticsWriter) × (write_texts w chunks ≡ ok w')
      × HasSeen w' (s ++ joined chunks)
write_texts-HasSeen w s [] h k = (w, refl, subst (HasSeen w) (sym (append-nil s)) h)
write_texts-HasSeen w s (chunk ∷ chunks) h k =
    let shorter : length (s ++ chunk) < 2 ^ 64 = omega (
      arith,
      k,
      length-append s (chunk ++ joined chunks),
      length-append chunk (joined chunks),
      length-append s chunk,
    ) in
    let (next, e, v) = write_text-HasSeen w s chunk h shorter in
    let (w', e', v') =
      write_texts-HasSeen next (s ++ chunk) chunks v
        (subst (λ x. length x < 2 ^ 64) (sym (append_assoc s chunk (joined chunks))) k) in
    (
      w',
      ap (λ r. r >>= λ x. write_texts x chunks) e ∙ e',
      subst (HasSeen w') (append_assoc s chunk (joined chunks)) v',
    )
