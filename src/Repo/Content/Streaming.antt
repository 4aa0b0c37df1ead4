-- ===== src/Repo/Content/Streaming.antt =====
-- The classifier of internal/domain/repository/content_class.go does not depend on the chunks.
use nudge.Base.{
  Bool, List, [], ap, append-nil, append_assoc, arith, false, length, refl, sym, true, ℕ, ◌++◌,
  ◌||◌, ◌∙◌, ◌∷◌, ◌≡◌,
}
use nudge.Base.Bytes.{Bytes, has_byte}
use nudge.Base.Utf8.{
  Expect, rune_start, utf8_end, utf8_run, utf8_run-append, utf8_run-never, valid_utf8-run,
}
use nudge.Repo.Content.{
  ContentClassifierV1, classify, classify_content, new_content_classifier, take_runes, write,
}
use nudge.Repo.Content.Scan.{IsRead, IsRead-on, is_start, take_runes-IsRead}

-- The classifier after some chunks.
abbrev pub write_all : ContentClassifierV1 → List Bytes → ContentClassifierV1
write_all c [] = c
write_all c (chunk ∷ chunks) = write_all (write c chunk) chunks

abbrev pub joined : List Bytes → Bytes
joined [] = []
joined (chunk ∷ chunks) = chunk ++ joined chunks

-- The classifier has read the bytes `s`.
record HasRead (x : Bool) (c : ContentClassifierV1) (s : Bytes) : Type 0 where
  keeps_patch : c.explicit_binary_patch ≡ x
  saw_nul : c.nul ≡ has_byte 0 s
  saw_runes : IsRead s (c.pending, c.invalid_seen)

has_byte-append : (b : ℕ) (s t : Bytes) → has_byte b (s ++ t) ≡ has_byte b s || has_byte b t
has_byte-append b [] t = refl
has_byte-append b (c ∷ s) t = ground (arith, has_byte-append b s t)

-- Bytes that follow bytes that were read.
pub IsRead-append :
    (s t : Bytes) (p : Bytes) (out : Bytes × Bool)
    → IsRead s (p, false)
    → IsRead (p ++ t) out
    → IsRead (s ++ t) out
IsRead-append s t p out (r, q) h =
    IsRead-on (s ++ t) (p ++ t) out
      (utf8_run-append rune_start s t
        ∙ ap (λ e. utf8_run e t) r
        ∙ sym (utf8_run-append rune_start p t))
      h

pub IsRead-dead : (s t p : Bytes) → IsRead s (p, true) → IsRead (s ++ t) (p, true)
IsRead-dead s t p (r, q) =
    let e = utf8_run-append rune_start s t ∙ ap (λ e. utf8_run e t) r ∙ utf8_run-never t in
    (e, ap is_start e)

write_fields-HasRead :
    (x n i : Bool) (p s t : Bytes)
    → n ≡ has_byte 0 s
    → IsRead s (p, i)
    → HasRead x
        (write (record { explicit_binary_patch = x; nul = n; invalid_seen = i; pending = p }) t)
        (s ++ t)
unfolding write
write_fields-HasRead x n true p s t e r = record {
  keeps_patch = refl;
  saw_nul = rw e (sym (has_byte-append 0 s t));
  saw_runes = IsRead-dead s t p r;
}
write_fields-HasRead x n false p s t e r = record {
  keeps_patch = refl;
  saw_nul = rw e (sym (has_byte-append 0 s t));
  saw_runes =
      IsRead-append s t p (take_runes (length (p ++ t)) (p ++ t)) r
        (take_runes-IsRead (length (p ++ t)) (p ++ t) (omega arith));
}

write-HasRead :
    (x : Bool) (c : ContentClassifierV1) (s t : Bytes)
    → HasRead x c s
    → HasRead x (write c t) (s ++ t)
write-HasRead x c s t h = rw (sym h.keeps_patch) (
    write_fields-HasRead c.explicit_binary_patch c.nul c.invalid_seen c.pending s t h.saw_nul
      h.saw_runes)

write_all-HasRead :
    (x : Bool) (c : ContentClassifierV1) (s : Bytes) (chunks : List Bytes)
    → HasRead x c s
    → HasRead x (write_all c chunks) (s ++ joined chunks)
write_all-HasRead x c s [] h = rw (append-nil s) h
write_all-HasRead x c s (chunk ∷ chunks) h =
    rw (sym (append_assoc s chunk (joined chunks)))
      (write_all-HasRead x (write c chunk) (s ++ chunk) chunks (write-HasRead x c s chunk h))

pub utf8_end-is_start : (e : Expect) → utf8_end e ≡ is_start e
utf8_end-is_start e = ground arith

classify-read :
    (x : Bool) (c : ContentClassifierV1) (s : Bytes)
    → HasRead x c s
    → classify c ≡ classify_content s x
unfolding classify classify_content
classify-read x c s h = ground (
  arith,
  h.keeps_patch,
  h.saw_nul,
  h.saw_runes.1,
  valid_utf8-run s,
  utf8_end-is_start (utf8_run rune_start s),
)

-- The streaming classifier, whatever the chunks, gives the class of all the bytes together, also
-- where a chunk ends inside a rune.
pub classify-write_all :
    (x : Bool) (chunks : List Bytes)
    → classify (write_all (new_content_classifier x) chunks) ≡ classify_content (joined chunks) x
classify-write_all x chunks =
    classify-read x (write_all (new_content_classifier x) chunks) (joined chunks) (
      write_all-HasRead x (new_content_classifier x) [] chunks
        (record { keeps_patch = refl; saw_nul = refl; saw_runes = (refl, refl) }))
