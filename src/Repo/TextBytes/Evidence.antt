-- ===== src/Repo/TextBytes/Evidence.antt =====
-- The evidence of internal/domain/repository/text.go is that of the whole text, whatever its chunks.
use mathlib.Core.Path.{subst}
use nudge.Base.{
  ==_refl, Bool, List, [], all, ap, arith, false, if◌then◌else◌, length, ltb, not, refl, suc, sym,
  take, true, ℕ, ◌&&◌, ◌-◌, ◌<◌, ◌==◌, ◌^◌, ◌∙◌, ◌∷◌, ◌≡◌, ◌≤◌,
}
use nudge.Base.Bytes.{Bytes, bytes_eq, is_empty}
use nudge.Base.Result.{ok, ◌>>=◌}
use nudge.Base.Utf8.{rune_start, utf8_run, valid_utf8, valid_utf8-run}
use nudge.Repo.Content.Streaming.{joined, utf8_end-is_start}
use nudge.Repo.Digest.{Digest, is_lower_hex, valid_sha256}
use nudge.Repo.TextBytes.{
  TextByteSemantics, TextByteSemanticsWriter, bom, count_bytes, is_hex, last_of, new_text_writer,
  nonzero_kinds, semantics, text_encoding_unknown, text_semantics, text_utf8, text_utf8_bom,
  valid_hex_digest, validate_profile, validate_text_semantics,
}
use nudge.Repo.TextBytes.Endings.{count_bytes_lem, occurrences, pairs_after}
use nudge.Repo.TextBytes.Stream.{HasSeen, no_counts, write_texts, write_texts-HasSeen}

-- The evidence of a text, from the text at once. A newline after a carriage return is counted with it.
abbrev pub text_evidence : Digest → Bytes → TextByteSemantics
text_evidence d s =
    let pairs = pairs_after false s in
    let lfs = occurrences b'\n' s - pairs in
    let crs = occurrences b'\r' s - pairs in
    let has_bom = valid_utf8 s && bytes_eq (take 3 s) bom in
    record {
      encoding =
          if not (valid_utf8 s)
          then text_encoding_unknown
          else if has_bom
          then text_utf8_bom
          else text_utf8;
      byte_length = length s;
      sha256 = d.digest s;
      has_bom = has_bom;
      endings = record {
        lf_count = lfs;
        crlf_count = pairs;
        cr_count = crs;
        final_lf = ltb 0 (length s) && last_of 0 s == b'\n';
        mixed = ltb 1 (nonzero_kinds lfs pairs crs);
      };
      empty = length s == 0;
    }

runes-valid :
    (w : TextByteSemanticsWriter) (s : Bytes)
    → HasSeen w s
    → w.valid && is_empty w.pending ≡ valid_utf8 s
runes-valid w s h =
    ground (arith, h.saw_runes.1, valid_utf8-run s, utf8_end-is_start (utf8_run rune_start s))

counts-text :
    (w : TextByteSemanticsWriter) (s : Bytes)
    → HasSeen w s
    → (w.counts.lfs ≡ occurrences b'\n' s - pairs_after false s)
      × (w.counts.crlfs ≡ pairs_after false s)
      × ((if w.counts.previous_cr then suc w.counts.crs else w.counts.crs)
          ≡ occurrences b'\r' s - pairs_after false s)
counts-text w s h =
    let (a, b, p) = count_bytes_lem no_counts s in
    subst
      (λ e.
        (e.lfs ≡ occurrences b'\n' s - pairs_after false s)
        × (e.crlfs ≡ pairs_after false s)
        × ((if e.previous_cr then suc e.crs else e.crs)
            ≡ occurrences b'\r' s - pairs_after false s))
      (sym h.saw_endings) (ground (arith, a, b, p))

-- The evidence from what it depends on: validity, bytes, length, last byte, prefix and counts.
evidence_of : Digest → Bool → Bytes → ℕ → ℕ → Bytes → (lfs crlfs crs : ℕ) → TextByteSemantics
evidence_of d valid bytes total last prefix lfs crlfs crs =
    let has_bom = valid && bytes_eq prefix bom in
    record {
      encoding =
          if not valid then text_encoding_unknown else if has_bom then text_utf8_bom else text_utf8;
      byte_length = total;
      sha256 = d.digest bytes;
      has_bom = has_bom;
      endings = record {
        lf_count = lfs;
        crlf_count = crlfs;
        cr_count = crs;
        final_lf = ltb 0 total && last == b'\n';
        mixed = ltb 1 (nonzero_kinds lfs crlfs crs);
      };
      empty = total == 0;
    }

semantics-of :
    (d : Digest) (w : TextByteSemanticsWriter)
    → text_semantics d w
      ≡ evidence_of d
          (w.valid && is_empty w.pending)
          w.hashed
          w.total
          w.last_byte
          w.prefix
          w.counts.lfs
          w.counts.crlfs
          (if w.counts.previous_cr then suc w.counts.crs else w.counts.crs)
unfolding text_semantics evidence_of
semantics-of d w = refl

evidence-of :
    (d : Digest) (s : Bytes)
    → evidence_of d
        (valid_utf8 s)
        s
        (length s)
        (last_of 0 s)
        (take 3 s)
        (occurrences b'\n' s - pairs_after false s)
        (pairs_after false s)
        (occurrences b'\r' s - pairs_after false s)
      ≡ text_evidence d s
unfolding evidence_of
evidence-of d s = refl

semantics-evidence :
    (d : Digest) (w : TextByteSemanticsWriter) (s : Bytes)
    → HasSeen w s
    → text_semantics d w ≡ text_evidence d s
semantics-evidence d w s h =
    let (a, b, c) = counts-text w s h in
    semantics-of d w
    ∙ cc (runes-valid w s h, h.saw_bytes, h.saw_length, h.saw_last, h.saw_prefix, a, b, c)
    ∙ evidence-of d s

last-occurs :
    (b : ℕ) (s : Bytes) → (last_of 0 (b ∷ s) == b'\n') ≡ true → 0 < occurrences b'\n' (b ∷ s)
last-occurs b [] h = ground arith
last-occurs b (c ∷ s) h = ground (arith, last-occurs c s)

occurrences-le : (b : ℕ) (s : Bytes) → occurrences b s ≤ length s
occurrences-le b [] = omega arith
occurrences-le b (c ∷ s) = ground (arith, occurrences-le b s)

lower_hex-hex : (s : Bytes) → all is_lower_hex s ≡ true → all is_hex s ≡ true
lower_hex-hex [] h = refl
lower_hex-hex (c ∷ s) h = ground (arith, lower_hex-hex s)

sha256-hex : (s : Bytes) → valid_sha256 s ≡ true → valid_hex_digest s ≡ true
unfolding valid_sha256 valid_hex_digest
sha256-hex s h = ground (arith, lower_hex-hex s)

final_lf-occurs :
    (s : Bytes) → (ltb 0 (length s) && last_of 0 s == b'\n') ≡ true → 0 < occurrences b'\n' s
final_lf-occurs [] h = absurd (cc h)
final_lf-occurs (b ∷ s) h = last-occurs b s (ground (arith, h))

profile-valid :
    (d : Digest) (s : Bytes)
    → length s < 2 ^ 64
    → validate_profile (text_evidence d s).endings ≡ ok tt
unfolding validate_profile
profile-valid d s k =
    let (a, b, p) = count_bytes_lem no_counts s in
    ground (arith, a, p, occurrences-le b'\n' s, final_lf-occurs s)

evidence-valid :
    (d : Digest) (s : Bytes)
    → length s < 2 ^ 64
    → validate_text_semantics (text_evidence d s) ≡ ok tt
unfolding validate_text_semantics
evidence-valid d s k =
    ground (arith, profile-valid d s k, sha256-hex (d.digest s) (d.digest_form s))

new_text_writer-HasSeen : HasSeen new_text_writer []
unfolding count_bytes
new_text_writer-HasSeen = record {
  saw_bytes = refl;
  saw_length = refl;
  saw_last = refl;
  saw_endings = refl;
  saw_prefix = refl;
  saw_runes = (refl, refl);
}

semantics-seen :
    (d : Digest) (w : TextByteSemanticsWriter) (s : Bytes)
    → HasSeen w s
    → length s < 2 ^ 64
    → semantics d w (length s) ≡ ok (text_evidence d s)
unfolding semantics
semantics-seen d w s h k =
    rw (semantics-evidence d w s h, evidence-valid d s k, h.saw_length, ==_refl (length s)) refl

-- A text below 2^64 bytes that is written to the observer in any chunks has valid evidence, which
-- is that of the whole text: its length, the hash of its bytes, its encoding with or without a
-- byte order mark, the counts of its newlines, of its carriage returns and of the pairs of both,
-- and whether it ends with a newline.
pub semantics-text_evidence :
    (d : Digest) (chunks : List Bytes)
    → length (joined chunks) < 2 ^ 64
    → (write_texts new_text_writer chunks >>= λ w. semantics d w (length (joined chunks)))
      ≡ ok (text_evidence d (joined chunks))
semantics-text_evidence d chunks k =
    let (w, e, h) = write_texts-HasSeen new_text_writer [] chunks new_text_writer-HasSeen k in
    ap (λ r. r >>= λ w. semantics d w (length (joined chunks))) e
    ∙ semantics-seen d w (joined chunks) h k
