-- ===== src/Repo/TextBytes.antt =====
-- internal/domain/repository/text.go: the evidence of a regular text's exact bytes, read as a stream.
pub mod Endings
pub mod Stream
pub mod Evidence
use nudge.Base.{
  Bool, [], all, false, if◌then◌else◌, length, ltb, not, suc, take, true, ℕ, ◌%◌, ◌&&◌, ◌++◌, ◌+◌,
  ◌-◌, ◌==◌, ◌^◌, ◌||◌, ◌∷◌,
}
use nudge.Base.Bytes.{Bytes, bytes_eq, is_empty}
use nudge.Base.Result.{Result, err, fail_if, is_ok, ok, ◌>>=◌, ◌>>◌}
use nudge.Base.Utf8.{within}
use nudge.Repo.Content.{take_runes}
use nudge.Repo.Digest.{Digest}
use nudge.Repo.Path.{RepoError, invalid_text_byte_semantics, text_content_class_drift}

pub data TextEncodingClass : Type 0 where
  text_utf8 text_utf8_bom text_encoding_unknown : TextEncodingClass
  encoding_other : Bytes → TextEncodingClass

-- `TextEncodingClass.Validate`.
abbrev pub validate_encoding : TextEncodingClass → Result RepoError (Unit {0})
validate_encoding (encoding_other s) = err invalid_text_byte_semantics
validate_encoding _ = ok tt

pub record LineEndingProfile : Type 0 where
  pub lf_count : ℕ
  pub crlf_count : ℕ
  pub cr_count : ℕ
  pub final_lf : Bool
  pub mixed : Bool

-- `nonZeroCount`.
abbrev pub non_zero_count : ℕ → ℕ
non_zero_count value = if value == 0 then 0 else 1

abbrev pub nonzero_kinds : ℕ → ℕ → ℕ → ℕ
nonzero_kinds lfs crlfs crs = non_zero_count lfs + non_zero_count crlfs + non_zero_count crs

-- `LineEndingProfile.Validate`.
unfoldable pub validate_profile : LineEndingProfile → Result RepoError (Unit {0})
validate_profile p = do
  fail_if (p.final_lf && (p.lf_count + p.crlf_count) % 2 ^ 64 == 0) invalid_text_byte_semantics
  fail_if (p.mixed && ltb (nonzero_kinds p.lf_count p.crlf_count p.cr_count) 2)
      invalid_text_byte_semantics

pub record TextByteSemantics : Type 0 where
  pub encoding : TextEncodingClass
  pub byte_length : ℕ
  pub sha256 : Bytes
  pub has_bom : Bool
  pub endings : LineEndingProfile
  pub empty : Bool

abbrev pub is_hex : ℕ → Bool
is_hex c = within b'0' b'9' c || within b'a' b'f' c || within b'A' b'F' c

-- `validSHA256` of diff.go: `hex.DecodeString` takes digits in either case.
unfoldable pub valid_hex_digest : Bytes → Bool
valid_hex_digest value = length value == 64 && all is_hex value

abbrev is_bom : TextEncodingClass → Bool
is_bom text_utf8_bom = true
is_bom _ = false

abbrev is_unknown : TextEncodingClass → Bool
is_unknown text_encoding_unknown = true
is_unknown _ = false

abbrev differ : Bool → Bool → Bool
differ true b = not b
differ false b = b

-- `TextByteSemantics.Validate`.
unfoldable pub validate_text_semantics : TextByteSemantics → Result RepoError (Unit {0})
validate_text_semantics s = do
  fail_if
      (not (is_ok (validate_encoding s.encoding))
        || not (valid_hex_digest s.sha256)
        || differ s.empty (s.byte_length == 0)
        || differ s.has_bom (is_bom s.encoding)
        || not (is_ok (validate_profile s.endings)))
      invalid_text_byte_semantics
  fail_if (is_unknown s.encoding && s.has_bom) invalid_text_byte_semantics

-- The counts of line endings so far, and whether the last byte was a carriage return. A count is at
-- most the number of bytes, which `Write` keeps within 64 bits.
pub record EndingCounts : Type 0 where
  pub lfs : ℕ
  pub crlfs : ℕ
  pub crs : ℕ
  pub previous_cr : Bool

-- The `switch` on a byte.
unfoldable pub count_byte : EndingCounts → ℕ → EndingCounts
count_byte e value =
    if value == b'\r'
    then record e { crs = if e.previous_cr then suc e.crs else e.crs; previous_cr = true }
    else if value == b'\n'
    then (if e.previous_cr
        then record e { crlfs = suc e.crlfs; previous_cr = false }
        else record e { lfs = suc e.lfs; previous_cr = false })
    else if e.previous_cr
    then record e { crs = suc e.crs; previous_cr = false }
    else e

-- The loop over the bytes.
unfoldable pub count_bytes : EndingCounts → Bytes → EndingCounts
count_bytes e [] = e
count_bytes e (value ∷ bytes) = count_bytes (count_byte e value) bytes

-- The hash is kept as the bytes that it was given, and the array of the prefix up to its length.
pub record TextByteSemanticsWriter : Type 0 where
  pub hashed : Bytes
  pub total : ℕ
  pub last_byte : ℕ
  pub counts : EndingCounts
  pub prefix : Bytes
  pub valid : Bool
  pub pending : Bytes

-- `NewTextByteSemanticsWriter`.
abbrev pub new_text_writer : TextByteSemanticsWriter
new_text_writer = record {
  hashed = [];
  total = 0;
  last_byte = 0;
  counts = record { lfs = 0; crlfs = 0; crs = 0; previous_cr = false };
  prefix = [];
  valid = true;
  pending = [];
}

-- `data[len(data)-1]`.
abbrev pub last_of : ℕ → Bytes → ℕ
last_of b [] = b
last_of b (c ∷ s) = last_of c s

-- What `Write` does to the bytes of unfinished runes: the validity and what stays pending.
abbrev pub next_runes : Bool → Bytes → Bytes → Bytes × Bool
next_runes false pending bytes = (pending, true)
next_runes true pending bytes = take_runes (length (pending ++ bytes)) (pending ++ bytes)

-- `Write`, from the writer to the changed writer.
unfoldable pub write_text :
    TextByteSemanticsWriter → Bytes → Result RepoError TextByteSemanticsWriter
write_text w [] = ok w
write_text w (c ∷ s) = do
  fail_if (ltb (2 ^ 64 - 1 - length (c ∷ s)) w.total) invalid_text_byte_semantics
  let runes = next_runes w.valid w.pending (c ∷ s)
  ok (record {
    hashed = w.hashed ++ c ∷ s;
    total = w.total + length (c ∷ s);
    last_byte = last_of c s;
    counts = count_bytes w.counts (c ∷ s);
    prefix = take 3 (w.prefix ++ c ∷ s);
    valid = not runes.1;
    pending = runes.0;
  })

abbrev pub bom : Bytes
bom = 0xEF ∷ 0xBB ∷ 0xBF ∷ []

module _ (d : Digest) where
  -- The value that `Semantics` builds.
  unfoldable pub text_semantics : TextByteSemanticsWriter → TextByteSemantics
  text_semantics w =
      let crs = if w.counts.previous_cr then suc w.counts.crs else w.counts.crs in
      let valid = w.valid && is_empty w.pending in
      let has_bom = valid && bytes_eq w.prefix bom in
      record {
        encoding =
            if not valid
            then text_encoding_unknown
            else if has_bom
            then text_utf8_bom
            else text_utf8;
        byte_length = w.total;
        sha256 = d.digest w.hashed;
        has_bom = has_bom;
        endings = record {
          lf_count = w.counts.lfs;
          crlf_count = w.counts.crlfs;
          cr_count = crs;
          final_lf = ltb 0 w.total && w.last_byte == b'\n';
          mixed = ltb 1 (nonzero_kinds w.counts.lfs w.counts.crlfs crs);
        };
        empty = w.total == 0;
      }

  -- `Semantics`.
  unfoldable pub semantics : TextByteSemanticsWriter → ℕ → Result RepoError TextByteSemantics
  semantics w expected_length =
      fail_if (not (w.total == expected_length)) text_content_class_drift
      >> (validate_text_semantics (text_semantics w) >> ok (text_semantics w))
