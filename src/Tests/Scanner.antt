-- ===== src/Tests/Scanner.antt =====
-- A patch read in chunks of two bytes.
use nudge.Base.{Option, arith, drop, false, if◌then◌else◌, length, ltb, refl, some, take, true, ◌≡◌}
use nudge.Base.Bytes.{Bytes, codes}
use nudge.Base.Int.{negsuc, pos}
use nudge.Base.Result.{err, ok}
use nudge.Diff.Builder.{PatchLine}
use nudge.Diff.Limits.{limited, truncated}
use nudge.Diff.Scanner.{
  PatchScanner, PatchSource, cut_line, fill, filled, new_patch_scanner, next, next_from,
  scan_buffer, scan_filled, scan_part,
}
use nudge.Diff.Scanner.Lines.{Holds, IsRefined, IsScanning, left, text_line}
use nudge.Diff.Scanner.Ranges.{hash_range, read_range}
use nudge.Diff.Scanner.Ranges.Slices.{read_range-slice}
use nudge.Diff.Scanner.Refines.{next-IsRefined}
use nudge.Tests.Digests.{zero_digest, zeros}

abbrev two_lines : Bytes
two_lines = codes "-abc\n+d"

-- It gives at most two bytes at a time.
abbrev slow_source : PatchSource
slow_source = record {
  size = length two_lines;
  read_at = λ want offset. record {
    bytes = take (if ltb want 2 then want else 2) (drop offset two_lines);
    failed = false;
  };
}

slow_source-Holds : Holds slow_source two_lines
slow_source-Holds = record {
  whole = refl;
  reads =
      λ want offset p q. (if ltb want 2 then want else 2, ground (arith, p), ground arith, refl);
}

start-IsScanning : IsScanning two_lines new_patch_scanner
start-IsScanning = record {
  inside = omega arith;
  held = refl;
  remains = refl;
  digested = refl;
  ended = λ e. cc;
}

abbrev first_line : Option PatchLine
first_line = some (record { offset = 0; end = 5; text = codes "-abc"; terminated = true })

abbrev behind_first : PatchScanner
behind_first = record {
  read_at = 6;
  consumed = 5;
  buffer = codes "+";
  eof = false;
  hashed = codes "-abc\n+";
}

chunked_line : next slow_source 4 new_patch_scanner ≡ some (ok (first_line, behind_first))
unfolding next next_from scan_filled scan_buffer scan_part cut_line fill filled
chunked_line = refl

chunked_long : next slow_source 3 new_patch_scanner ≡ some (err limited)
unfolding next next_from scan_filled scan_buffer scan_part cut_line fill filled
chunked_long = refl

next-IsRefined_example :
    IsRefined two_lines
      (next slow_source 4 new_patch_scanner)
      (text_line 4 0 (left two_lines new_patch_scanner))
next-IsRefined_example =
    next-IsRefined slow_source two_lines slow_source-Holds 4 new_patch_scanner start-IsScanning

read_range-slice_example :
    (read_range slow_source (λ _. false) (pos 1) (pos 5) ≡ some (ok (codes "abc\n+")))
    × (hash_range slow_source (λ _. false) zero_digest (pos 1) (pos 5) ≡ some (ok (zeros 64)))
read_range-slice_example =
    read_range-slice slow_source two_lines slow_source-Holds zero_digest (pos 1) (pos 5)

before_start : read_range slow_source (λ _. false) (negsuc 0) (pos 5) ≡ some (err truncated)
unfolding read_range
before_start = refl
