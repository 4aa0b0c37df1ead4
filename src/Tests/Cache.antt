-- ===== src/Tests/Cache.antt =====
-- A small highlight cache.
use nudge.Base.{List, [], arith, false, none, refl, some, ℕ, ◌∷◌, ◌≡◌}
use nudge.Base.Bytes.{codes}
use nudge.Base.Int.{int64, pos, ◌+ℤ◌, ◌-ℤ◌}
use nudge.Cache.{
  Cache, CacheKey, HighlightedFile, evict, evict_among, evict_oldest, find, get, get_entry,
  highlighted_bytes, new_cache, oldest, put, remove, store,
}
use nudge.Cache.Bounds.{CacheCall, IsBounded, cache_calls, cache_calls-IsBounded, puts}
use nudge.Cache.Kept.{put-get}

abbrev key_of : ℕ → CacheKey
key_of n = record { content_hash = n ∷ []; lexer = codes "go"; syntax_style = [] }

abbrev file_of : ℕ → HighlightedFile
file_of n = record {
  content_hash = n ∷ [];
  lexer = codes "go";
  syntax_style = [];
  lines = (record { text = codes "func"; token = codes "kw" } ∷ []) ∷ [];
  plain_text = false;
  limit_reason = [];
}

-- Two files of nine bytes fit, the third evicts the first.
abbrev three_puts : List CacheCall
three_puts =
    puts (key_of 1) (file_of 1) ∷ puts (key_of 2) (file_of 2) ∷ puts (key_of 3) (file_of 3) ∷ []

abbrev after_three : Cache
after_three = cache_calls (new_cache (pos 5) (pos 20)) three_puts

cache_calls-IsBounded_example : IsBounded after_three
cache_calls-IsBounded_example = cache_calls-IsBounded (pos 5) (pos 20) three_puts (omega arith)

first_evicted : (get after_three (key_of 1)).1 ≡ none
unfolding get get_entry put evict evict_oldest evict_among store find remove oldest new_cache
    highlighted_bytes int64 ◌+ℤ◌ ◌-ℤ◌
first_evicted = refl

second_kept : (get after_three (key_of 2)).1 ≡ some (file_of 2)
unfolding get get_entry put evict evict_oldest evict_among store find remove oldest new_cache
    highlighted_bytes int64 ◌+ℤ◌ ◌-ℤ◌
second_kept = refl

put-get_example : (get (put after_three (key_of 4) (file_of 4)) (key_of 4)).1 ≡ some (file_of 4)
unfolding put evict evict_oldest evict_among store find remove oldest new_cache highlighted_bytes
    int64 ◌+ℤ◌ ◌-ℤ◌
put-get_example =
    put-get after_three (key_of 4) (file_of 4) cache_calls-IsBounded_example (omega arith)
      (omega arith, omega arith) (omega arith) (omega arith, (omega arith, tt))
