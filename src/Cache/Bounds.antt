-- ===== src/Cache/Bounds.antt =====
-- The cache of internal/highlight/cache.go is within its bounds after every call.
use nudge.Base.{
  Bool-cases, List, Option, [], ap, arith, false, inl, inr, length, none, refl, some, suc, sym, ℕ,
  ◌+◌, ◌<◌, ◌^◌, ◌||◌, ◌∙◌, ◌∷◌, ◌≡◌,
}
use nudge.Base.Int.{eqb_ℤ, ltb_ℤ, pos, ℤ, ◌<ℤ◌, ◌≤ℤ◌}
use nudge.Cache.{
  Cache, CacheEntry, CacheKey, HighlightedFile, evict, find, get, get_entry, highlighted_bytes,
  new_cache, old_bytes, over_bounds, put, remove, store,
}
use nudge.Cache.Entries.{
  AreDistinct, find-IsEntry, find-remove, length-remove, remove-AreDistinct, sum_bytes,
  sum_bytes-remove,
}
use nudge.Cache.Evicted.{IsCounted, SameBounds, evict-within, int64_add, int64_sub}

-- The cache is within its bounds, and the bound on its bytes leaves room for one more file.
pub record IsBounded (c : Cache) : Type 0 where
  pub distinct : AreDistinct c.entries
  pub counted : c.resident ≡ pos (sum_bytes c.entries)
  pub few : pos (length c.entries) ≤ℤ c.max_entries
  pub light : c.resident ≤ℤ c.max_bytes
  pub room : c.max_bytes <ℤ pos (2 ^ 62)

sum_bytes-light :
    (c : Cache) → IsBounded c → (sum_bytes c.entries < 2 ^ 62) × (pos 0 ≤ℤ c.max_bytes)
sum_bytes-light c v =
    let k : sum_bytes c.entries < 2 ^ 62 = ground (arith, v.counted, v.light, v.room) in
    (k, ground (arith, v.counted, v.light))

pub store-IsCounted :
    (c : Cache) (key : CacheKey) (file : HighlightedFile) (n : ℕ)
    → IsBounded c
    → n < 2 ^ 62
    → IsCounted (store c key file n)
unfolding store
store-IsCounted c key file n v k =
    let sums = sum_bytes-remove key c.entries v.distinct in
    let (l, z) = sum_bytes-light c v in
    let left = sum_bytes (remove key c.entries) in
    let old = old_bytes (find key c.entries) in
    let small : left + n < 2 ^ 63 = omega (arith, sums) in
    record {
      no_twins = (find-remove key c.entries, remove-AreDistinct key c.entries v.distinct);
      count =
          rw (v.counted, int64_sub (sum_bytes c.entries) left old sums (omega arith))
            (int64_add left n small ∙ ap pos (omega arith));
      fits = omega (arith, small);
    }

abbrev AreNonnegative : Cache → Type 0
AreNonnegative c = (pos 0 ≤ℤ c.max_entries) × (pos 0 ≤ℤ c.max_bytes)

IsBounded-AreNonnegative : (c : Cache) → IsBounded c → AreNonnegative c
IsBounded-AreNonnegative c v = (ground (arith, v.few), (sum_bytes-light c v).1)

evicted-IsBounded :
    (c d : Cache)
    → c.max_bytes <ℤ pos (2 ^ 62)
    → IsCounted d
    → over_bounds d ≡ false
    → SameBounds c d
    → IsBounded d
evicted-IsBounded c d r v o (m, l) = record {
  distinct = v.no_twins;
  counted = v.count;
  few = ground (arith, o);
  light = ground (arith, o);
  room = rw l r;
}

store_bounds :
    (c : Cache) (key : CacheKey) (file : HighlightedFile) (n : ℕ)
    → IsBounded c
    → AreNonnegative (store c key file n)
unfolding store
store_bounds c key file n v = IsBounded-AreNonnegative c v

store_same :
    (c : Cache) (key : CacheKey) (file : HighlightedFile) (n : ℕ) (d : Cache)
    → SameBounds (store c key file n) d
    → SameBounds c d
unfolding store
store_same c key file n d s = s

put_stored-IsBounded :
    (c : Cache) (key : CacheKey) (file : HighlightedFile) (n : ℕ)
    → IsBounded c
    → n < 2 ^ 62
    → IsBounded (evict (length (store c key file n).entries) (store c key file n))
put_stored-IsBounded c key file n v k =
    let d = store c key file n in
    let (u, o, s) =
      evict-within (length d.entries) d (store-IsCounted c key file n v k)
        (store_bounds c key file n v) (omega arith) in
    evicted-IsBounded c (evict (length d.entries) d) v.room u o
      (store_same c key file n (evict (length d.entries) d) s)

pub put-IsBounded :
    (c : Cache) (key : CacheKey) (file : HighlightedFile) → IsBounded c → IsBounded (put c key file)
unfolding put
put-IsBounded c key file v =
    elim (Bool-cases (
      eqb_ℤ c.max_entries (pos 0)
      || eqb_ℤ c.max_bytes (pos 0)
      || ltb_ℤ c.max_bytes (pos (highlighted_bytes file)))) [
        | inl p ↦ rw p v
        | inr p ↦
            rw p (
              put_stored-IsBounded c key file (highlighted_bytes file) v
                (ground (arith, p, v.room)))
      ]

get_entry-IsBounded :
    (c : Cache) (key : CacheKey) (o : Option CacheEntry)
    → find key c.entries ≡ o
    → IsBounded c
    → IsBounded (get_entry c key o).0
unfolding get_entry
get_entry-IsBounded c key none p v = v
get_entry-IsBounded c key (some e) p v =
    let (m, q) = find-IsEntry key c.entries e p in
    let sums = sum_bytes-remove key c.entries v.distinct in
    let shorter : suc (length (remove key c.entries)) ≡ length c.entries =
      ap (λ k. suc (length (remove k c.entries))) (sym q)
      ∙ length-remove e c.entries v.distinct m in
    record {
      distinct = (rw q (find-remove key c.entries), remove-AreDistinct key c.entries v.distinct);
      counted = v.counted ∙ ap pos (ground (arith, sums, p));
      few = omega (arith, shorter, v.few);
      light = v.light;
      room = v.room;
    }

pub get-IsBounded : (c : Cache) (key : CacheKey) → IsBounded c → IsBounded (get c key).0
unfolding get
get-IsBounded c key v = get_entry-IsBounded c key (find key c.entries) refl v

pub data CacheCall : Type 0 where
  gets : CacheKey → CacheCall
  puts : CacheKey → HighlightedFile → CacheCall

-- The cache after some calls.
abbrev pub cache_calls : Cache → List CacheCall → Cache
cache_calls c [] = c
cache_calls c (gets key ∷ calls) = cache_calls (get c key).0 calls
cache_calls c (puts key file ∷ calls) = cache_calls (put c key file) calls

cache_calls-keep :
    (c : Cache) (calls : List CacheCall) → IsBounded c → IsBounded (cache_calls c calls)
cache_calls-keep c [] v = v
cache_calls-keep c (gets key ∷ calls) v =
    cache_calls-keep (get c key).0 calls (get-IsBounded c key v)
cache_calls-keep c (puts key file ∷ calls) v =
    cache_calls-keep (put c key file) calls (put-IsBounded c key file v)

-- After any calls on a new cache, it has at most the entries and bytes that its bounds allow, no
-- two entries have the same key, and the count of its bytes is right. The bound on the bytes is
-- below 2^62.
pub cache_calls-IsBounded :
    (max_entries max_bytes : ℤ) (calls : List CacheCall)
    → max_bytes <ℤ pos (2 ^ 62)
    → IsBounded (cache_calls (new_cache max_entries max_bytes) calls)
unfolding new_cache
cache_calls-IsBounded m b calls k = cache_calls-keep (new_cache m b) calls (record {
  distinct = tt;
  counted = refl;
  few = ground arith;
  light = ground arith;
  room = ground arith;
})
