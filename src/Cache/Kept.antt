-- ===== src/Cache/Kept.antt =====
-- A file that is put into the cache of internal/highlight/cache.go can be got from it.
use mathlib.Core.Path.{subst}
use nudge.Base.{
  Bool-cases, List, [], ap, arith, false, inl, inr, length, lt→ltb, refl, some, suc, sym, zero, ℕ,
  ◌+◌, ◌<◌, ◌^◌, ◌||◌, ◌∙◌, ◌∷◌, ◌≡◌,
}
use nudge.Base.Int.{eqb_ℤ, ltb_ℤ, pos, ◌≤ℤ◌}
use nudge.Cache.{
  Cache, CacheEntry, CacheKey, HighlightedFile, evict, evict_among, evict_oldest, find, get,
  get_entry, highlighted_bytes, key_eq, oldest, over_bounds, put, remove, store, tick,
}
use nudge.Cache.Bounds.{IsBounded, store-IsCounted}
use nudge.Cache.Entries.{
  AreDistinct, IsEntry, IsEntry-find, find-head, not_twins, oldest-IsEntry, sum_bytes,
}
use nudge.Cache.Evicted.{IsCounted, evict_oldest-IsCounted}

-- Every entry was used before a time.
abbrev pub AreUsedBefore : ℕ → List CacheEntry → Type 0
AreUsedBefore t [] = Unit
AreUsedBefore t (e ∷ es) = (e.used < t) × AreUsedBefore t es

remove-AreUsedBefore :
    (t : ℕ) (k : CacheKey) (es : List CacheEntry)
    → AreUsedBefore t es
    → AreUsedBefore t (remove k es)
unfolding remove
remove-AreUsedBefore t k [] u = tt
remove-AreUsedBefore t k (e ∷ es) (a, u) = elim (Bool-cases (key_eq e.key k)) [
  | inl p ↦ rw p (remove-AreUsedBefore t k es u)
  | inr p ↦ rw p (a, remove-AreUsedBefore t k es u)
]

-- The entry that was used first is one of the earlier ones.
oldest-earlier :
    (n f : CacheEntry) (es : List CacheEntry) → f.used < n.used → oldest n (f ∷ es) ≡ oldest f es
unfolding oldest
oldest-earlier n f es h = rw (lt→ltb f.used n.used h) refl

-- The newest entry is first, and all others were used before it.
record IsNewest (n : CacheEntry) (c : Cache) (rest : List CacheEntry) : Type 0 where
  in_front : c.entries ≡ n ∷ rest
  earlier : AreUsedBefore n.used rest
  one_allowed : pos 1 ≤ℤ c.max_entries
  small_enough : pos n.bytes ≤ℤ c.max_bytes

alone-within : (n : CacheEntry) (c : Cache) → IsCounted c → IsNewest n c [] → over_bounds c ≡ false
alone-within n c v w =
    ground
      (arith, v.count, w.one_allowed, w.small_enough, ap length w.in_front, ap sum_bytes w.in_front)

other_key :
    (n o : CacheEntry) (es : List CacheEntry)
    → AreDistinct (n ∷ es)
    → IsEntry o es
    → key_eq n.key o.key ≡ false
other_key n o es (a, d) m = elim (Bool-cases (key_eq n.key o.key)) [
  | inl p ↦ absurd (not_twins n.key o.key o es p a (IsEntry-find o es d m))
  | inr p ↦ p
]

remove-behind :
    (n : CacheEntry) (k : CacheKey) (es : List CacheEntry)
    → key_eq n.key k ≡ false
    → remove k (n ∷ es) ≡ n ∷ remove k es
unfolding remove
remove-behind n k es h = rw h refl

evict_among-keeps :
    (n f : CacheEntry) (c : Cache) (es : List CacheEntry)
    → IsCounted c
    → IsNewest n c (f ∷ es)
    → IsNewest n (evict_among c (n ∷ f ∷ es)) (remove (oldest f es).key (f ∷ es))
unfolding evict_among
evict_among-keeps n f c es v w =
    let o = oldest f es in
    let d = subst AreDistinct w.in_front v.no_twins in
    let same = oldest-earlier n f es w.earlier.0 in
    record {
      in_front =
          ap (λ x. remove x.key c.entries) same
          ∙ ap (remove o.key) w.in_front
          ∙ remove-behind n o.key (f ∷ es) (other_key n o (f ∷ es) d (oldest-IsEntry f es));
      earlier = remove-AreUsedBefore n.used o.key (f ∷ es) w.earlier;
      one_allowed = w.one_allowed;
      small_enough = w.small_enough;
    }

evict_oldest-keeps :
    (n f : CacheEntry) (c : Cache) (es : List CacheEntry)
    → IsCounted c
    → IsNewest n c (f ∷ es)
    → IsNewest n (evict_oldest c) (remove (oldest f es).key (f ∷ es))
unfolding evict_oldest
evict_oldest-keeps n f c es v w =
    subst (λ x. IsNewest n (evict_among c x) (remove (oldest f es).key (f ∷ es))) (sym w.in_front)
      (evict_among-keeps n f c es v w)

-- The newest entry outlives every eviction.
evict-keeps :
    (fuel : ℕ) (n : CacheEntry) (c : Cache) (rest : List CacheEntry)
    → IsCounted c
    → IsNewest n c rest
    → find n.key (evict fuel c).entries ≡ some n
unfolding evict
evict-keeps zero n c rest v w = ap (find n.key) w.in_front ∙ find-head n rest
evict-keeps (suc fuel) n c [] v w =
    rw (alone-within n c v w) (ap (find n.key) w.in_front ∙ find-head n [])
evict-keeps (suc fuel) n c (f ∷ es) v w = elim (Bool-cases (over_bounds c)) [
  | inl p ↦ rw p (
      evict-keeps fuel n (evict_oldest c) (remove (oldest f es).key (f ∷ es))
        (evict_oldest-IsCounted c v) (evict_oldest-keeps n f c es v w))
  | inr p ↦ rw p (ap (find n.key) w.in_front ∙ find-head n (f ∷ es))
]

abbrev newest : Cache → CacheKey → HighlightedFile → ℕ → CacheEntry
newest c key file n = record { key = key; file = file; bytes = n; used = tick c.clock }

store-IsNewest :
    (c : Cache) (key : CacheKey) (file : HighlightedFile) (n : ℕ)
    → pos 1 ≤ℤ c.max_entries
    → pos n ≤ℤ c.max_bytes
    → c.clock + 1 < 2 ^ 64
    → AreUsedBefore (c.clock + 1) c.entries
    → IsNewest (newest c key file n) (store c key file n) (remove key c.entries)
unfolding store
store-IsNewest c key file n a b k u =
    let now : tick c.clock ≡ c.clock + 1 = omega arith in
    record {
      in_front = refl;
      earlier = rw now (remove-AreUsedBefore (c.clock + 1) key c.entries u);
      one_allowed = a;
      small_enough = b;
    }

get-found :
    (c : Cache) (key : CacheKey) (e : CacheEntry)
    → find key c.entries ≡ some e
    → (get c key).1 ≡ some e.file
unfolding get get_entry
get-found c key e h = rw h refl

-- A file that is put into a cache within its bounds, with room for an entry and for the size of
-- the file, can be got at once, however many entries had to be evicted for it. Every entry was
-- used no later than the clock, which is not at the end of its 64 bits.
pub put-get :
    (c : Cache) (key : CacheKey) (file : HighlightedFile)
    → IsBounded c
    → pos 1 ≤ℤ c.max_entries
    → (pos 1 ≤ℤ c.max_bytes) × (pos (highlighted_bytes file) ≤ℤ c.max_bytes)
    → c.clock + 1 < 2 ^ 64
    → AreUsedBefore (c.clock + 1) c.entries
    → (get (put c key file) key).1 ≡ some file
unfolding put
put-get c key file v a (o, b) k u =
    let n = highlighted_bytes file in
    let d = store c key file n in
    let stored : eqb_ℤ c.max_entries (pos 0)
          || eqb_ℤ c.max_bytes (pos 0)
          || ltb_ℤ c.max_bytes (pos n)
        ≡ false =
      ground arith in
    let kept =
      evict-keeps (length d.entries) (newest c key file n) d (remove key c.entries)
        (store-IsCounted c key file n v (ground (arith, b, v.room)))
        (store-IsNewest c key file n a b k u) in
    rw stored (get-found (evict (length d.entries) d) key (newest c key file n) kept)
