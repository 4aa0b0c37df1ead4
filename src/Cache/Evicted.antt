-- ===== src/Cache/Evicted.antt =====
-- The loop of internal/highlight/cache.go that evicts entries ends within the bounds.
use nudge.Base.{
  Bool-cases, List, [], ap, arith, false, inl, inr, length, refl, suc, zero, ℕ, ◌+◌, ◌<◌, ◌^◌, ◌∙◌,
  ◌∷◌, ◌≡◌, ◌≤◌,
}
use nudge.Base.Int.{int64, pos, ◌+ℤ◌, ◌-ℤ◌, ◌≤ℤ◌}
use nudge.Cache.{Cache, CacheEntry, evict, evict_among, evict_oldest, oldest, over_bounds, remove}
use nudge.Cache.Entries.{
  AreDistinct, IsEntry, IsEntry-find, length-remove, oldest-IsEntry, remove-AreDistinct, sum_bytes,
  sum_bytes-remove,
}

-- The count of the bytes is right.
pub record IsCounted (c : Cache) : Type 0 where
  pub no_twins : AreDistinct c.entries
  pub count : c.resident ≡ pos (sum_bytes c.entries)
  pub fits : sum_bytes c.entries < 2 ^ 63

pub int64_sub : (a b o : ℕ) → b + o ≡ a → a < 2 ^ 63 → int64 (pos a -ℤ pos o) ≡ pos b
unfolding int64 ◌-ℤ◌
int64_sub a b o e h = ground arith

pub int64_add : (a b : ℕ) → a + b < 2 ^ 63 → int64 (pos a +ℤ pos b) ≡ pos (a + b)
unfolding int64 ◌+ℤ◌
int64_add a b h = ground arith

pub evict_entry-IsCounted :
    (c : Cache) (o : CacheEntry)
    → IsCounted c
    → IsEntry o c.entries
    → IsCounted (record c {
      resident = int64 (c.resident -ℤ pos o.bytes);
      entries = remove o.key c.entries;
    })
evict_entry-IsCounted c o v m =
    let sums = sum_bytes-remove o.key c.entries v.no_twins in
    let found = IsEntry-find o c.entries v.no_twins m in
    let e : sum_bytes (remove o.key c.entries) + o.bytes ≡ sum_bytes c.entries =
      ground (arith, sums, found) in
    record {
      no_twins = remove-AreDistinct o.key c.entries v.no_twins;
      count =
          rw v.count
            (int64_sub (sum_bytes c.entries) (sum_bytes (remove o.key c.entries)) o.bytes e v.fits);
      fits = omega (arith, e, v.fits);
    }

-- The bounds themselves never change.
abbrev pub SameBounds : Cache → Cache → Type 0
SameBounds c c' = (c'.max_entries ≡ c.max_entries) × (c'.max_bytes ≡ c.max_bytes)

pub evict_among-IsCounted :
    (c : Cache) (es : List CacheEntry) → c.entries ≡ es → IsCounted c → IsCounted (evict_among c es)
unfolding evict_among
evict_among-IsCounted c [] q v = v
evict_among-IsCounted c (e ∷ es) q v =
    evict_entry-IsCounted c (oldest e es) v (rw q (oldest-IsEntry e es))

pub evict_oldest-IsCounted : (c : Cache) → IsCounted c → IsCounted (evict_oldest c)
unfolding evict_oldest
evict_oldest-IsCounted c v = evict_among-IsCounted c c.entries refl v

pub length-evict_among :
    (c : Cache) (es : List CacheEntry) (n : ℕ)
    → c.entries ≡ es
    → IsCounted c
    → length c.entries ≤ suc n
    → length (evict_among c es).entries ≤ n
unfolding evict_among
length-evict_among c [] n q v k = omega (arith, ap length q)
length-evict_among c (e ∷ es) n q v k =
    omega (arith, length-remove (oldest e es) c.entries v.no_twins (rw q (oldest-IsEntry e es)))

pub length-evict_oldest :
    (c : Cache) (n : ℕ)
    → IsCounted c
    → length c.entries ≤ suc n
    → length (evict_oldest c).entries ≤ n
unfolding evict_oldest
length-evict_oldest c n v k = length-evict_among c c.entries n refl v k

pub evict_among-SameBounds : (c : Cache) (es : List CacheEntry) → SameBounds c (evict_among c es)
unfolding evict_among
evict_among-SameBounds c [] = (refl, refl)
evict_among-SameBounds c (e ∷ es) = (refl, refl)

pub evict_oldest-SameBounds : (c : Cache) → SameBounds c (evict_oldest c)
unfolding evict_oldest
evict_oldest-SameBounds c = evict_among-SameBounds c c.entries

pub no_bytes : (es : List CacheEntry) → length es ≤ 0 → sum_bytes es ≡ 0
no_bytes [] k = refl
no_bytes (e ∷ es) k = absurd (omega arith)

pub empty-within :
    (c : Cache)
    → IsCounted c
    → (pos 0 ≤ℤ c.max_entries) × (pos 0 ≤ℤ c.max_bytes)
    → length c.entries ≤ 0
    → over_bounds c ≡ false
empty-within c v b k = ground (arith, v.count, no_bytes c.entries k)

-- With fuel for each entry, the loop ends within the bounds.
pub evict-within :
    (n : ℕ) (c : Cache)
    → IsCounted c
    → (pos 0 ≤ℤ c.max_entries) × (pos 0 ≤ℤ c.max_bytes)
    → length c.entries ≤ n
    → IsCounted (evict n c) × (over_bounds (evict n c) ≡ false) × SameBounds c (evict n c)
unfolding evict
evict-within zero c v b k = (v, empty-within c v b k, (refl, refl))
evict-within (suc n) c v b k = elim (Bool-cases (over_bounds c)) [
  | inl p ↦
      let (m, l) = evict_oldest-SameBounds c in
      let (u, w, (m', l')) =
        evict-within n (evict_oldest c) (evict_oldest-IsCounted c v) (rw m b.0, rw l b.1)
          (length-evict_oldest c n v k) in
      rw p (u, w, (m' ∙ m, l' ∙ l))
  | inr p ↦ rw p (v, p, (refl, refl))
]
