-- ===== src/Cache/Entries.antt =====
-- The entries of the map in internal/highlight/cache.go, as keys and sizes.
use nudge.Base.{
  Bool, Bool-cases, List, [], ap, arith, false, if◌then◌else◌, inl, inr, length, ltb, none, refl,
  some, suc, sym, true, ℕ, ◌+◌, ◌∙◌, ◌∷◌, ◌≡◌, ◌⊎◌,
}
use nudge.Base.Bytes.{bytes_eq_refl, bytes_eq_sound}
use nudge.Cache.{CacheEntry, CacheKey, find, key_eq, old_bytes, oldest, remove}

bytes_eq-key : (a b : CacheKey) → key_eq a b ≡ true → a ≡ b
bytes_eq-key a b h = ground (
  arith,
  bytes_eq_sound a.content_hash b.content_hash,
  bytes_eq_sound a.lexer b.lexer,
  bytes_eq_sound a.syntax_style b.syntax_style,
)

key_eq_refl : (a : CacheKey) → key_eq a a ≡ true
key_eq_refl a =
    ground
      (arith, bytes_eq_refl a.content_hash, bytes_eq_refl a.lexer, bytes_eq_refl a.syntax_style)

abbrev pub sum_bytes : List CacheEntry → ℕ
sum_bytes [] = 0
sum_bytes (e ∷ es) = e.bytes + sum_bytes es

-- No two entries have the same key.
abbrev pub AreDistinct : List CacheEntry → Type 0
AreDistinct [] = Unit
AreDistinct (e ∷ es) = (find e.key es ≡ none) × AreDistinct es

abbrev pub IsEntry : CacheEntry → List CacheEntry → Type 0
IsEntry o [] = ⊥
IsEntry o (e ∷ es) = (o ≡ e) ⊎ IsEntry o es

pub find-remove : (k : CacheKey) (es : List CacheEntry) → find k (remove k es) ≡ none
unfolding find remove
find-remove k [] = refl
find-remove k (e ∷ es) = ground (arith, find-remove k es)

find-remove_other :
    (k j : CacheKey) (es : List CacheEntry) → find k es ≡ none → find k (remove j es) ≡ none
unfolding find remove
find-remove_other k j [] h = refl
find-remove_other k j (e ∷ es) h = ground (arith, find-remove_other k j es)

pub remove-AreDistinct :
    (k : CacheKey) (es : List CacheEntry) → AreDistinct es → AreDistinct (remove k es)
unfolding remove
remove-AreDistinct k [] d = tt
remove-AreDistinct k (e ∷ es) (n, d) = elim (Bool-cases (key_eq e.key k)) [
  | inl p ↦ rw p (remove-AreDistinct k es d)
  | inr p ↦ rw p (find-remove_other e.key k es n, remove-AreDistinct k es d)
]

remove-none : (k : CacheKey) (es : List CacheEntry) → find k es ≡ none → remove k es ≡ es
unfolding find remove
remove-none k [] h = refl
remove-none k (e ∷ es) h = ground (arith, remove-none k es)

pub sum_bytes-remove :
    (k : CacheKey) (es : List CacheEntry)
    → AreDistinct es
    → sum_bytes (remove k es) + old_bytes (find k es) ≡ sum_bytes es
unfolding find remove
sum_bytes-remove k [] d = refl
sum_bytes-remove k (e ∷ es) (n, d) = elim (Bool-cases (key_eq e.key k)) [
  | inl p ↦
      let same = bytes_eq-key e.key k p in rw p (ground (arith, remove-none k es (rw (sym same) n)))
  | inr p ↦ rw p (ground (arith, sum_bytes-remove k es d))
]

pub not_twins :
    (j k : CacheKey) (o : CacheEntry) (es : List CacheEntry)
    → key_eq j k ≡ true
    → find j es ≡ none
    → find k es ≡ some o
    → ⊥
not_twins j k o es h n f = cc (bytes_eq-key j k h, n, f)

pub find-head : (e : CacheEntry) (es : List CacheEntry) → find e.key (e ∷ es) ≡ some e
unfolding find
find-head e es = ground (arith, key_eq_refl e.key)

remove-head :
    (e : CacheEntry) (es : List CacheEntry) → find e.key es ≡ none → remove e.key (e ∷ es) ≡ es
unfolding remove
remove-head e es n = ground (arith, key_eq_refl e.key, remove-none e.key es)

pub IsEntry-find :
    (o : CacheEntry) (es : List CacheEntry) → AreDistinct es → IsEntry o es → find o.key es ≡ some o
unfolding find
IsEntry-find o [] d m = elim m [ ]
IsEntry-find o (e ∷ es) (n, d) (inl p) =
    ap (λ x. find x.key (e ∷ es)) p ∙ find-head e es ∙ ap some (sym p)
IsEntry-find o (e ∷ es) (n, d) (inr m) = elim (Bool-cases (key_eq e.key o.key)) [
  | inl p ↦ absurd (not_twins e.key o.key o es p n (IsEntry-find o es d m))
  | inr p ↦ rw p (IsEntry-find o es d m)
]

pub length-remove :
    (o : CacheEntry) (es : List CacheEntry)
    → AreDistinct es
    → IsEntry o es
    → suc (length (remove o.key es)) ≡ length es
unfolding remove
length-remove o [] d m = elim m [ ]
length-remove o (e ∷ es) (n, d) (inl p) =
    ap (λ x. suc (length (remove x.key (e ∷ es)))) p ∙ ap (λ x. suc (length x)) (remove-head e es n)
length-remove o (e ∷ es) (n, d) (inr m) = elim (Bool-cases (key_eq e.key o.key)) [
  | inl p ↦ absurd (not_twins e.key o.key o es p n (IsEntry-find o es d m))
  | inr p ↦ rw p (ap suc (length-remove o es d m))
]

first_of_two :
    (b : Bool) (e f o : CacheEntry) (es : List CacheEntry)
    → IsEntry o ((if b then f else e) ∷ es)
    → IsEntry o (e ∷ f ∷ es)
first_of_two true e f o es m = inr m
first_of_two false e f o es (inl p) = inl p
first_of_two false e f o es (inr m) = inr (inr m)

pub oldest-IsEntry : (e : CacheEntry) (es : List CacheEntry) → IsEntry (oldest e es) (e ∷ es)
unfolding oldest
oldest-IsEntry e [] = inl refl
oldest-IsEntry e (f ∷ es) =
    let first = if ltb f.used e.used then f else e in
    first_of_two (ltb f.used e.used) e f (oldest first es) es (oldest-IsEntry first es)

-- An entry that is found is one of the entries, and has the key.
pub find-IsEntry :
    (k : CacheKey) (es : List CacheEntry) (o : CacheEntry)
    → find k es ≡ some o
    → IsEntry o es × (o.key ≡ k)
unfolding find
find-IsEntry k [] o h = absurd (cc h)
find-IsEntry k (e ∷ es) o h = elim (Bool-cases (key_eq e.key k)) [
  | inl p ↦
      let same : e ≡ o = ground (arith, p) in
      (inl (sym same), ap (λ x. x.key) (sym same) ∙ bytes_eq-key e.key k p)
  | inr p ↦ let (m, q) = find-IsEntry k es o (ground (arith, p)) in (inr m, q)
]
