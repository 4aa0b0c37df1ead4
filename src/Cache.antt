-- ===== src/Cache.antt =====
-- internal/highlight/cache.go: a cache of highlighted files with a bound on its entries and its bytes.
-- The lock makes each method one step. A method is a function from the cache to the changed cache,
-- which is never nil. The map is a list of entries, of which no two have the same key; in which order Go
-- visits a map matters only between entries used at the same time, which the clock excludes.
pub mod Entries
pub mod Evicted
pub mod Bounds
pub mod Kept
use nudge.Base.{
  Bool, List, Option, [], if◌then◌else◌, length, ltb, none, some, suc, zero, ℕ, ◌%◌, ◌&&◌, ◌+◌, ◌^◌,
  ◌||◌, ◌∷◌,
}
use nudge.Base.Bytes.{Bytes, bytes_eq}
use nudge.Base.Int.{eqb_ℤ, int64, ltb_ℤ, negsuc, pos, ℤ, ◌+ℤ◌, ◌-ℤ◌}

pub record StyledSpan : Type 0 where
  pub text : Bytes
  pub token : Bytes

pub record HighlightedFile : Type 0 where
  pub content_hash : Bytes
  pub lexer : Bytes
  pub syntax_style : Bytes
  pub lines : List (List StyledSpan)
  pub plain_text : Bool
  pub limit_reason : Bytes

pub record CacheKey : Type 0 where
  pub content_hash : Bytes
  pub lexer : Bytes
  pub syntax_style : Bytes

abbrev pub key_eq : CacheKey → CacheKey → Bool
key_eq a b =
    bytes_eq a.content_hash b.content_hash
    && bytes_eq a.lexer b.lexer
    && bytes_eq a.syntax_style b.syntax_style

-- An entry of the map, with its key.
pub record CacheEntry : Type 0 where
  pub key : CacheKey
  pub file : HighlightedFile
  pub bytes : ℕ
  pub used : ℕ

pub record Cache : Type 0 where
  pub max_entries : ℤ
  pub max_bytes : ℤ
  pub resident : ℤ
  pub clock : ℕ
  pub entries : List CacheEntry

-- A negative bound is 0.
abbrev nonnegative : ℤ → ℤ
nonnegative (pos n) = pos n
nonnegative (negsuc n) = pos 0

-- `NewCache`.
unfoldable pub new_cache : ℤ → ℤ → Cache
new_cache max_entries max_bytes = record {
  max_entries = nonnegative max_entries;
  max_bytes = nonnegative max_bytes;
  resident = pos 0;
  clock = 0;
  entries = [];
}

-- `entries[key]`.
unfoldable pub find : CacheKey → List CacheEntry → Option CacheEntry
find key [] = none
find key (e ∷ es) = let rest = find key es in if key_eq e.key key then some e else rest

-- `delete(entries, key)`.
unfoldable pub remove : CacheKey → List CacheEntry → List CacheEntry
remove key [] = []
remove key (e ∷ es) = let rest = remove key es in if key_eq e.key key then rest else e ∷ rest

-- The clock after a use, a 64-bit counter.
abbrev pub tick : ℕ → ℕ
tick n = (n + 1) % 2 ^ 64

-- `Get`, with the entry that the map has for the key.
unfoldable pub get_entry : Cache → CacheKey → Option CacheEntry → Cache × Option HighlightedFile
get_entry c key none = (c, none)
get_entry c key (some e) = (
  record c {
    clock = tick c.clock;
    entries = record e { used = tick c.clock } ∷ remove key c.entries;
  },
  some e.file,
)

-- `Get`.
unfoldable pub get : Cache → CacheKey → Cache × Option HighlightedFile
get c key = get_entry c key (find key c.entries)

-- The loop of `evictOldest`: the entry that was used first, among `e` and the list.
unfoldable pub oldest : CacheEntry → List CacheEntry → CacheEntry
oldest e [] = e
oldest e (f ∷ es) = oldest (if ltb f.used e.used then f else e) es

-- `evictOldest`, with the entries of the cache.
unfoldable pub evict_among : Cache → List CacheEntry → Cache
evict_among c [] = c
evict_among c (e ∷ es) = record c {
  resident = int64 (c.resident -ℤ pos (oldest e es).bytes);
  entries = remove (oldest e es).key c.entries;
}

-- `evictOldest`.
unfoldable pub evict_oldest : Cache → Cache
evict_oldest c = evict_among c c.entries

abbrev pub over_bounds : Cache → Bool
over_bounds c = ltb_ℤ c.max_entries (pos (length c.entries)) || ltb_ℤ c.max_bytes c.resident

-- The loop that evicts until the bounds hold. Every round removes an entry, and a cache without
-- entries is within its bounds, so fuel for each entry is enough.
unfoldable pub evict : ℕ → Cache → Cache
evict zero c = c
evict (suc fuel) c = let rest = evict fuel (evict_oldest c) in if over_bounds c then rest else c

abbrev old_bytes : Option CacheEntry → ℕ
old_bytes none = 0
old_bytes (some e) = e.bytes

-- The entry takes the place of the one with its key.
unfoldable pub store : Cache → CacheKey → HighlightedFile → ℕ → Cache
store c key file bytes = record c {
  clock = tick c.clock;
  resident = int64 (int64 (c.resident -ℤ pos (old_bytes (find key c.entries))) +ℤ pos bytes);
  entries =
      record { key = key; file = file; bytes = bytes; used = tick c.clock } ∷ remove key c.entries;
}

span_bytes : List StyledSpan → ℕ
span_bytes [] = 0
span_bytes (s ∷ line) = length s.text + length s.token + span_bytes line

line_bytes : List (List StyledSpan) → ℕ
unfolding span_bytes
line_bytes [] = 0
line_bytes (line ∷ lines) = span_bytes line + line_bytes lines

-- `highlightedBytes`; the bytes of a file in memory are far from the end of a 64-bit `int`.
unfoldable pub highlighted_bytes : HighlightedFile → ℕ
unfolding line_bytes
highlighted_bytes f =
    length f.content_hash
    + length f.lexer
    + length f.syntax_style
    + length f.limit_reason
    + line_bytes f.lines

-- `Put`; the copy of the file is the file.
unfoldable pub put : Cache → CacheKey → HighlightedFile → Cache
put c key file =
    let bytes = highlighted_bytes file in
    if eqb_ℤ c.max_entries (pos 0) || eqb_ℤ c.max_bytes (pos 0) || ltb_ℤ c.max_bytes (pos bytes)
    then c
    else let d = store c key file bytes in evict (length d.entries) d

-- `Len`.
unfoldable pub len : Cache → ℕ
len c = length c.entries
