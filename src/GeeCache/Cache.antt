-- ===== src/GeeCache/Cache.antt =====
-- geecache/cache.go and byteview.go: the cache of a group, whose LRU is made on first use.
--
-- A `ByteView` is its bytes; a copy of them is the same bytes. `none` of a result is a fault of the
-- LRU, or a loop of it that does not end: each round of that loop takes a pair away, so the rounds
-- that `add` allows run out only where the loop goes on for ever.
pub mod Kept
use distributed_study.Common.{ℕ, ◌+◌, Str, Option, none, some, ◌>>=◌, length}
use distributed_study.GeeCache.Lru

pub record ByteView : Type 0 where
  pub b : Str

abbrev pub len : ByteView → ℕ
len v = length v.b

abbrev pub clone_bytes : Str → Str
clone_bytes b = b

abbrev pub byteslice : ByteView → Str
byteslice v = clone_bytes v.b

abbrev pub LruCache : Type 0
LruCache = Lru.Cache ByteView (Unit {0})

pub record Cache : Type 0 where
  pub lru : Option LruCache
  pub cache_bytes : ℕ

-- The lazy `lru.New` of `add`.
unfoldable pub init_lru : Cache → LruCache
init_lru c = elim c.lru [ none ↦ Lru.new c.cache_bytes none tt | some l ↦ l ]

unfoldable pub add : Str → ByteView → Cache → Option Cache
add key value c = do
  l ← Lru.add len (Lru.len (init_lru c) + 2) key value (init_lru c)
  some (record c { lru = some l })

-- The value, if the key is there, and the cache, whose order a hit changes.
unfoldable pub get : Str → Cache → Option (Option ByteView × Cache)
get key c = elim c.lru [
  | none ↦ some (none, c)
  | some l ↦ do (l', v) ← Lru.get key l; some (v, record c { lru = some l' })
]
