-- ===== src/GeeCache/Lru.antt =====
-- geecache/lru/lru.go: the byte-bounded cache with least-recently-used eviction.
--
-- `V` and `value_len` are the interface `Value` and its method `Len`. The elements of the
-- `container/list` list stand in `ll`, front first, each under the identity that its pointer has;
-- `catche` maps a key to such an identity. A step through a pointer to no element of the list
-- is a fault, `none`. `OneEvicted` acts on a world `W` of the caller's; a nil callback is `none`.
-- `maxBytes` and `nbytes` are the bit patterns of their int64 values.
pub mod Elems
pub mod Invariant
pub mod Eviction
pub mod Methods
pub mod History
mod Tests
use distributed_study.Common.{
  ℕ, zero, suc, ◌+◌, Str, Dict, lookup, insert, erase, Option, none, some, ◌>>=◌, List, [], ◌∷◌,
  Bool, true, false, not, ◌&&◌, ◌==◌, nat_key, str_key, if◌then◌else◌, length, add64, sub64, slt64,
}

pub record Elem (V : Type 0) : Type 0 where
  pub id : ℕ
  pub key : Str
  pub value : V

pub record Cache (V W : Type 0) : Type 0 where
  pub max_bytes : ℕ
  pub nbytes : ℕ
  pub ll : List (Elem V)
  pub catche : Dict Str ℕ
  pub one_evicted : Option (Str → V → W → W)
  pub next_id : ℕ
  pub world : W

module _ {V : Type 0} where
  -- The element behind a pointer.
  unfoldable pub find_id : ℕ → List (Elem V) → Option (Elem V)
  find_id i [] = none
  find_id i (e ∷ l) = if e.id == i then some e else find_id i l

  -- `ll.Remove(ele)`.
  unfoldable pub remove_id : ℕ → List (Elem V) → List (Elem V)
  remove_id i [] = []
  remove_id i (e ∷ l) = if e.id == i then l else e ∷ remove_id i l

  -- `ll.Back()`.
  unfoldable pub back : List (Elem V) → Option (Elem V)
  back [] = none
  back (e ∷ []) = some e
  back (e ∷ f ∷ l) = back (f ∷ l)

  unfoldable pub len : {W : Type 0} → Cache V W → ℕ
  len c = length c.ll

module _ {V W : Type 0} where
  unfoldable pub new : ℕ → Option (Str → V → W → W) → W → Cache V W
  new max_bytes on_evicted w = record {
    max_bytes = max_bytes;
    nbytes = 0;
    ll = [];
    catche = [];
    one_evicted = on_evicted;
    next_id = 0;
    world = w;
  }

  -- The new cache, and the value if the key is there.
  unfoldable pub get : Str → Cache V W → Option (Cache V W × Option V)
  unfolding find_id remove_id
  get key c = elim (lookup key c.catche) [
    | none ↦ some (c, none)
    | some i ↦ do
      ele ← find_id i c.ll
      some (record c { ll = ele ∷ remove_id i c.ll }, some ele.value)
  ]

  -- The call of the callback, where there is one.
  unfoldable pub call_evicted : Option (Str → V → W → W) → Str → V → W → W
  call_evicted none k v w = w
  call_evicted (some f) k v w = f k v w

module _ {V W : Type 0} (value_len : V → ℕ) where
  unfoldable pub remove_oldest : Cache V W → Cache V W
  remove_oldest c = elim (back c.ll) [
    | none ↦ c
    | some ele ↦ record c {
      ll = remove_id ele.id c.ll;
      catche = erase ele.key c.catche;
      nbytes = sub64 c.nbytes (add64 (length ele.key) (value_len ele.value));
      world = call_evicted c.one_evicted ele.key ele.value c.world;
    }
  ]

  -- The test of the loop at the end of `Add`.
  unfoldable pub over : Cache V W → Bool
  over c = not (c.max_bytes == 0) && slt64 c.max_bytes c.nbytes

  -- The loop; `none` means that the fuel ran out.
  unfoldable pub evict : ℕ → Cache V W → Option (Cache V W)
  evict zero c = none
  evict (suc fuel) c = elim (over c) [ true ↦ evict fuel (remove_oldest c) | false ↦ some c ]

  -- The two branches of `Add` before the loop.
  unfoldable pub store : Str → V → Cache V W → Option (Cache V W)
  store key value c = elim (lookup key c.catche) [
    | some i ↦ do
      ele ← find_id i c.ll
      some (record c {
        ll = record ele { value = value } ∷ remove_id i c.ll;
        nbytes = add64 c.nbytes (sub64 (value_len value) (value_len ele.value));
      })
    | none ↦ some (record c {
      ll = record { id = c.next_id; key = key; value = value } ∷ c.ll;
      catche = insert key c.next_id c.catche;
      nbytes = add64 c.nbytes (add64 (length key) (value_len value));
      next_id = c.next_id + 1;
    })
  ]

  unfoldable pub add : ℕ → Str → V → Cache V W → Option (Cache V W)
  add fuel key value c = do c' ← store key value c; evict fuel c'
