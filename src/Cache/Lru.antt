-- ===== src/Cache/Lru.antt =====
-- The class template LruCache of olp-cpp-sdk-core/include/olp/core/utils/LruCache.h: a map of
-- buckets, which are linked from the most to the least recently used one.
-- An iterator is the key of a bucket, and `none` is end(). An operation gives `none` where the code
-- follows end() or fails an assertion. Sizes are `std::size_t` of 64 bits.
pub mod Chain
pub mod Lists
pub mod Relink
pub mod Layout
pub mod Promote
pub mod Add
pub mod Ideal
pub mod Evict
pub mod Refine
pub mod Kept
pub mod Runs
pub mod Reads
pub mod Tests
use here_olp_edge_sdk_cpp.Prelude.{
  ℕ, zero, suc, ◌+◌, ◌-◌, ◌%◌, Bool, true, false, ltb, ◌&&◌, ◌==◌, if◌then◌else◌, Option, none,
  some, List, [], ◌∷◌, ◌++◌, u64_mod, ◌>>=◌,
}
use mathlib.Core.Logic.{ite}

pub record Bucket {ℓ} (K V : Type ℓ) : Type ℓ where
  pub next : Option K
  pub previous : Option K
  pub value : V

-- The `std::map` of a cache: find() and size().
pub record BucketMap {ℓ} (K V : Type ℓ) : Type ℓ where
  pub find : K → Option (Bucket K V)
  pub count : ℕ

-- `evicted` holds the calls of the eviction callback, the latest first.
pub record LruCache {ℓ} (K V : Type ℓ) : Type ℓ where
  pub buckets : BucketMap K V
  pub first : Option K
  pub last : Option K
  pub max_size : ℕ
  pub size : ℕ
  pub has_callback : Bool
  pub evicted : List (K × V)

-- assert()
abbrev pub guarded {ℓ} : {A : Type ℓ} → Bool → Option A → Option A
guarded true m = m
guarded false m = none

-- `if (...) eviction_callback_(...)`
abbrev pub called {ℓ} : {A : Type ℓ} → Bool → A → List A → List A
called true e evicted = e ∷ evicted
called false e evicted = evicted

module _ {ℓ} {K : Type ℓ} where
  -- `it == map_.end()`
  abbrev pub is_end : Option K → Bool
  is_end none = true
  is_end (some k) = false

  -- `first_ == it`
  abbrev pub is_at : Discrete K → Option K → K → Bool
  is_at dec none k = false
  is_at dec (some j) k = ite (dec j k) true false

module _ {ℓ} {K V : Type ℓ} where
  -- The cache that LruCache(maxSize, ...) makes.
  unfoldable pub empty : ℕ → Bool → LruCache K V
  empty max_size has_callback = record {
    buckets = record { find = λ k. none; count = 0 };
    first = none;
    last = none;
    max_size = max_size;
    size = 0;
    has_callback = has_callback;
    evicted = [];
  }

  -- Clear()
  unfoldable pub clear : LruCache K V → LruCache K V
  clear c = record c {
    buckets = record { find = λ k. none; count = 0 };
    first = none;
    last = none;
    size = 0;
  }

  unfoldable pub begin : LruCache K V → Option K
  begin c = c.first

  unfoldable pub rbegin : LruCache K V → Option K
  rbegin c = c.last

  -- ++it
  unfoldable pub advance : LruCache K V → Option K → Option (Option K)
  advance c none = none
  advance c (some k) = do b ← c.buckets.find k; some b.next

module _ {ℓ} {K V : Type ℓ} (dec : Discrete K) where
  abbrev pub update : (K → Option (Bucket K V)) → K → Option (Bucket K V) → K → Option (Bucket K V)
  update f k b j = ite (dec k j) b (f j)

  -- The key is new.
  abbrev pub map_insert : BucketMap K V → K → Bucket K V → BucketMap K V
  map_insert m k b = record { find = update m.find k (some b); count = suc m.count }

  abbrev pub map_erase : BucketMap K V → K → BucketMap K V
  map_erase m k = record { find = update m.find k none; count = m.count - 1 }

  -- `it->second.setNext(...)`, `it->second.setPrevious(...)` and `it->second.value_ = ...`.
  abbrev pub set_next : BucketMap K V → Option K → Option K → Option (BucketMap K V)
  set_next m none x = none
  set_next m (some k) x = do
    b ← m.find k
    some (record m { find = update m.find k (some (record b { next = x })) })

  abbrev pub set_previous : BucketMap K V → Option K → Option K → Option (BucketMap K V)
  set_previous m none x = none
  set_previous m (some k) x = do
    b ← m.find k
    some (record m { find = update m.find k (some (record b { previous = x })) })

  abbrev pub set_value : BucketMap K V → K → V → Option (BucketMap K V)
  set_value m k v = do
    b ← m.find k
    some (record m { find = update m.find k (some (record b { value = v })) })

  -- The relinking of the bucket behind `it`, or of `last_`.
  abbrev pub relink_next :
      LruCache K V → BucketMap K V → Option K → Option K → Option (LruCache K V)
  relink_next c m none previous = some (record c { buckets = m; last = previous })
  relink_next c m (some n) previous = do
    m' ← set_previous m (some n) previous
    some (record c { buckets = m' })

  -- The relinking of the bucket before `it`, or of `first_`, in Erase().
  abbrev pub relink_previous : LruCache K V → Option K → Option K → Option (LruCache K V)
  relink_previous c none next = some (record c { first = next })
  relink_previous c (some p) next = do
    m ← set_next c.buckets (some p) next
    some (record c { buckets = m })

  -- Promote() of a bucket that is not the first.
  unfoldable pub move_front : LruCache K V → K → Option (LruCache K V)
  move_front c it = do
    b ← c.buckets.find it
    unlinked ← set_next c.buckets b.previous b.next
    c' ← relink_next c unlinked b.next b.previous
    no_previous ← set_previous c'.buckets (some it) none
    linked ← set_next no_previous (some it) c'.first
    m ← set_previous linked c'.first (some it)
    some (record c' { buckets = m; first = some it })

  unfoldable pub promote : LruCache K V → K → Option (LruCache K V)
  promote c it = if is_at dec c.first it then some c else move_front c it

module _ {ℓ} {K V : Type ℓ} (dec : Discrete K) (cost : V → ℕ) where
  -- Erase(it, doEvictionCallback)
  unfoldable pub erase_at : LruCache K V → K → Bool → Option (LruCache K V)
  erase_at c it callback = do
    b ← c.buckets.find it
    behind ← relink_next dec c c.buckets b.next b.previous
    before ← relink_previous dec behind b.previous b.next
    some (record before {
      buckets = map_erase dec before.buckets it;
      size = (before.size + u64_mod - cost b.value) % u64_mod;
      evicted = called (callback && before.has_callback) (it, b.value) before.evicted;
    })

  -- Erase(key)
  unfoldable pub erase : LruCache K V → K → Option (LruCache K V × Bool)
  erase c key = elim (c.buckets.find key) [
    | none ↦ some (c, false)
    | some _ ↦ do c' ← erase_at c key false; some (c', true)
  ]

  -- PopLast(), at `last_`.
  abbrev pub pop_at : LruCache K V → Option K → Option (LruCache K V)
  pop_at c none = none
  pop_at c (some it) = do b ← c.buckets.find it; guarded (is_end b.next) (erase_at c it true)

  unfoldable pub pop_last : LruCache K V → Option (LruCache K V)
  pop_last c = pop_at c c.last

  -- `while (size_ > max_size_) PopLast();`, on fuel.
  unfoldable pub evict_loop : ℕ → LruCache K V → Option (LruCache K V)
  evict_loop zero c = none
  evict_loop (suc fuel) c = elim (ltb c.max_size c.size) [
    | true ↦ do c' ← pop_last c; evict_loop fuel c'
    | false ↦ some c
  ]

  -- Every round takes a bucket away.
  unfoldable pub evict : LruCache K V → Option (LruCache K V)
  evict c = evict_loop (suc c.buckets.count) c

  -- Resize()
  unfoldable pub resize : LruCache K V → ℕ → Option (LruCache K V)
  resize c max_size = evict (record c { max_size = max_size })

  -- The links of a new bucket: `single` says that it is the only one.
  abbrev pub link_new : LruCache K V → K → Bool → Option (LruCache K V)
  link_new c it true =
      guarded (is_end c.last && is_end c.first)
        (some (record c { last = some it; first = some it }))
  link_new c it false = do
    m ← set_next dec c.buckets (some it) c.first
    m' ← set_previous dec m c.first (some it)
    some (record c { buckets = m'; first = some it })

  -- AddInternal() of a bucket that is new.
  unfoldable pub add_new : LruCache K V → K → ℕ → Option (LruCache K V)
  add_new c it cost = do
    linked ← link_new c it (c.buckets.count == 1)
    evict (record linked { size = (linked.size + cost) % u64_mod })

  -- AddInternal() of a bucket whose cost was `old_cost`.
  unfoldable pub add_again : LruCache K V → K → ℕ → ℕ → Option (LruCache K V)
  add_again c it cost old_cost = do
    promoted ←
        promote dec (record c { size = (c.size + (cost + u64_mod - old_cost) % u64_mod) % u64_mod })
          it
    evict promoted

  -- The iterator, and whether a bucket was added.
  unfoldable pub insert : LruCache K V → K → V → Option (LruCache K V × (Option K × Bool))
  insert c key value =
      if ltb c.max_size (cost value) then some (c, (none, false)) else elim (c.buckets.find key) [
        | none ↦ do
          c' ←
              add_new
                (record c {
                  buckets =
                      map_insert dec c.buckets key
                        (record { next = none; previous = none; value = value });
                })
                key (cost value)
          some (c', (some key, true))
        | some _ ↦ do c' ← promote dec c key; some (c', (some key, false))
      ]

  unfoldable pub insert_or_assign : LruCache K V → K → V → Option (LruCache K V × (Option K × Bool))
  insert_or_assign c key value = elim (c.buckets.find key) [
    | some b ↦ do
      m ← set_value dec c.buckets key value
      c' ← add_again (record c { buckets = m }) key (cost value) (cost b.value)
      some (c', (some key, false))
    | none ↦ if ltb c.max_size (cost value) then some (c, (none, false)) else (do
      c' ←
          add_new
            (record c {
              buckets =
                  map_insert dec c.buckets key
                    (record { next = none; previous = none; value = value });
            })
            key (cost value)
      some (c', (some key, true)))
  ]

  -- Find(key): the cache, and the iterator.
  unfoldable pub find : LruCache K V → K → Option (LruCache K V × Option K)
  find c key = elim (c.buckets.find key) [
    | none ↦ some (c, none)
    | some _ ↦ do c' ← promote dec c key; some (c', some key)
  ]

  -- FindNoPromote(key)
  unfoldable pub find_no_promote : LruCache K V → K → Option K
  find_no_promote c key = elim (c.buckets.find key) [ none ↦ none | some _ ↦ some key ]

  -- Find(key, nullValue)
  unfoldable pub find_or : LruCache K V → K → V → Option (LruCache K V × V)
  find_or c key null_value = do
    (c', it) ← find c key
    elim it [ none ↦ some (c', null_value) | some k ↦ do b ← c'.buckets.find k; some (c', b.value) ]
