-- ===== src/Cache/Memory.antt =====
-- The class InMemoryCache of olp-cpp-sdk-core/src/cache/InMemoryCache.h and InMemoryCache.cpp: an
-- LruCache of items that may expire. A string is the list of its character codes, a time is a
-- number of seconds, and `now` is what the time provider returns. Each operation holds the mutex
-- from its beginning to its end; `none` where LruCache has it.
pub mod Expiry
pub mod Tests
use here_olp_edge_sdk_cpp.Prelude.{
  ℕ, zero, suc, ◌+◌, ◌-◌, ◌^◌, Bool, true, false, not, ◌&&◌, ltb, ◌==◌, if◌then◌else◌, Option, none,
  some, ◌>>=◌, List, [], ◌∷◌, ◌++◌, length, take,
}
use here_olp_edge_sdk_cpp.Prelude.Int.{ℤ, pos, negsuc}
use here_olp_edge_sdk_cpp.Cache.Lru.{LruCache, insert_or_assign, find, erase, advance}
use here_olp_edge_sdk_cpp.Cache.Lru
use mathlib.Core.Logic.{ite}

abbrev pub Key : Type 0
Key = List ℕ

pub record ItemTuple (T : Type 0) : Type 0 where
  pub key : Key
  pub expiry : ℕ
  pub item : T
  pub item_size : ℕ

-- `std::numeric_limits<time_t>::max()`
abbrev pub time_max : ℕ
time_max = 2 ^ 63 - 1

unfoldable pub has_expiry : ℕ → Bool
has_expiry expiry_seconds = not (expiry_seconds == time_max)

-- PresetModelSizeCacheCost() and EqualityCacheCost()
unfoldable pub preset_model_size_cache_cost : {T : Type 0} → ItemTuple T → ℕ
preset_model_size_cache_cost tuple = if tuple.item_size == 0 then 1 else tuple.item_size

unfoldable pub equality_cache_cost : {T : Type 0} → ItemTuple T → ℕ
equality_cache_cost tuple = 1

-- `item_expiries` is the `std::map`, in the order of the times.
pub record InMemoryCache (T : Type 0) : Type 0 where
  pub item_tuples : LruCache Key (ItemTuple T)
  pub item_expiries : List (ℕ × List (ItemTuple T))

module _ {T : Type 0} where
  abbrev pub expiring_at : ℕ → List (ℕ × List (ItemTuple T)) → List (ItemTuple T)
  expiring_at time [] = []
  expiring_at time (e ∷ es) = if e.0 == time then e.1 else expiring_at time es

  abbrev pub forget : ℕ → List (ℕ × List (ItemTuple T)) → List (ℕ × List (ItemTuple T))
  forget time [] = []
  forget time (e ∷ es) = let rest = forget time es in if e.0 == time then es else e ∷ rest

  -- `m_itemExpiries[time].push_back(tuple)`
  abbrev pub register :
      ℕ → ItemTuple T → List (ℕ × List (ItemTuple T)) → List (ℕ × List (ItemTuple T))
  register time tuple [] = (time, tuple ∷ []) ∷ []
  register time tuple (e ∷ es) =
      let rest = register time tuple es in
      if e.0 == time
      then (time, e.1 ++ tuple ∷ []) ∷ es
      else (if ltb time e.0 then (time, tuple ∷ []) ∷ e ∷ es else e ∷ rest)

  abbrev pub is_nil : List (ItemTuple T) → Bool
  is_nil [] = true
  is_nil (t ∷ ts) = false

  -- OnEviction(): it takes the item out of a copy of the vector, so only an empty one goes.
  unfoldable pub on_eviction :
      List (ℕ × List (ItemTuple T)) → ItemTuple T → List (ℕ × List (ItemTuple T))
  on_eviction item_expiries value =
      if has_expiry value.expiry && is_nil (expiring_at value.expiry item_expiries)
      then forget value.expiry item_expiries
      else item_expiries

  -- The calls of OnEviction() by an operation of the LruCache, the latest being the first of the list.
  unfoldable pub on_evictions :
      List (ℕ × List (ItemTuple T)) → List (Key × ItemTuple T) → List (ℕ × List (ItemTuple T))
  on_evictions item_expiries [] = item_expiries
  on_evictions item_expiries (e ∷ es) = on_eviction (on_evictions item_expiries es) e.1

  -- The first loop of PurgeExpired()
  abbrev pub expired_keys : ℕ → List (ℕ × List (ItemTuple T)) → List ℕ
  expired_keys now [] = []
  expired_keys now (e ∷ es) =
      let rest = expired_keys now es in if ltb e.0 now then e.0 ∷ rest else []

  unfoldable pub size : InMemoryCache T → ℕ
  size c = c.item_tuples.size

  unfoldable pub clear : InMemoryCache T → InMemoryCache T
  clear c = record { item_tuples = Lru.clear c.item_tuples; item_expiries = [] }

module _ {T : Type 0} (dec : Discrete Key) (cost : ItemTuple T → ℕ) where
  unfoldable pub erase_each :
      LruCache Key (ItemTuple T) → List (ItemTuple T) → Option (LruCache Key (ItemTuple T))
  erase_each items [] = some items
  erase_each items (t ∷ ts) = do (items', _) ← erase dec cost items t.key; erase_each items' ts

  -- PurgeExpired(expireTime)
  unfoldable pub purge_at : InMemoryCache T → ℕ → Option (InMemoryCache T)
  purge_at c expire_time = do
    items ← erase_each c.item_tuples (expiring_at expire_time c.item_expiries)
    some (record { item_tuples = items; item_expiries = forget expire_time c.item_expiries })

  unfoldable pub purge_each : InMemoryCache T → List ℕ → Option (InMemoryCache T)
  purge_each c [] = some c
  purge_each c (time ∷ times) = do c' ← purge_at c time; purge_each c' times

  -- PurgeExpired()
  unfoldable pub purge_expired : InMemoryCache T → ℕ → Option (InMemoryCache T)
  purge_expired c now = purge_each c (expired_keys now c.item_expiries)

  -- The insertion of Put(), and the registration of the new expiry.
  abbrev pub put_tuple : InMemoryCache T → Bool → ItemTuple T → Option (InMemoryCache T × Bool)
  put_tuple c expires tuple = do
    (items, ret) ← insert_or_assign dec cost (record c.item_tuples { evicted = [] }) tuple.key tuple
    let expiries = on_evictions c.item_expiries items.evicted in
        some (
          record {
            item_tuples = items;
            item_expiries =
                if ret.1 && expires then register tuple.expiry tuple expiries else expiries;
          },
          ret.1,
        )

  -- Put() after PurgeExpired()
  abbrev pub put_purged : InMemoryCache T → Key → T → ℤ → ℕ → ℕ → Option (InMemoryCache T × Bool)
  put_purged c key item (negsuc n) size now = some (c, false)
  put_purged c key item (pos zero) size now = some (c, false)
  put_purged c key item (pos (suc n)) size now =
      let expires = has_expiry (suc n) in
      put_tuple c expires (record {
        key = key;
        expiry = if expires then suc n + now else suc n;
        item = item;
        item_size = size;
      })

  unfoldable pub put : InMemoryCache T → Key → T → ℤ → ℕ → ℕ → Option (InMemoryCache T × Bool)
  put c key item expire_seconds size now = do
    purged ← purge_expired c now
    put_purged purged key item expire_seconds size now

  -- Get() of an item that was found
  abbrev pub get_found : InMemoryCache T → ItemTuple T → ℕ → Option (InMemoryCache T × Option T)
  get_found c tuple now =
      if ltb tuple.expiry now
      then (do c' ← purge_at c tuple.expiry; some (c', none))
      else some (c, some tuple.item)

  abbrev pub get_at : InMemoryCache T → Option Key → ℕ → Option (InMemoryCache T × Option T)
  get_at c none now = some (c, none)
  get_at c (some it) now = do b ← c.item_tuples.buckets.find it; get_found c b.value now

  unfoldable pub get : InMemoryCache T → Key → ℕ → Option (InMemoryCache T × Option T)
  get c key now = do
    (items, it) ← find dec cost c.item_tuples key
    get_at (record c { item_tuples = items }) it now

  unfoldable pub remove : InMemoryCache T → Key → Option (InMemoryCache T)
  remove c key = do
    (items, _) ← erase dec cost c.item_tuples key
    some (record c { item_tuples = items })

  abbrev pub has_prefix : Key → Key → Bool
  has_prefix key_prefix key = ite (dec (take (length key_prefix) key) key_prefix) true false

  -- The loop of RemoveKeysWithPrefix(), on fuel.
  unfoldable pub remove_from :
      ℕ → Key → LruCache Key (ItemTuple T) → Option Key → Option (LruCache Key (ItemTuple T))
  remove_from zero key_prefix items it = none
  remove_from (suc fuel) key_prefix items none = some items
  remove_from (suc fuel) key_prefix items (some it) = do
    next ← advance items (some it)
    elim (has_prefix key_prefix it) [
      | true ↦ do (items', _) ← erase dec cost items it; remove_from fuel key_prefix items' next
      | false ↦ remove_from fuel key_prefix items next
    ]

  unfoldable pub remove_keys_with_prefix : InMemoryCache T → Key → Option (InMemoryCache T)
  remove_keys_with_prefix c key_prefix = do
    items ←
        remove_from (suc c.item_tuples.buckets.count) key_prefix c.item_tuples c.item_tuples.first
    some (record c { item_tuples = items })
