-- ===== src/Cache/Default/Layers.antt =====
-- DefaultCache: the memory cache stands before the disk cache.
use here_olp_edge_sdk_cpp.Prelude.{ℕ, true, Option, none, some, ◌>>=◌, some-inj, List, ◌≡◌, ap, ◌∙◌}
use here_olp_edge_sdk_cpp.Cache.Lru.Ideal.{Ideal, IsKept, lookup}
use here_olp_edge_sdk_cpp.Cache.Lru.Refine.{laid}
use here_olp_edge_sdk_cpp.Cache.Memory.{Key, ItemTuple, InMemoryCache, preset_model_size_cache_cost}
use here_olp_edge_sdk_cpp.Cache.Memory
use here_olp_edge_sdk_cpp.Cache.Memory.Expiry.{fresh, get-fresh}
use here_olp_edge_sdk_cpp.Cache.Disk.{Leveldb}
use here_olp_edge_sdk_cpp.Cache.Disk
use here_olp_edge_sdk_cpp.Cache.Default.{DefaultCache, Stored}
use here_olp_edge_sdk_cpp.Cache.Default.Reading.{get_bytes}

-- The value and the disk cache after an operation.
abbrev pub value_and_disk :
    {V Db : Type 0}
    → Option (DefaultCache V Db × Option (List ℕ))
    → Option (Option (Disk.DiskCache Db) × Option (List ℕ))
value_and_disk m = m >>= λ r. some (r.0.disk_cache, r.1)

got :
    {A B : Type 0} (o : Option (A × B)) (b : B)
    → (o >>= λ r. some r.1) ≡ some b
    → (a : A) × (o ≡ some (a, b))
got none b h = cc
got (some (a, x)) b h = (a, ap (λ y. some (a, y)) (some-inj h))

module _ {V : Type 0} (dec : Discrete Key) (l : Leveldb) where
  -- On an open cache whose memory cache is laid out from kept entries: an item of bytes in memory that
  -- has not expired is what Get() gives, whatever the disk cache holds, and the disk cache stays as
  -- it is.
  pub get_bytes-fresh :
      (c : DefaultCache V l.Db) (s : Ideal Key (ItemTuple (Stored V)))
      (m : List (ℕ × List (ItemTuple (Stored V)))) (key : Key) (now : ℕ) (value : List ℕ)
      → c.is_open ≡ true
      → c.memory_cache
        ≡ some (record { item_tuples = laid dec preset_model_size_cache_cost s; item_expiries = m })
      → IsKept preset_model_size_cache_cost s
      → fresh dec preset_model_size_cache_cost now (lookup dec key s.entries)
        ≡ some (Stored.bytes value)
      → value_and_disk (get_bytes dec l c key now) ≡ some (c.disk_cache, some value)
  unfolding get_bytes
  get_bytes-fresh c s m key now value shown memory kept found =
      let cached : InMemoryCache (Stored V) = record {
        item_tuples = laid dec preset_model_size_cache_cost s;
        item_expiries = m;
      } in
      let (m', e) =
        got (Memory.get dec preset_model_size_cache_cost cached key now) (some (Stored.bytes value))
          (get-fresh dec preset_model_size_cache_cost s m key now kept ∙ ap some found) in
      rw (shown, memory, e)
