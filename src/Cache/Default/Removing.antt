-- ===== src/Cache/Default/Removing.antt =====
-- DefaultCache: Remove() and RemoveKeysWithPrefix().
use here_olp_edge_sdk_cpp.Prelude.{Bool, true, false, not, if◌then◌else◌, Option, none, some, ◌>>=◌}
use here_olp_edge_sdk_cpp.Cache.Memory.{Key, InMemoryCache, preset_model_size_cache_cost}
use here_olp_edge_sdk_cpp.Cache.Memory
use here_olp_edge_sdk_cpp.Cache.Disk.{Leveldb, DiskCache}
use here_olp_edge_sdk_cpp.Cache.Disk
use here_olp_edge_sdk_cpp.Cache.Default.{Stored, DefaultCache}

module _ (l : Leveldb) where
  abbrev pub remove_disk : Option (DiskCache l.Db) → Key → Option (DiskCache l.Db) × Bool
  remove_disk none key = (none, true)
  remove_disk (some d) key = (some (Disk.remove l d key).0, (Disk.remove l d key).1)

  abbrev pub remove_prefix_disk : Option (DiskCache l.Db) → Key → Option (DiskCache l.Db) × Bool
  remove_prefix_disk none key = (none, true)
  remove_prefix_disk (some d) key =
      (some (Disk.remove_keys_with_prefix l d key).0, (Disk.remove_keys_with_prefix l d key).1)

module _ {V : Type 0} (dec : Discrete Key) where
  abbrev pub remove_memory :
      Option (InMemoryCache (Stored V)) → Key → Option (Option (InMemoryCache (Stored V)))
  remove_memory none key = some none
  remove_memory (some m) key = do
    m' ← Memory.remove dec preset_model_size_cache_cost m key
    some (some m')

  abbrev pub remove_prefix_memory :
      Option (InMemoryCache (Stored V)) → Key → Option (Option (InMemoryCache (Stored V)))
  remove_prefix_memory none key = some none
  remove_prefix_memory (some m) key = do
    m' ← Memory.remove_keys_with_prefix dec preset_model_size_cache_cost m key
    some (some m')

module _ {V : Type 0} (dec : Discrete Key) (l : Leveldb) where
  unfoldable pub remove : DefaultCache V l.Db → Key → Option (DefaultCache V l.Db × Bool)
  remove c key =
      let removed = remove_memory dec c.memory_cache key >>= λ memory. some (
        record c { memory_cache = memory; disk_cache = (remove_disk l c.disk_cache key).0 },
        (remove_disk l c.disk_cache key).1,
      ) in
      if not c.is_open then some (c, false) else removed

  unfoldable pub remove_keys_with_prefix :
      DefaultCache V l.Db → Key → Option (DefaultCache V l.Db × Bool)
  remove_keys_with_prefix c key =
      let removed = remove_prefix_memory dec c.memory_cache key >>= λ memory. some (
        record c { memory_cache = memory; disk_cache = (remove_prefix_disk l c.disk_cache key).0 },
        (remove_prefix_disk l c.disk_cache key).1,
      ) in
      if not c.is_open then some (c, false) else removed
