-- ===== src/Cache/Default.antt =====
-- The class DefaultCache of olp-cpp-sdk-core/include/olp/core/cache/DefaultCache.h and
-- src/cache/DefaultCache.cpp: an InMemoryCache before a DiskCache, under one mutex. `now` is the time
-- of an operation, whichever of its calls reads the clock; `none` is an exception, or where the
-- operation of a part has it. Of the settings, those that go to LevelDB unchanged are left out.
pub mod Storing
pub mod Reading
pub mod Removing
pub mod Closed
pub mod OnDisk
pub mod Expiry
pub mod Layers
pub mod Tests
use here_olp_edge_sdk_cpp.Prelude.{
  ℕ, zero, suc, ◌+◌, ◌-◌, ◌^◌, Bool, true, false, not, ◌&&◌, ltb, ◌==◌, if◌then◌else◌, Option, none,
  some, ◌>>=◌, List, [], ◌∷◌, ◌++◌,
}
use here_olp_edge_sdk_cpp.Prelude.Int.{ℤ, pos, negsuc}
use here_olp_edge_sdk_cpp.Prelude.Text.{Text, codes}
use here_olp_edge_sdk_cpp.Cache.Lru
use here_olp_edge_sdk_cpp.Cache.Memory.{Key, InMemoryCache, time_max}
use here_olp_edge_sdk_cpp.Cache.Memory
use here_olp_edge_sdk_cpp.Cache.Disk.{DiskCache, OpenResult, Opening, new_disk_cache, open_disk}
use here_olp_edge_sdk_cpp.Cache.Disk

-- What a `boost::any` of the cache holds: a shared vector of bytes, or another object.
pub data Stored (V : Type 0) : Type 0 where
  bytes : List ℕ → Stored V
  object : V → Stored V

pub record CacheSettings : Type 0 where
  pub disk_path : Option Text
  pub max_disk_storage : ℕ
  pub max_memory_cache_size : ℕ

pub record DefaultCache (V Db : Type 0) : Type 0 where
  pub settings : CacheSettings
  pub is_open : Bool
  pub memory_cache : Option (InMemoryCache (Stored V))
  pub disk_cache : Option (DiskCache Db)

pub data StorageOpenResult : Type 0 where
  success : StorageOpenResult
  open_disk_path_failure : StorageOpenResult

unfoldable pub create_expiry_key : Key → Key
create_expiry_key key = key ++ codes "::expiry"

-- `expiry < std::numeric_limits<time_t>::max()`
abbrev pub expires : ℤ → Bool
expires (pos n) = ltb n time_max
expires (negsuc n) = true

abbrev pub is_past : ℤ → Bool
is_past (pos zero) = true
is_past (pos (suc n)) = false
is_past (negsuc n) = true

abbrev pub is_fail : OpenResult → Bool
is_fail OpenResult.fail = true
is_fail OpenResult.repaired = false
is_fail OpenResult.success = false

abbrev pub is_success : StorageOpenResult → Bool
is_success StorageOpenResult.success = true
is_success StorageOpenResult.open_disk_path_failure = false

module _ {V : Type 0} where
  abbrev pub new_memory_cache : ℕ → Option (InMemoryCache (Stored V))
  new_memory_cache zero = none
  new_memory_cache (suc n) =
      some (record { item_tuples = Lru.empty (suc n) true; item_expiries = [] })

  abbrev pub clear_memory : Option (InMemoryCache (Stored V)) → Option (InMemoryCache (Stored V))
  clear_memory none = none
  clear_memory (some m) = some (Memory.clear m)

module _ {V Db : Type 0} where
  unfoldable pub new_default_cache : CacheSettings → DefaultCache V Db
  new_default_cache settings = record {
    settings = settings;
    is_open = false;
    memory_cache = none;
    disk_cache = none;
  }

  abbrev pub setup_disk :
      DefaultCache V Db → Option Text → Opening Db → DefaultCache V Db × StorageOpenResult
  setup_disk c none opening = (c, StorageOpenResult.success)
  setup_disk c (some path) opening =
      let opened = open_disk new_disk_cache path c.settings.max_disk_storage opening in
      if is_fail opened.1.0
      then (
        record c { settings = record c.settings { disk_path = none } },
        StorageOpenResult.open_disk_path_failure,
      )
      else (record c { disk_cache = some opened.0 }, StorageOpenResult.success)

  -- SetupStorage()
  unfoldable pub setup_storage :
      DefaultCache V Db → Opening Db → DefaultCache V Db × StorageOpenResult
  setup_storage c opening =
      setup_disk
        (record c {
          memory_cache = new_memory_cache c.settings.max_memory_cache_size;
          disk_cache = none;
        })
        c.settings.disk_path opening

  unfoldable pub open_cache : DefaultCache V Db → Opening Db → DefaultCache V Db × StorageOpenResult
  open_cache c opening = setup_storage (record c { is_open = true }) opening

  unfoldable pub close : DefaultCache V Db → DefaultCache V Db
  close c =
      if not c.is_open
      then c
      else record c { memory_cache = none; disk_cache = none; is_open = false }

  abbrev pub set_up_again : DefaultCache V Db → Opening Db → DefaultCache V Db × Bool
  set_up_again c opening = let (c', result) = setup_storage c opening in (c', is_success result)

  -- Clear() from the disk cache on.
  abbrev pub clear_disk :
      DefaultCache V Db → Option (DiskCache Db) → Bool → Opening Db → DefaultCache V Db × Bool
  clear_disk c none removed opening = set_up_again c opening
  clear_disk c (some d) removed opening =
      let cleared = Disk.clear d removed in
      let c' = record c { disk_cache = some cleared.0 } in
      if not cleared.1 then (c', false) else set_up_again c' opening

  unfoldable pub clear : DefaultCache V Db → Bool → Opening Db → DefaultCache V Db × Bool
  clear c removed opening =
      if not c.is_open
      then (c, false)
      else clear_disk (record c { memory_cache = clear_memory c.memory_cache }) c.disk_cache removed
          opening
