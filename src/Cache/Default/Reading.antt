-- ===== src/Cache/Default/Reading.antt =====
-- DefaultCache: Get() in both its forms.
use here_olp_edge_sdk_cpp.Prelude.{ℕ, not, if◌then◌else◌, Option, none, some, ◌>>=◌, List, length}
use here_olp_edge_sdk_cpp.Prelude.Int.{ℤ, pos, sub_ℕ}
use here_olp_edge_sdk_cpp.Prelude.Decimal.{stol}
use here_olp_edge_sdk_cpp.Prelude.Text.{Text}
use here_olp_edge_sdk_cpp.Cache.Memory.{Key, InMemoryCache, time_max, preset_model_size_cache_cost}
use here_olp_edge_sdk_cpp.Cache.Memory
use here_olp_edge_sdk_cpp.Cache.Disk.{Leveldb, DiskCache}
use here_olp_edge_sdk_cpp.Cache.Disk
use here_olp_edge_sdk_cpp.Cache.Default.{Stored, DefaultCache, create_expiry_key, is_past}
use here_olp_edge_sdk_cpp.Cache.Default.Storing.{put_memory}

module _ (l : Leveldb) where
  -- GetRemainingExpiryTime()
  abbrev pub remaining : Option Text → ℕ → Option ℤ
  remaining none now = some (pos time_max)
  remaining (some text) now = do time ← stol text; some (sub_ℕ time now)

  unfoldable pub get_remaining_expiry_time : Key → DiskCache l.Db → ℕ → Option ℤ
  get_remaining_expiry_time key d now = remaining (Disk.get l d (create_expiry_key key)) now

  unfoldable pub purge_disk_item : Key → DiskCache l.Db → DiskCache l.Db
  purge_disk_item key d = (Disk.remove l (Disk.remove l d key).0 (create_expiry_key key)).0

module _ {V : Type 0} (dec : Discrete Key) where
  abbrev pub get_memory :
      Option (InMemoryCache (Stored V))
      → Key
      → ℕ
      → Option (Option (InMemoryCache (Stored V)) × Option (Stored V))
  get_memory none key now = some (none, none)
  get_memory (some m) key now = do
    (m', value) ← Memory.get dec preset_model_size_cache_cost m key now
    some (some m', value)

module _ {V : Type 0} (dec : Discrete Key) (l : Leveldb) where
  -- A value that was found on disk goes to the memory cache with the time that is left.
  abbrev pub promote :
      DefaultCache V l.Db
      → Key
      → Option Text
      → (Text → Stored V)
      → ℤ
      → ℕ
      → Option (DefaultCache V l.Db × Option (Stored V))
  promote c key none decode expiry now = some (c, none)
  promote c key (some value) decode expiry now = do
    (memory, _) ← put_memory dec c.memory_cache key (decode value) expiry (length value) now
    some (record c { memory_cache = memory }, some (decode value))

  abbrev pub unless_past :
      DefaultCache V l.Db
      → Key
      → DiskCache l.Db
      → (Text → Stored V)
      → ℕ
      → ℤ
      → Option (DefaultCache V l.Db × Option (Stored V))
  unless_past c key d decode now expiry =
      if is_past expiry
      then some (record c { disk_cache = some (purge_disk_item l key d) }, none)
      else promote c key (Disk.get l d key) decode expiry now

  abbrev pub get_disk :
      DefaultCache V l.Db
      → Option (DiskCache l.Db)
      → Key
      → (Text → Stored V)
      → ℕ
      → Option (DefaultCache V l.Db × Option (Stored V))
  get_disk c none key decode now = some (c, none)
  get_disk c (some d) key decode now = do
    expiry ← get_remaining_expiry_time l key d now
    unless_past c key d decode now expiry

  abbrev pub or_disk :
      DefaultCache V l.Db
      → Option (Stored V)
      → Key
      → (Text → Stored V)
      → ℕ
      → Option (DefaultCache V l.Db × Option (Stored V))
  or_disk c (some value) key decode now = some (c, some value)
  or_disk c none key decode now = get_disk c c.disk_cache key decode now

  -- The body that the two Get() have in common.
  abbrev pub get_stored :
      DefaultCache V l.Db
      → Key
      → (Text → Stored V)
      → ℕ
      → Option (DefaultCache V l.Db × Option (Stored V))
  get_stored c key decode now = do
    (memory, value) ← get_memory dec c.memory_cache key now
    or_disk (record c { memory_cache = memory }) value key decode now

  -- Get(key, decoder)
  unfoldable pub get_object :
      DefaultCache V l.Db → Key → (Text → V) → ℕ → Option (DefaultCache V l.Db × Option (Stored V))
  get_object c key decoder now =
      if not c.is_open
      then some (c, none)
      else get_stored c key (λ text. Stored.object (decoder text)) now

  -- `boost::any_cast`, which throws for an object of another type.
  abbrev pub cast_bytes : Option (Stored V) → Option (Option (List ℕ))
  cast_bytes none = some none
  cast_bytes (some (Stored.bytes value)) = some (some value)
  cast_bytes (some (Stored.object value)) = none

  -- Get(key)
  unfoldable pub get_bytes :
      DefaultCache V l.Db → Key → ℕ → Option (DefaultCache V l.Db × Option (List ℕ))
  get_bytes c key now =
      let read = get_stored c key (λ text. Stored.bytes text) now >>= λ r.
      cast_bytes r.1 >>= λ value. some (r.0, value) in
      if not c.is_open then some (c, none) else read
