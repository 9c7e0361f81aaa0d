-- ===== src/Cache/Default/Storing.antt =====
-- DefaultCache: Put() in both its forms.
use here_olp_edge_sdk_cpp.Prelude.{
  ℕ, Bool, true, false, not, if◌then◌else◌, Option, none, some, ◌>>=◌, List, length,
}
use here_olp_edge_sdk_cpp.Prelude.Int.{ℤ, add_ℕ}
use here_olp_edge_sdk_cpp.Prelude.Decimal.{to_string}
use here_olp_edge_sdk_cpp.Prelude.Text.{Text}
use here_olp_edge_sdk_cpp.Cache.Memory.{Key, InMemoryCache, preset_model_size_cache_cost}
use here_olp_edge_sdk_cpp.Cache.Memory
use here_olp_edge_sdk_cpp.Cache.Disk.{Leveldb, DiskCache}
use here_olp_edge_sdk_cpp.Cache.Disk
use here_olp_edge_sdk_cpp.Cache.Default.{Stored, DefaultCache, create_expiry_key, expires}

module _ (l : Leveldb) where
  unfoldable pub store_expiry : Key → DiskCache l.Db → ℤ → ℕ → ℕ → DiskCache l.Db × Bool
  store_expiry key d expiry now environment_size =
      Disk.put l d (create_expiry_key key) (to_string (add_ℕ expiry now)) environment_size

  -- The part of Put() on disk. The environment's size is read twice.
  abbrev pub put_disk :
      Option (DiskCache l.Db) → Key → Text → ℤ → ℕ → ℕ → ℕ → Option (DiskCache l.Db) × Bool
  put_disk none key value expiry now size1 size2 = (none, true)
  put_disk (some d) key value expiry now size1 size2 =
      let stored = store_expiry key d expiry now size1 in
      let put_stored = Disk.put l stored.0 key value size2 in
      let put_only = Disk.put l d key value size2 in
      if expires expiry
      then (if not stored.1 then (some stored.0, false) else (some put_stored.0, put_stored.1))
      else (some put_only.0, put_only.1)

module _ {V : Type 0} (dec : Discrete Key) where
  abbrev pub put_memory :
      Option (InMemoryCache (Stored V))
      → Key
      → Stored V
      → ℤ
      → ℕ
      → ℕ
      → Option (Option (InMemoryCache (Stored V)) × Bool)
  put_memory none key item expiry size now = some (none, true)
  put_memory (some m) key item expiry size now = do
    (m', done) ← Memory.put dec preset_model_size_cache_cost m key item expiry size now
    some (some m', done)

module _ {V : Type 0} (dec : Discrete Key) (l : Leveldb) where
  -- The body that the two Put() have in common, with what is stored in memory and on disk.
  abbrev pub put_stored :
      DefaultCache V l.Db
      → Key
      → Stored V
      → Text
      → ℤ
      → ℕ
      → ℕ
      → ℕ
      → Option (DefaultCache V l.Db × Bool)
  put_stored c key item encoded expiry now size1 size2 = do
    (memory, done) ← put_memory dec c.memory_cache key item expiry (length encoded) now
    let disk = put_disk l c.disk_cache key encoded expiry now size1 size2
    some (
        if not done
        then (record c { memory_cache = memory }, false)
        else (record c { memory_cache = memory; disk_cache = disk.0 }, disk.1))

  -- Put(key, value, encoder, expiry)
  unfoldable pub put_object :
      DefaultCache V l.Db
      → Key
      → V
      → (V → Text)
      → ℤ
      → ℕ
      → ℕ
      → ℕ
      → Option (DefaultCache V l.Db × Bool)
  put_object c key value encoder expiry now size1 size2 =
      if not c.is_open
      then some (c, false)
      else put_stored c key (Stored.object value) (encoder value) expiry now size1 size2

  -- Put(key, value, expiry)
  unfoldable pub put_bytes :
      DefaultCache V l.Db → Key → List ℕ → ℤ → ℕ → ℕ → ℕ → Option (DefaultCache V l.Db × Bool)
  put_bytes c key value expiry now size1 size2 =
      if not c.is_open
      then some (c, false)
      else put_stored c key (Stored.bytes value) value expiry now size1 size2
