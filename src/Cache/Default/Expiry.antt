-- ===== src/Cache/Default/Expiry.antt =====
-- DefaultCache on disk alone: what Get() gives after Put().
use here_olp_edge_sdk_cpp.Prelude.{
  ℕ, ◌+◌, ◌^◌, ◌<◌, true, none, some, List, leb, lt→ltb, if◌then◌else◌, ◌≡◌, ◌∙◌,
}
use here_olp_edge_sdk_cpp.Prelude.Int.{pos}
use here_olp_edge_sdk_cpp.Cache.Memory.{Key, time_max}
use here_olp_edge_sdk_cpp.Cache.Disk.{Leveldb, LeveldbLaws, DiskCache}
use here_olp_edge_sdk_cpp.Cache.Disk
use here_olp_edge_sdk_cpp.Cache.Default.{DefaultCache, create_expiry_key}
use here_olp_edge_sdk_cpp.Cache.Default.Storing.{put_bytes}
use here_olp_edge_sdk_cpp.Cache.Default.Reading.{get_remaining_expiry_time, get_bytes}
use here_olp_edge_sdk_cpp.Cache.Default.OnDisk.{
  OnDisk, value_of, put_disk_expiring, put_disk_endless, put_bytes_done, get_bytes-entry,
  get_bytes-OnDisk,
}

module _ {V : Type 0} (dec : Discrete Key) (l : Leveldb) (laws : LeveldbLaws l) where
  -- On a cache that is open and has no memory cache, with a LevelDB that keeps its laws: after a
  -- successful Put() for a number of seconds that is not the largest time and ends before 2 ^ 63, Get()
  -- gives the bytes until that many seconds have passed, and nothing from then on.
  pub get_bytes-put_bytes :
      (c c' : DefaultCache V l.Db) (d : DiskCache l.Db) (key : Key) (value : List ℕ)
      (seconds now later size1 size2 : ℕ)
      → OnDisk c d
      → seconds < time_max
      → seconds + now < 2 ^ 63
      → put_bytes dec l c key value (pos seconds) now size1 size2 ≡ some (c', true)
      → value_of (get_bytes dec l c' key later)
        ≡ some (if leb (seconds + now) later then none else some value)
  get_bytes-put_bytes c c' d key value seconds now later size1 size2 h finite long done =
      let (kept, then_on_disk) =
        put_bytes_done dec l laws c c' d key value (pos seconds) now size1 size2 h done in
      let w =
        put_disk_expiring l laws d key value (pos seconds) now size1 size2
          (lt→ltb seconds time_max finite) kept in
      get_bytes-entry dec l laws c' w.disk key value (seconds + now) later
        (then_on_disk w.disk w.there) long w.item w.expiry

  -- On a cache that is open and has no memory cache, with a LevelDB that keeps its laws: a Put() for a
  -- number of seconds that is not the largest time and ends before 2 ^ 63 is followed by one of the
  -- same key with no expiry, both successful. Get() gives the second value only until the seconds of
  -- the first have passed, and nothing from then on: the expiry entry of the first remains.
  pub get_bytes-put_bytes_again :
      (c c1 c2 : DefaultCache V l.Db) (d : DiskCache l.Db) (key : Key) (value value2 : List ℕ)
      (seconds now now2 later size1 size2 : ℕ)
      → OnDisk c d
      → seconds < time_max
      → seconds + now < 2 ^ 63
      → put_bytes dec l c key value (pos seconds) now size1 size2 ≡ some (c1, true)
      → put_bytes dec l c1 key value2 (pos time_max) now2 size1 size2 ≡ some (c2, true)
      → value_of (get_bytes dec l c2 key later)
        ≡ some (if leb (seconds + now) later then none else some value2)
  get_bytes-put_bytes_again c c1 c2 d key value value2 seconds now now2 later size1 size2 h finite
        long done done2 =
      let (kept, then_on_disk) =
        put_bytes_done dec l laws c c1 d key value (pos seconds) now size1 size2 h done in
      let w =
        put_disk_expiring l laws d key value (pos seconds) now size1 size2
          (lt→ltb seconds time_max finite) kept in
      let (kept2, then_on_disk2) =
        put_bytes_done dec l laws c1 c2 w.disk key value2 (pos time_max) now2 size1 size2
          (then_on_disk w.disk w.there) done2 in
      let w2 = put_disk_endless l laws w.disk key value2 now2 size1 size2 kept2 in
      get_bytes-entry dec l laws c2 w2.disk key value2 (seconds + now) later
        (then_on_disk2 w2.disk w2.there) long w2.item (w2.expiry ∙ w.expiry)

  -- On a cache that is open and has no memory cache: after a successful Put() with no expiry of a key
  -- without an expiry entry, Get() gives the bytes at any time.
  get_bytes-put_bytes_endless :
      (c c' : DefaultCache V l.Db) (d : DiskCache l.Db) (key : Key) (value : List ℕ)
      (now later size1 size2 : ℕ)
      → OnDisk c d
      → Disk.get l d (create_expiry_key key) ≡ none
      → put_bytes dec l c key value (pos time_max) now size1 size2 ≡ some (c', true)
      → value_of (get_bytes dec l c' key later) ≡ some (some value)
  unfolding get_remaining_expiry_time
  get_bytes-put_bytes_endless c c' d key value now later size1 size2 h no_entry done =
      let (kept, then_on_disk) =
        put_bytes_done dec l laws c c' d key value (pos time_max) now size1 size2 h done in
      let w = put_disk_endless l laws d key value now size1 size2 kept in
      get_bytes-OnDisk dec l c' w.disk key later (then_on_disk w.disk w.there)
      ∙ rw (get_remaining_expiry_time, w.expiry ∙ no_entry, w.item)
