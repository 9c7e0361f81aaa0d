-- ===== src/Cache/Default/Tests.antt =====
-- DefaultCache over a database that is an association list.
use here_olp_edge_sdk_cpp.Prelude.{
  ℕ, ◌+◌, true, false, none, some, [], ◌∷◌, if◌then◌else◌, leb, ◌≡◌, refl, arith,
}
use here_olp_edge_sdk_cpp.Prelude.Int.{pos}
use here_olp_edge_sdk_cpp.Prelude.Text.{codes}
use here_olp_edge_sdk_cpp.Cache.Lru.Ideal.{Ideal, IsKept}
use here_olp_edge_sdk_cpp.Cache.Lru.Refine.{laid}
use here_olp_edge_sdk_cpp.Cache.Memory.{Key, ItemTuple, preset_model_size_cache_cost, time_max}
use here_olp_edge_sdk_cpp.Cache.Memory.Tests.{key_discrete}
use here_olp_edge_sdk_cpp.Prelude.Decimal.{to_string}
use native.Mathlib.Decide.{ℕ_discrete}
use here_olp_edge_sdk_cpp.Cache.Disk.{DiskCache, Opening, open_disk, Status, put}
use here_olp_edge_sdk_cpp.Cache.Disk.Tests.{Items, assoc, assoc_laws}
use here_olp_edge_sdk_cpp.Cache.Default.{
  DefaultCache, Stored, StorageOpenResult, close, clear, new_default_cache, open_cache,
  setup_storage, create_expiry_key,
}
use here_olp_edge_sdk_cpp.Cache.Default.Storing.{put_object, put_bytes, store_expiry}
use here_olp_edge_sdk_cpp.Cache.Default.Reading.{get_object, get_bytes}
use here_olp_edge_sdk_cpp.Cache.Default.Removing.{remove, remove_keys_with_prefix}
use here_olp_edge_sdk_cpp.Cache.Default.Closed.{close-refuses}
use here_olp_edge_sdk_cpp.Cache.Default.OnDisk.{OnDisk, value_of}
use here_olp_edge_sdk_cpp.Cache.Default.Expiry.{get_bytes-put_bytes, get_bytes-put_bytes_again}
use here_olp_edge_sdk_cpp.Cache.Default.Layers.{value_and_disk, get_bytes-fresh}

abbrev Cache : Type 0
Cache = DefaultCache ℕ Items

abbrev key : Key
key = codes "k"

abbrev disk_of : Items → DiskCache Items
disk_of db = record {
  disk_cache_path = codes "/d";
  database = some db;
  limited = false;
  max_size = 0;
}

abbrev cache_of : Items → Cache
cache_of db = record {
  settings = record {
    disk_path = some (codes "/d");
    max_disk_storage = 0;
    max_memory_cache_size = 0;
  };
  is_open = true;
  memory_cache = none;
  disk_cache = some (disk_of db);
}

-- The database after a Put() of seven for ten seconds at the time 100.
abbrev first_db : Items
first_db = (key, 7 ∷ []) ∷ (codes "k::expiry", codes "110") ∷ []

first_put :
    put_bytes key_discrete assoc (cache_of []) key (7 ∷ []) (pos 10) 100 0 0
    ≡ some (cache_of first_db, true)
unfolding put_bytes store_expiry create_expiry_key to_string put
first_put = refl

abbrev second_db : Items
second_db = (key, 8 ∷ []) ∷ first_db

second_put :
    put_bytes key_discrete assoc (cache_of first_db) key (8 ∷ []) (pos time_max) 101 0 0
    ≡ some (cache_of second_db, true)
unfolding put_bytes put
second_put = refl

endless_put :
    put_bytes key_discrete assoc (cache_of []) key (8 ∷ []) (pos time_max) 101 0 0
    ≡ some (cache_of ((key, 8 ∷ []) ∷ []), true)
unfolding put_bytes put
endless_put = refl

abbrev empty_OnDisk : OnDisk (cache_of []) (disk_of [])
empty_OnDisk = record { open_now = refl; no_memory = refl; on_disk = refl }

get_bytes-put_bytes_example :
    value_of (get_bytes key_discrete assoc (cache_of first_db) key 105)
    ≡ some (if leb (10 + 100) 105 then none else some (7 ∷ []))
get_bytes-put_bytes_example =
    get_bytes-put_bytes key_discrete assoc assoc_laws (cache_of []) (cache_of first_db) (disk_of [])
      key (7 ∷ []) 10 100 105 0 0 empty_OnDisk (omega arith) (omega arith) first_put

get_bytes-put_bytes_again_example :
    value_of (get_bytes key_discrete assoc (cache_of second_db) key 110)
    ≡ some (if leb (10 + 100) 110 then none else some (8 ∷ []))
get_bytes-put_bytes_again_example =
    get_bytes-put_bytes_again key_discrete assoc assoc_laws (cache_of []) (cache_of first_db)
      (cache_of second_db) (disk_of []) key (7 ∷ []) (8 ∷ []) 10 100 101 110 0 0 empty_OnDisk
      (omega arith) (omega arith) first_put second_put

abbrev opening : Opening Items
opening = record {
  exists = true;
  created = false;
  first = Status.ok;
  first_db = [];
  repair = false;
  second = Status.ok;
  second_db = [];
}

close-refuses_example :
    (put_object key_discrete assoc (close (cache_of [])) key 7 (λ n. n ∷ []) (pos 10) 100 0 0
      ≡ some (close (cache_of []), false))
    × (put_bytes key_discrete assoc (close (cache_of [])) key (7 ∷ []) (pos 10) 100 0 0
        ≡ some (close (cache_of []), false))
    × (get_object key_discrete assoc (close (cache_of [])) key (λ text. 0) 100
        ≡ some (close (cache_of []), none))
    × (get_bytes key_discrete assoc (close (cache_of [])) key 100
        ≡ some (close (cache_of []), none))
    × (remove key_discrete assoc (close (cache_of [])) key ≡ some (close (cache_of []), false))
    × (remove_keys_with_prefix key_discrete assoc (close (cache_of [])) key
        ≡ some (close (cache_of []), false))
    × (clear (close (cache_of [])) true opening ≡ (close (cache_of []), false))
close-refuses_example =
    close-refuses key_discrete assoc (cache_of []) key 7 (λ n. n ∷ []) (λ text. 0) (7 ∷ []) (pos 10)
      100 0 0 true opening

-- A new cache that is opened with a good database.
opened :
    open_cache {V = ℕ}
      (new_default_cache
        (record { disk_path = some (codes "/d"); max_disk_storage = 0; max_memory_cache_size = 0 }))
      opening
    ≡ (
      record {
        settings = record {
          disk_path = some (codes "/d");
          max_disk_storage = 0;
          max_memory_cache_size = 0;
        };
        is_open = true;
        memory_cache = none;
        disk_cache = some (record {
          disk_cache_path = codes "/d";
          database = some [];
          limited = true;
          max_size = 0;
        });
      },
      StorageOpenResult.success,
    )
unfolding open_cache new_default_cache setup_storage open_disk
opened = refl

abbrev kept_tuple : ItemTuple (Stored ℕ)
kept_tuple = record { key = key; expiry = 200; item = Stored.bytes (5 ∷ []); item_size = 1 }

abbrev kept : Ideal Key (ItemTuple (Stored ℕ))
kept = record { entries = (key, kept_tuple) ∷ []; max_size = 4; has_callback = true; evicted = [] }

kept-IsKept : IsKept preset_model_size_cache_cost kept
unfolding preset_model_size_cache_cost
kept-IsKept = record { distinct = (tt, tt); within = omega arith; machine = omega arith }

abbrev both : Cache
both = record (cache_of []) {
  memory_cache = some (record {
    item_tuples = laid key_discrete preset_model_size_cache_cost kept;
    item_expiries = (200, kept_tuple ∷ []) ∷ [];
  });
}

get_bytes-fresh_example :
    value_and_disk (get_bytes key_discrete assoc both key 100)
    ≡ some (some (disk_of []), some (5 ∷ []))
unfolding key_discrete ℕ_discrete
get_bytes-fresh_example =
    get_bytes-fresh key_discrete assoc both kept ((200, kept_tuple ∷ []) ∷ []) key 100 (5 ∷ []) refl
      refl kept-IsKept refl
