-- ===== src/Cache/Disk.antt =====
-- The class DiskCache of olp-cpp-sdk-core/src/cache/DiskCache.h and DiskCache.cpp, a cache in a
-- LevelDB database. LevelDB is a parameter with the laws that its documentation states; so are the
-- directory functions of Dir, and the size that DiskCacheSizeLimit counts, whose results are
-- arguments. A key and a value are lists of bytes. Logging is left out.
pub mod Contents
pub mod Tests
use here_olp_edge_sdk_cpp.Prelude.{
  ℕ, ◌-◌, ◌^◌, Bool, true, false, not, ◌&&◌, ◌||◌, Option, none, some, List, [], ◌∷◌, ltb, leb,
  ◌==◌, if◌then◌else◌, ◌≡◌,
}
use here_olp_edge_sdk_cpp.Prelude.Text.{Text, is_empty, str_eq}

-- The order of the keys: bytewise.
unfoldable pub text_lt : Text → Text → Bool
text_lt [] [] = false
text_lt [] (d ∷ t) = true
text_lt (c ∷ s) [] = false
text_lt (c ∷ s) (d ∷ t) = if c == d then text_lt s t else ltb c d

-- What LevelDB documents of `Slice::starts_with`.
unfoldable pub starts_with : Text → Text → Bool
starts_with k [] = true
starts_with [] (p ∷ ps) = false
starts_with (c ∷ k) (p ∷ ps) = c == p && starts_with k ps

abbrev pub contains : Text → List Text → Bool
contains j [] = false
contains j (k ∷ ks) = str_eq k j || contains j ks

abbrev pub from_key : Text → List Text → List Text
from_key p [] = []
from_key p (k ∷ ks) = let rest = from_key p ks in if text_lt k p then rest else k ∷ rest

abbrev pub is_some : Option Text → Bool
is_some none = false
is_some (some v) = true

-- What the cache calls of LevelDB. A Boolean is `status.ok()`; `write` is a batch of deletions; `keys`
-- is what an iterator shows from SeekToFirst() on, and `seek` what it shows from Seek() on.
pub record Leveldb : Type 1 where
  pub Db : Type 0
  pub put : Db → Text → Text → Db × Bool
  pub get : Db → Text → Option Text
  pub delete : Db → Text → Db × Bool
  pub write : Db → List Text → Db × Bool
  pub keys : Db → List Text
  pub seek : Db → Text → List Text

pub record LeveldbLaws (l : Leveldb) : Type 0 where
  pub get-put :
      (db : l.Db) (k v j : Text)
      → (l.put db k v).1 ≡ true
      → l.get (l.put db k v).0 j ≡ (if str_eq k j then some v else l.get db j)
  pub get-delete :
      (db : l.Db) (k j : Text)
      → (l.delete db k).1 ≡ true
      → l.get (l.delete db k).0 j ≡ (if str_eq k j then none else l.get db j)
  pub get-write :
      (db : l.Db) (ks : List Text) (j : Text)
      → (l.write db ks).1 ≡ true
      → l.get (l.write db ks).0 j ≡ (if contains j ks then none else l.get db j)
  pub contains-keys : (db : l.Db) (j : Text) → contains j (l.keys db) ≡ is_some (l.get db j)
  pub seek-keys : (db : l.Db) (p : Text) → l.seek db p ≡ from_key p (l.keys db)

-- `std::uint64_t(-1)`
abbrev pub no_limit : ℕ
no_limit = 2 ^ 64 - 1

-- `limited` is whether there is an `environment_`.
pub record DiskCache (Db : Type 0) : Type 0 where
  pub disk_cache_path : Text
  pub database : Option Db
  pub limited : Bool
  pub max_size : ℕ

pub data OpenResult : Type 0 where
  fail : OpenResult
  repaired : OpenResult
  success : OpenResult

pub data Status : Type 0 where
  ok : Status
  not_found : Status
  corruption : Status
  not_supported : Status
  invalid_argument : Status
  io_error : Status

pub data ErrorCode : Type 0 where
  error_unknown : ErrorCode
  error_not_found : ErrorCode
  error_invalid_argument : ErrorCode
  error_internal_failure : ErrorCode
  error_bad_request : ErrorCode

-- setOpenError()
unfoldable pub open_error : Status → ErrorCode
open_error Status.ok = ErrorCode.error_unknown
open_error Status.not_found = ErrorCode.error_not_found
open_error Status.invalid_argument = ErrorCode.error_invalid_argument
open_error Status.corruption = ErrorCode.error_internal_failure
open_error Status.io_error = ErrorCode.error_internal_failure
open_error Status.not_supported = ErrorCode.error_bad_request

-- What the surroundings do while the cache is opened for reading and writing: whether the directory
-- is there or can be made, the result of the first leveldb::DB::Open(), whether repairCache() is
-- successful, and the result of the second one. A database comes with the status `ok` only.
pub record Opening (Db : Type 0) : Type 0 where
  pub exists : Bool
  pub created : Bool
  pub first : Status
  pub first_db : Db
  pub repair : Bool
  pub second : Status
  pub second_db : Db

-- The cache, the result, and the error that setOpenError() sets.
abbrev pub Opened : Type 0 → Type 0
Opened Db = DiskCache Db × (OpenResult × Option ErrorCode)

module _ {Db : Type 0} where
  unfoldable pub close : DiskCache Db → DiskCache Db
  close d = record d { database = none }

  -- `removed` is the result of Dir::remove().
  unfoldable pub clear : DiskCache Db → Bool → DiskCache Db × Bool
  clear d removed =
      (record d { database = none }, if is_empty d.disk_cache_path then true else removed)

  abbrev pub open_last : DiskCache Db → Status → Db → OpenResult → Opened Db
  open_last d Status.ok db result = (record d { database = some db }, (result, none))
  open_last d status db result = (d, (OpenResult.fail, some (open_error status)))

  -- From the first attempt on.
  abbrev pub open_first : DiskCache Db → Opening Db → Status → Opened Db
  open_first d o Status.ok = (record d { database = some o.first_db }, (OpenResult.success, none))
  open_first d o Status.corruption =
      if o.repair
      then open_last d o.second o.second_db OpenResult.repaired
      else (d, (OpenResult.fail, some (open_error Status.corruption)))
  open_first d o Status.io_error =
      if o.repair
      then open_last d o.second o.second_db OpenResult.repaired
      else (d, (OpenResult.fail, some (open_error Status.io_error)))
  open_first d o status = (d, (OpenResult.fail, some (open_error status)))

  -- Open() with OpenOptions::Default
  unfoldable pub open_disk : DiskCache Db → Text → ℕ → Opening Db → Opened Db
  open_disk d data_path max_disk_storage o =
      let d' = record d { disk_cache_path = data_path } in
      if not o.exists && not o.created
      then (d', (OpenResult.fail, none))
      else open_first
          (record d' {
            max_size = max_disk_storage;
            limited = if max_disk_storage == no_limit then d.limited else true;
          })
          o o.first

-- The default constructor.
abbrev pub new_disk_cache : {Db : Type 0} → DiskCache Db
new_disk_cache = record {
  disk_cache_path = [];
  database = none;
  limited = false;
  max_size = no_limit;
}

-- The second loop of RemoveKeysWithPrefix(), which stops at the first key without the prefix.
abbrev pub while_prefix : Text → List Text → List Text
while_prefix p [] = []
while_prefix p (k ∷ ks) = let rest = while_prefix p ks in if starts_with k p then k ∷ rest else []

module _ (l : Leveldb) where
  abbrev pub put_at : DiskCache l.Db → Option l.Db → Text → Text → ℕ → DiskCache l.Db × Bool
  put_at d none key value environment_size = (d, false)
  put_at d (some db) key value environment_size =
      if d.limited && (not (d.max_size == no_limit) && leb d.max_size environment_size)
      then (d, false)
      else (record d { database = some (l.put db key value).0 }, (l.put db key value).1)

  -- Put(), where `environment_size` is `environment_->size()`
  unfoldable pub put : DiskCache l.Db → Text → Text → ℕ → DiskCache l.Db × Bool
  put d key value environment_size = put_at d d.database key value environment_size

  abbrev pub get_at : Option l.Db → Text → Option Text
  get_at none key = none
  get_at (some db) key = l.get db key

  unfoldable pub get : DiskCache l.Db → Text → Option Text
  get d key = get_at d.database key

  abbrev pub remove_at : DiskCache l.Db → Option l.Db → Text → DiskCache l.Db × Bool
  remove_at d none key = (d, false)
  remove_at d (some db) key =
      (record d { database = some (l.delete db key).0 }, (l.delete db key).1)

  unfoldable pub remove : DiskCache l.Db → Text → DiskCache l.Db × Bool
  remove d key = remove_at d d.database key

  abbrev pub batch_of : l.Db → Text → List Text
  batch_of db key_prefix =
      if is_empty key_prefix then l.keys db else while_prefix key_prefix (l.seek db key_prefix)

  -- A failed write: the `return false` stands in the text of the log, which is expanded before the
  -- message is logged.
  abbrev pub remove_prefix_at : DiskCache l.Db → Option l.Db → Text → DiskCache l.Db × Bool
  remove_prefix_at d none key_prefix = (d, false)
  remove_prefix_at d (some db) key_prefix =
      let written = l.write db (batch_of db key_prefix) in
      (record d { database = some written.0 }, if not written.1 then false else true)

  unfoldable pub remove_keys_with_prefix : DiskCache l.Db → Text → DiskCache l.Db × Bool
  remove_keys_with_prefix d key_prefix = remove_prefix_at d d.database key_prefix
