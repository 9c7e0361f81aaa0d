-- ===== src/Cache/Disk/Tests.antt =====
-- DiskCache over a database that is an association list.
use here_olp_edge_sdk_cpp.Prelude.{
  true, false, inl, inr, Bool-cases, Option, none, some, List, [], ◌∷◌, if◌then◌else◌, ◌≡◌, refl,
  ap, ◌∙◌, arith,
}
use here_olp_edge_sdk_cpp.Prelude.Text.{Text, codes, str_eq, str_eq_iff}
use here_olp_edge_sdk_cpp.Cache.Disk.{
  Leveldb, LeveldbLaws, DiskCache, contains, from_key, is_some, text_lt, starts_with, get,
  remove_keys_with_prefix, Status, OpenResult, open_disk, open_error, new_disk_cache,
}
use here_olp_edge_sdk_cpp.Cache.Disk.Contents.{get-remove_keys_with_prefix}

abbrev pub Items : Type 0
Items = List (Text × Text)

unfoldable pub lookup : Text → Items → Option Text
lookup j [] = none
lookup j (e ∷ es) = if str_eq e.0 j then some e.1 else lookup j es

-- Without the keys of a list.
unfoldable pub drop_keys : List Text → Items → Items
drop_keys ks [] = []
drop_keys ks (e ∷ es) = let rest = drop_keys ks es in if contains e.0 ks then rest else e ∷ rest

abbrev keys : Items → List Text
keys [] = []
keys (e ∷ es) = e.0 ∷ keys es

contains-eq : (e j : Text) (ks : List Text) → str_eq e j ≡ true → contains e ks ≡ contains j ks
contains-eq e j ks h = ap (λ x. contains x ks) ((str_eq_iff e j).0 h)

lookup-drop_keys :
    (ks : List Text) (j : Text) (es : Items)
    → lookup j (drop_keys ks es) ≡ (if contains j ks then none else lookup j es)
unfolding lookup drop_keys
lookup-drop_keys ks j [] = elim (Bool-cases (contains j ks)) [ inl e ↦ rw e | inr e ↦ rw e ]
lookup-drop_keys ks j (e ∷ es) = ground (arith, contains-eq e.0 j ks, lookup-drop_keys ks j es)

contains-keys : (es : Items) (j : Text) → contains j (keys es) ≡ is_some (lookup j es)
unfolding lookup
contains-keys [] j = refl
contains-keys (e ∷ es) j = ground (arith, contains-keys es j)

single : (k j : Text) → contains j (k ∷ []) ≡ str_eq k j
single k j = ground arith

abbrev pub assoc : Leveldb
assoc = record {
  Db = Items;
  put = λ db k v. ((k, v) ∷ db, true);
  get = λ db k. lookup k db;
  delete = λ db k. (drop_keys (k ∷ []) db, true);
  write = λ db ks. (drop_keys ks db, true);
  keys = keys;
  seek = λ db p. from_key p (keys db);
}

pub assoc_laws : LeveldbLaws assoc
unfolding lookup
assoc_laws = record {
  get-put = λ db k v j h. refl;
  get-delete = λ db k j h. lookup-drop_keys (k ∷ []) j db ∙ rw (single k j);
  get-write = λ db ks j h. lookup-drop_keys ks j db;
  contains-keys = contains-keys;
  seek-keys = λ db p. refl;
}

abbrev disk : DiskCache Items
disk = record {
  disk_cache_path = codes "/tmp";
  database = some ((codes "a", codes "1") ∷ (codes "ab", codes "2") ∷ (codes "b", codes "3") ∷ []);
  limited = false;
  max_size = 0;
}

get-remove_keys_with_prefix_example :
    get assoc (remove_keys_with_prefix assoc disk (codes "a")).0 (codes "b")
    ≡ (if starts_with (codes "b") (codes "a") then none else get assoc disk (codes "b"))
unfolding text_lt remove_keys_with_prefix
get-remove_keys_with_prefix_example =
    get-remove_keys_with_prefix assoc assoc_laws disk
      ((codes "a", codes "1") ∷ (codes "ab", codes "2") ∷ (codes "b", codes "3") ∷ []) (codes "a")
      (codes "b") refl ((refl, (refl, tt)), ((refl, tt), (tt, tt))) refl

-- A database that is corrupted and cannot be repaired.
open_corrupted :
    open_disk {Db = Items} new_disk_cache (codes "/d") 100 (record {
      exists = true;
      created = false;
      first = Status.corruption;
      first_db = [];
      repair = false;
      second = Status.ok;
      second_db = [];
    })
    ≡ (
      record { disk_cache_path = codes "/d"; database = none; limited = true; max_size = 100 },
      (OpenResult.fail, some (open_error Status.corruption)),
    )
unfolding open_disk
open_corrupted = refl
