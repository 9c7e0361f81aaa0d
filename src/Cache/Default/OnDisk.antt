-- ===== src/Cache/Default/OnDisk.antt =====
-- DefaultCache on disk alone: the item and the expiry entry of a key.
use here_olp_edge_sdk_cpp.Prelude.{
  ℕ, suc, ◌-◌, ◌^◌, ◌<◌, true, false, inl, inr, Bool-cases, Option, none, some, ◌>>=◌, some-inj,
  List, ◌++◌, length, length-append, leb, le→leb, leb→le, not-leb→lt, if◌then◌else◌, ◌≡◌, refl, sym,
  ap, ◌∙◌, arith,
}
use here_olp_edge_sdk_cpp.Prelude.Int.{ℤ, pos, add_ℕ, sub_ℕ}
use here_olp_edge_sdk_cpp.Prelude.Decimal.{to_string, stol-to_string}
use here_olp_edge_sdk_cpp.Prelude.Text.{Text, codes, str_eq, str_eq_iff, str_eq_refl}
use here_olp_edge_sdk_cpp.Cache.Memory.{Key, time_max}
use here_olp_edge_sdk_cpp.Cache.Disk.{Leveldb, LeveldbLaws, DiskCache}
use here_olp_edge_sdk_cpp.Cache.Disk
use here_olp_edge_sdk_cpp.Cache.Disk.Contents.{get-put}
use here_olp_edge_sdk_cpp.Cache.Default.{DefaultCache, Stored, create_expiry_key, expires, is_past}
use here_olp_edge_sdk_cpp.Cache.Default.Storing.{store_expiry, put_disk, put_bytes}
use here_olp_edge_sdk_cpp.Cache.Default.Reading.{
  get_remaining_expiry_time, unless_past, promote, cast_bytes, get_bytes,
}

str_eq-create_expiry_key : (key : Key) → str_eq (create_expiry_key key) key ≡ false
unfolding create_expiry_key
str_eq-create_expiry_key key = elim (Bool-cases (str_eq (key ++ codes "::expiry") key)) [
  | inr e ↦ e
  | inl e ↦
      let same : length (key ++ codes "::expiry") ≡ length key =
        ap length ((str_eq_iff _ key).0 e) in
      absurd (omega (arith, same, length-append key (codes "::expiry")))
]

str_eq-expiry_key : (key : Key) → str_eq key (create_expiry_key key) ≡ false
str_eq-expiry_key key = elim (Bool-cases (str_eq key (create_expiry_key key))) [
  | inr e ↦ e
  | inl e ↦
      let same : str_eq (create_expiry_key key) key ≡ true =
        (str_eq_iff _ key).1 (sym ((str_eq_iff key _).0 e)) in
      cc (same, str_eq-create_expiry_key key)
]

-- A cache that is open and has its items on disk alone.
pub record OnDisk {V Db : Type 0} (c : DefaultCache V Db) (d : DiskCache Db) : Type 0 where
  pub open_now : c.is_open ≡ true
  pub no_memory : c.memory_cache ≡ none
  pub on_disk : c.disk_cache ≡ some d

abbrev pub value_of {ℓ κ} : {A : Type ℓ} {B : Type κ} → Option (A × B) → Option B
value_of m = m >>= λ r. some r.1

module _ {V : Type 0} (dec : Discrete Key) (l : Leveldb) where
  abbrev cast :
      DefaultCache V l.Db × Option (Stored V) → Option (DefaultCache V l.Db × Option (List ℕ))
  cast r = cast_bytes dec l r.1 >>= λ value. some (r.0, value)

  cast-promote :
      (c : DefaultCache V l.Db) (key : Key) (o : Option Text) (expiry : ℤ) (now : ℕ)
      → c.memory_cache ≡ none
      → value_of (promote dec l c key o (λ text. Stored.bytes text) expiry now >>= cast) ≡ some o
  cast-promote c key none expiry now h = refl
  cast-promote c key (some v) expiry now h = rw h

  cast-unless_past :
      (c : DefaultCache V l.Db) (key : Key) (d : DiskCache l.Db) (now : ℕ) (expiry : ℤ)
      → c.memory_cache ≡ none
      → value_of (unless_past dec l c key d (λ text. Stored.bytes text) now expiry >>= cast)
        ≡ some (if is_past expiry then none else Disk.get l d key)
  cast-unless_past c key d now expiry h = elim (Bool-cases (is_past expiry)) [
    | inl e ↦ rw e
    | inr e ↦ rw e (cast-promote c key (Disk.get l d key) expiry now h)
  ]

  cast-read :
      (c : DefaultCache V l.Db) (key : Key) (d : DiskCache l.Db) (now : ℕ) (o : Option ℤ)
      → c.memory_cache ≡ none
      → value_of (
          (o >>= λ expiry. unless_past dec l c key d (λ text. Stored.bytes text) now expiry)
          >>= cast)
        ≡ (o >>= λ expiry. some (if is_past expiry then none else Disk.get l d key))
  cast-read c key d now none h = refl
  cast-read c key d now (some expiry) h = cast-unless_past c key d now expiry h

  -- What Get() gives hangs on the item and on its expiry entry.
  pub get_bytes-OnDisk :
      (c : DefaultCache V l.Db) (d : DiskCache l.Db) (key : Key) (now : ℕ)
      → OnDisk c d
      → value_of (get_bytes dec l c key now) ≡ (
          get_remaining_expiry_time l key d now >>= λ expiry.
          some (if is_past expiry then none else Disk.get l d key))
  unfolding get_bytes
  get_bytes-OnDisk c d key now h =
      rw (h.open_now, h.no_memory, h.on_disk)
        (cast-read
          (record {
            settings = c.settings;
            is_open = true;
            memory_cache = none;
            disk_cache = some d;
          })
          key d now (get_remaining_expiry_time l key d now) refl)

  put_bytes-OnDisk :
      (c : DefaultCache V l.Db) (d : DiskCache l.Db) (key : Key) (value : List ℕ) (expiry : ℤ)
      (now size1 size2 : ℕ)
      → OnDisk c d
      → put_bytes dec l c key value expiry now size1 size2
        ≡ some (
          record {
            settings = c.settings;
            is_open = true;
            memory_cache = none;
            disk_cache = (put_disk l (some d) key value expiry now size1 size2).0;
          },
          (put_disk l (some d) key value expiry now size1 size2).1,
        )
  unfolding put_bytes
  put_bytes-OnDisk c d key value expiry now size1 size2 h = rw (h.open_now, h.no_memory, h.on_disk)

-- What a Put() on disk has written.
pub record Written (l : Leveldb) (m : Option (DiskCache l.Db)) (key : Key) (value : Text)
    (entry : Option Text) : Type 0 where
  pub disk : DiskCache l.Db
  pub there : m ≡ some disk
  pub item : Disk.get l disk key ≡ some value
  pub expiry : Disk.get l disk (create_expiry_key key) ≡ entry

module _ (l : Leveldb) (laws : LeveldbLaws l) where
  pub put_disk_expiring :
      (d : DiskCache l.Db) (key : Key) (value : Text) (expiry : ℤ) (now size1 size2 : ℕ)
      → expires expiry ≡ true
      → (put_disk l (some d) key value expiry now size1 size2).1 ≡ true
      → Written l
          (put_disk l (some d) key value expiry now size1 size2).0
          key
          value
          (some (to_string (add_ℕ expiry now)))
  unfolding store_expiry
  put_disk_expiring d key value expiry now size1 size2 e done =
      elim (Bool-cases (store_expiry l key d expiry now size1).1) [
        | inr failed ↦ let refused : false ≡ true = sym (rw (e, failed)) ∙ done in cc
        | inl kept ↦
            let put_done : (Disk.put l (store_expiry l key d expiry now size1).0 key value size2).1
                ≡ true =
              sym (rw (e, kept)) ∙ done in
            record {
              disk = (Disk.put l (store_expiry l key d expiry now size1).0 key value size2).0;
              there = rw (e, kept);
              item =
                  get-put l laws (store_expiry l key d expiry now size1).0 key value key size2
                    put_done
                  ∙ rw (str_eq_refl key);
              expiry =
                  get-put l laws (store_expiry l key d expiry now size1).0 key value
                    (create_expiry_key key) size2 put_done
                  ∙ rw (str_eq-expiry_key key) (
                      get-put l laws d (create_expiry_key key) (to_string (add_ℕ expiry now))
                        (create_expiry_key key) size1 kept
                      ∙ rw (str_eq_refl (create_expiry_key key)));
            }
      ]

  pub put_disk_endless :
      (d : DiskCache l.Db) (key : Key) (value : Text) (now size1 size2 : ℕ)
      → (put_disk l (some d) key value (pos time_max) now size1 size2).1 ≡ true
      → Written l
          (put_disk l (some d) key value (pos time_max) now size1 size2).0
          key
          value
          (Disk.get l d (create_expiry_key key))
  put_disk_endless d key value now size1 size2 done = record {
    disk = (Disk.put l d key value size2).0;
    there = refl;
    item = get-put l laws d key value key size2 done ∙ rw (str_eq_refl key);
    expiry =
        get-put l laws d key value (create_expiry_key key) size2 done ∙ rw (str_eq-expiry_key key);
  }

is_past-sub_ℕ : (time now : ℕ) → is_past (sub_ℕ (pos time) now) ≡ leb time now
is_past-sub_ℕ time now = elim (Bool-cases (leb time now)) [
  | inl old ↦ elim (Bool-cases (leb now time)) [
    | inl same ↦
        let zero_left : time - now ≡ 0 = omega (arith, leb→le time now old) in
        rw (old, same, zero_left)
    | inr less ↦ rw (old, less)
  ]
  | inr new ↦
      let later : now < time = not-leb→lt time now new in
      let some_left : time - now ≡ suc (time - now - 1) = omega (arith, later) in
      rw (new, le→leb now time (omega (arith, later)), some_left)
]

module _ {V : Type 0} (dec : Discrete Key) (l : Leveldb) (laws : LeveldbLaws l) where
  -- The cache after a successful Put().
  pub put_bytes_done :
      (c c' : DefaultCache V l.Db) (d : DiskCache l.Db) (key : Key) (value : List ℕ) (expiry : ℤ)
      (now size1 size2 : ℕ)
      → OnDisk c d
      → put_bytes dec l c key value expiry now size1 size2 ≡ some (c', true)
      → ((put_disk l (some d) key value expiry now size1 size2).1 ≡ true)
        × ((d' : DiskCache l.Db)
            → (put_disk l (some d) key value expiry now size1 size2).0 ≡ some d'
            → OnDisk c' d')
  put_bytes_done c c' d key value expiry now size1 size2 h done =
      let same =
        some-inj (sym (put_bytes-OnDisk dec l c d key value expiry now size1 size2 h) ∙ done) in
      (
        ap (λ r. r.1) same,
        λ d' there. record {
          open_now = sym (ap (λ r. r.0.is_open) same);
          no_memory = sym (ap (λ r. r.0.memory_cache) same);
          on_disk = sym (ap (λ r. r.0.disk_cache) same) ∙ there;
        },
      )

  -- What Get() gives of an item with an expiry entry.
  pub get_bytes-entry :
      (c : DefaultCache V l.Db) (d : DiskCache l.Db) (key : Key) (value : List ℕ) (time now : ℕ)
      → OnDisk c d
      → time < 2 ^ 63
      → Disk.get l d key ≡ some value
      → Disk.get l d (create_expiry_key key) ≡ some (to_string (pos time))
      → value_of (get_bytes dec l c key now) ≡ some (if leb time now then none else some value)
  unfolding get_remaining_expiry_time
  get_bytes-entry c d key value time now h long item entry =
      get_bytes-OnDisk dec l c d key now h
      ∙ rw (
        get_remaining_expiry_time,
        entry,
        stol-to_string (pos time) long,
        item,
        is_past-sub_ℕ time now,
      )
