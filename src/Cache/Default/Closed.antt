-- ===== src/Cache/Default/Closed.antt =====
-- DefaultCache that is not open.
use here_olp_edge_sdk_cpp.Prelude.{ℕ, Bool, false, none, some, List, ◌≡◌, Bool-cases, inl, inr}
use here_olp_edge_sdk_cpp.Prelude.Int.{ℤ}
use here_olp_edge_sdk_cpp.Prelude.Text.{Text}
use here_olp_edge_sdk_cpp.Cache.Memory.{Key}
use here_olp_edge_sdk_cpp.Cache.Disk.{Leveldb, Opening}
use here_olp_edge_sdk_cpp.Cache.Default.{DefaultCache, close, clear}
use here_olp_edge_sdk_cpp.Cache.Default.Storing.{put_object, put_bytes}
use here_olp_edge_sdk_cpp.Cache.Default.Reading.{get_object, get_bytes}
use here_olp_edge_sdk_cpp.Cache.Default.Removing.{remove, remove_keys_with_prefix}

module _ {V : Type 0} (dec : Discrete Key) (l : Leveldb) where
  close-is_open : (c : DefaultCache V l.Db) → (close c).is_open ≡ false
  unfolding close
  close-is_open c = elim (Bool-cases c.is_open) [ inl e ↦ rw e | inr e ↦ rw e ]

  -- After Close(), whatever the cache held before, nothing is written or found or taken out: Put() and
  -- Remove() and Clear() and RemoveKeysWithPrefix() give false, Get() finds nothing, and each of them
  -- leaves the cache as it is.
  pub close-refuses :
      (before : DefaultCache V l.Db) (key : Key) (value : V) (encoder : V → Text)
      (decoder : Text → V) (data_bytes : List ℕ) (expiry : ℤ) (now size1 size2 : ℕ) (removed : Bool)
      (opening : Opening l.Db)
      → (put_object dec l (close before) key value encoder expiry now size1 size2
          ≡ some (close before, false))
        × (put_bytes dec l (close before) key data_bytes expiry now size1 size2
            ≡ some (close before, false))
        × (get_object dec l (close before) key decoder now ≡ some (close before, none))
        × (get_bytes dec l (close before) key now ≡ some (close before, none))
        × (remove dec l (close before) key ≡ some (close before, false))
        × (remove_keys_with_prefix dec l (close before) key ≡ some (close before, false))
        × (clear (close before) removed opening ≡ (close before, false))
  unfolding put_object put_bytes get_object get_bytes remove remove_keys_with_prefix clear
  close-refuses before key value encoder decoder data_bytes expiry now size1 size2 removed opening =
      let shut : (close before).is_open ≡ false = close-is_open before in
      (rw shut, rw shut, rw shut, rw shut, rw shut, rw shut, rw shut)
