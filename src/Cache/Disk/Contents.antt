-- ===== src/Cache/Disk/Contents.antt =====
-- DiskCache: what RemoveKeysWithPrefix() leaves in the database.
use here_olp_edge_sdk_cpp.Prelude.{
  ℕ, Bool, true, false, not, ◌&&◌, ◌||◌, inl, inr, Bool-cases, Option, none, some, List, [], ◌∷◌,
  ◌==◌, leb, if◌then◌else◌, ◌≡◌, refl, sym, ◌∙◌, arith,
}
use here_olp_edge_sdk_cpp.Prelude.Text.{Text, is_empty, str_eq, str_eq_iff}
use here_olp_edge_sdk_cpp.Cache.Disk.{
  text_lt, starts_with, contains, from_key, is_some, Leveldb, LeveldbLaws, DiskCache, get, get_at,
  put, put_at, no_limit, while_prefix, batch_of, remove_keys_with_prefix,
}
use mathlib.Core.Path.{subst}

abbrev AllFrom : Text → List Text → Type 0
AllFrom k [] = Unit
AllFrom k (j ∷ ks) = (text_lt j k ≡ false) × AllFrom k ks

-- The keys in the order in which the database keeps them.
abbrev pub IsSorted : List Text → Type 0
IsSorted [] = Unit
IsSorted (k ∷ ks) = AllFrom k ks × IsSorted ks

text_lt-starts_with : (k p : Text) → starts_with k p ≡ true → text_lt k p ≡ false
unfolding text_lt starts_with
text_lt-starts_with [] [] h = refl
text_lt-starts_with (c ∷ k) [] h = refl
text_lt-starts_with [] (d ∷ p) h = cc
text_lt-starts_with (c ∷ k) (d ∷ p) h = ground (arith, text_lt-starts_with k p)

-- A key between the prefix and a key with the prefix has the prefix.
starts_with_between :
    (p a b : Text)
    → text_lt a p ≡ false
    → text_lt b a ≡ false
    → starts_with b p ≡ true
    → starts_with a p ≡ true
unfolding text_lt starts_with
starts_with_between [] a b h k s = refl
starts_with_between (d ∷ p) [] b h k s = cc
starts_with_between (d ∷ p) (c ∷ a) [] h k s = cc
starts_with_between (d ∷ p) (c ∷ a) (e ∷ b) h k s = ground (arith, starts_with_between p a b)

contains-AllFrom :
    (k j : Text) (ks : List Text) → AllFrom k ks → contains j ks ≡ true → text_lt j k ≡ false
contains-AllFrom k j [] h m = cc
contains-AllFrom k j (i ∷ ks) (hi, hs) m = elim (Bool-cases (str_eq i j)) [
  | inl e ↦ subst (λ (x : Text). text_lt x k ≡ false) ((str_eq_iff i j).0 e) hi
  | inr e ↦ contains-AllFrom k j ks hs (sym (rw e) ∙ m)
]

text_lt_irrefl : (k : Text) → text_lt k k ≡ false
unfolding text_lt
text_lt_irrefl [] = refl
text_lt_irrefl (c ∷ k) = ground (arith, text_lt_irrefl k)

-- A key with the prefix is met: the loop goes on.
met :
    (p j k : Text) (b b' : Bool)
    → starts_with k p ≡ true
    → b ≡ (b' && starts_with j p)
    → (str_eq k j || b) ≡ ((str_eq k j || b') && starts_with j p)
met p j k b b' e ih = elim (Bool-cases (str_eq k j)) [
  | inl same ↦
      rw same (sym (subst (λ (x : Text). starts_with x p ≡ true) ((str_eq_iff k j).0 same) e))
  | inr other ↦ rw other ih
]

-- The loop stops: no later key has the prefix.
not_later :
    (p j k : Text) (ks : List Text)
    → text_lt k p ≡ false
    → AllFrom k ks
    → starts_with k p ≡ false
    → (contains j (k ∷ ks) && starts_with j p) ≡ false
not_later p j k ks hk first e = elim (Bool-cases (contains j (k ∷ ks))) [
  | inr out ↦ rw out
  | inl inside ↦ elim (Bool-cases (starts_with j p)) [
    | inr without ↦ rw (inside, without)
    | inl with_prefix ↦
        let after : text_lt j k ≡ false =
          contains-AllFrom k j (k ∷ ks) (text_lt_irrefl k, first) inside in
        let also : starts_with k p ≡ true = starts_with_between p k j hk after with_prefix in cc
  ]
]

-- The second loop, on keys that are not before the prefix.
contains-while_prefix :
    (p j : Text) (ks : List Text)
    → AllFrom p ks
    → IsSorted ks
    → contains j (while_prefix p ks) ≡ (contains j ks && starts_with j p)
contains-while_prefix p j [] h s = refl
contains-while_prefix p j (k ∷ ks) (hk, hs) (first, s) = elim (Bool-cases (starts_with k p)) [
  | inl e ↦ rw e (
      met p j k (contains j (while_prefix p ks)) (contains j ks) e
        (contains-while_prefix p j ks hs s))
  | inr e ↦ rw e (sym (not_later p j k ks hk first e))
]

from_key-AllFrom : (p : Text) (ks : List Text) → AllFrom p (from_key p ks)
from_key-AllFrom p [] = tt
from_key-AllFrom p (k ∷ ks) = elim (Bool-cases (text_lt k p)) [
  | inl e ↦ rw e (from_key-AllFrom p ks)
  | inr e ↦ rw e (e, from_key-AllFrom p ks)
]

AllFrom-from_key : (k p : Text) (ks : List Text) → AllFrom k ks → AllFrom k (from_key p ks)
AllFrom-from_key k p [] h = tt
AllFrom-from_key k p (j ∷ ks) (hj, hs) = elim (Bool-cases (text_lt j p)) [
  | inl e ↦ rw e (AllFrom-from_key k p ks hs)
  | inr e ↦ rw e (hj, AllFrom-from_key k p ks hs)
]

from_key-IsSorted : (p : Text) (ks : List Text) → IsSorted ks → IsSorted (from_key p ks)
from_key-IsSorted p [] h = tt
from_key-IsSorted p (k ∷ ks) (first, s) = elim (Bool-cases (text_lt k p)) [
  | inl e ↦ rw e (from_key-IsSorted p ks s)
  | inr e ↦ rw e (AllFrom-from_key k p ks first, from_key-IsSorted p ks s)
]

contains-from_key :
    (p j : Text) (ks : List Text)
    → (contains j (from_key p ks) && starts_with j p) ≡ (contains j ks && starts_with j p)
contains-from_key p j [] = refl
contains-from_key p j (k ∷ ks) = elim (Bool-cases (text_lt k p)) [
  | inl e ↦ elim (Bool-cases (str_eq k j)) [
    | inl same ↦
        let before : text_lt j p ≡ true =
          subst (λ (x : Text). text_lt x p ≡ true) ((str_eq_iff k j).0 same) e in
        elim (Bool-cases (starts_with j p)) [
          | inl w ↦ let no_less : text_lt j p ≡ false = text_lt-starts_with j p w in cc
          | inr w ↦ rw w (ground arith)
        ]
    | inr other ↦ rw (e, other) (contains-from_key p j ks)
  ]
  | inr e ↦ elim (Bool-cases (str_eq k j)) [
    | inl same ↦ rw (e, same)
    | inr other ↦ rw (e, other) (contains-from_key p j ks)
  ]
]

starts_with-nil : (j : Text) → starts_with j [] ≡ true
unfolding starts_with
starts_with-nil [] = refl
starts_with-nil (c ∷ j) = refl

and_true : (b : Bool) → (b && true) ≡ b
and_true true = refl
and_true false = refl

-- A deletion of what is inside and has the prefix is one of what has the prefix.
deleted :
    (inside prefixed : Bool) (o : Option Text)
    → inside ≡ is_some o
    → (if inside && prefixed then none else o) ≡ (if prefixed then none else o)
deleted inside true none h = rw h
deleted inside true (some v) h = rw h
deleted true false o h = refl
deleted false false o h = refl

written : (b : Bool) → (if not b then false else true) ≡ true → b ≡ true
written true h = refl
written false h = cc

module _ (l : Leveldb) (laws : LeveldbLaws l) where
  contains-batch_of :
      (db : l.Db) (p j : Text)
      → IsSorted (l.keys db)
      → contains j (batch_of l db p) ≡ (contains j (l.keys db) && starts_with j p)
  unfolding is_empty
  contains-batch_of db [] j s = rw (starts_with-nil j) (sym (and_true (contains j (l.keys db))))
  contains-batch_of db (c ∷ p) j s = rw (laws.seek-keys db (c ∷ p)) (
      contains-while_prefix (c ∷ p) j (from_key (c ∷ p) (l.keys db))
        (from_key-AllFrom (c ∷ p) (l.keys db)) (from_key-IsSorted (c ∷ p) (l.keys db) s)
      ∙ contains-from_key (c ∷ p) j (l.keys db))

  -- With a LevelDB that keeps its laws: a successful RemoveKeysWithPrefix() takes out of the open
  -- database all the keys that begin with the prefix and leaves the values of all the others, if the
  -- database has its keys in their order.
  pub get-remove_keys_with_prefix :
      (d : DiskCache l.Db) (db : l.Db) (p j : Text)
      → d.database ≡ some db
      → IsSorted (l.keys db)
      → (remove_keys_with_prefix l d p).1 ≡ true
      → get l (remove_keys_with_prefix l d p).0 j ≡ (if starts_with j p then none else get l d j)
  unfolding get remove_keys_with_prefix
  get-remove_keys_with_prefix d db p j here s done =
      let kept : (l.write db (batch_of l db p)).1 ≡ true =
        written (l.write db (batch_of l db p)).1 (sym (rw here) ∙ done) in
      rw here (
        laws.get-write db (batch_of l db p) j kept
        ∙ rw (contains-batch_of db p j s) (
            deleted (contains j (l.keys db)) (starts_with j p) (l.get db j)
              (laws.contains-keys db j)))

module _ (l : Leveldb) (laws : LeveldbLaws l) where
  get-put_at :
      (d : DiskCache l.Db) (o : Option l.Db) (k v j : Text) (size : ℕ)
      → (put_at l d o k v size).1 ≡ true
      → get l (put_at l d o k v size).0 j ≡ (if str_eq k j then some v else get_at l o j)
  unfolding get
  get-put_at d none k v j size done = cc
  get-put_at d (some db) k v j size done =
      elim (Bool-cases (d.limited && (not (d.max_size == no_limit) && leb d.max_size size))) [
        | inl full ↦ let refused : false ≡ true = sym (rw full) ∙ done in cc
        | inr room ↦ rw room (laws.get-put db k v j (sym (rw room) ∙ done))
      ]

  -- A successful Put() changes the value of its key only.
  pub get-put :
      (d : DiskCache l.Db) (k v j : Text) (size : ℕ)
      → (put l d k v size).1 ≡ true
      → get l (put l d k v size).0 j ≡ (if str_eq k j then some v else get l d j)
  unfolding get put
  get-put d k v j size done = get-put_at d d.database k v j size done
