-- ===== src/Cache/Lru/Chain.antt =====
-- Chains of buckets: the map that a list of entries, the most recently used first, is kept in.
use here_olp_edge_sdk_cpp.Prelude.{
  ◌>>=◌, ℕ, ◌≡◌, refl, ap, ◌∙◌, ◌≢◌, Option, none, some, List, [], ◌∷◌, ◌++◌, arith,
}
use here_olp_edge_sdk_cpp.Cache.Lru.{Bucket, BucketMap, update, set_next, set_previous}
use mathlib.Core.Logic.{ite}
use mathlib.Core.Path.{fun_ext}

abbrev pub or_else {ℓ} : {A : Type ℓ} → Option A → Option A → Option A
or_else none b = b
or_else (some a) b = some a

module _ {ℓ} {K V : Type ℓ} where
  -- The key of the first entry, or what follows; that of the last, or what stands before.
  abbrev pub head_or : List (K × V) → Option K → Option K
  head_or [] n = n
  head_or (e ∷ es) n = some e.0

  abbrev pub last_or : Option K → List (K × V) → Option K
  last_or p [] = p
  last_or p (e ∷ es) = last_or (some e.0) es

  abbrev pub Absent : K → List (K × V) → Type ℓ
  Absent k [] = Unit
  Absent k (e ∷ es) = (e.0 ≢ k) × Absent k es

  abbrev pub Distinct : List (K × V) → Type ℓ
  Distinct [] = Unit
  Distinct (e ∷ es) = Absent e.0 es × Distinct es

  pub Absent-append :
      (k : K) (xs ys : List (K × V)) → Absent k (xs ++ ys) → Absent k xs × Absent k ys
  Absent-append k [] ys a = (tt, a)
  Absent-append k (e ∷ xs) ys a = let (l, r) = Absent-append k xs ys a.1 in ((a.0, l), r)

  pub append-Absent :
      (k : K) (xs ys : List (K × V)) → Absent k xs → Absent k ys → Absent k (xs ++ ys)
  append-Absent k [] ys a b = b
  append-Absent k (e ∷ xs) ys a b = (a.0, append-Absent k xs ys a.1 b)

module _ {ℓ} {K V : Type ℓ} (dec : Discrete K) where
  -- The buckets of the entries, between the keys `p` and `n`.
  unfoldable pub seg : Option K → List (K × V) → Option K → K → Option (Bucket K V)
  seg p [] n j = none
  seg p (e ∷ es) n j =
      ite (dec e.0 j) (some (record { next = head_or es n; previous = p; value = e.1 }))
        (seg (some e.0) es n j)

  pub seg_absent :
      (p : Option K) (es : List (K × V)) (n : Option K) (j : K) → Absent j es → seg p es n j ≡ none
  unfolding seg
  seg_absent p [] n j a = refl
  seg_absent p (e ∷ es) n j a = ground (arith, seg_absent (some e.0) es n j)

  seg-append :
      (p : Option K) (xs ys : List (K × V)) (n : Option K) (j : K)
      → seg p (xs ++ ys) n j ≡ or_else (seg p xs (head_or ys n) j) (seg (last_or p xs) ys n j)
  unfolding seg
  seg-append p [] ys n j = refl
  seg-append p (e ∷ []) ys n j = ground arith
  seg-append p (e ∷ f ∷ xs) ys n j = ground (arith, seg-append (some e.0) (f ∷ xs) ys n j)

  -- A map with the bucket `b` at `k`, and two chains beside it.
  pub around :
      K
      → Bucket K V
      → Option K
      → List (K × V)
      → Option K
      → Option K
      → List (K × V)
      → K
      → Option (Bucket K V)
  around k b p xs n q ys j = ite (dec k j) (some b) (or_else (seg p xs n j) (seg q ys none j))

  -- A write through an iterator whose bucket is known, to a map that is known point by point.
  set_next_lem :
      (m : BucketMap K V) (k : K) (x : Option K) (b : Bucket K V) (f : K → Option (Bucket K V))
      → m.find k ≡ some b
      → ((j : K) → update dec m.find k (some (record b { next = x })) j ≡ f j)
      → set_next dec m (some k) x ≡ some (record { find = f; count = m.count })
  set_next_lem m k x b f e h =
      ap
        (λ (r : Option (Bucket K V)). r >>= λ b'.
          some (record m { find = update dec m.find k (some (record b' { next = x })) }))
        e
      ∙ ap (λ (g : K → Option (Bucket K V)). some (record m { find = g })) (fun_ext h)

  set_previous_lem :
      (m : BucketMap K V) (k : K) (x : Option K) (b : Bucket K V) (f : K → Option (Bucket K V))
      → m.find k ≡ some b
      → ((j : K) → update dec m.find k (some (record b { previous = x })) j ≡ f j)
      → set_previous dec m (some k) x ≡ some (record { find = f; count = m.count })
  set_previous_lem m k x b f e h =
      ap
        (λ (r : Option (Bucket K V)). r >>= λ b'.
          some (record m { find = update dec m.find k (some (record b' { previous = x })) }))
        e
      ∙ ap (λ (g : K → Option (Bucket K V)). some (record m { find = g })) (fun_ext h)

  module _ (k : K) (b : Bucket K V) (p : Option K) (xs : List (K × V)) (n : Option K) (q : Option K)
      (ys : List (K × V)) (count : ℕ) where
    abbrev pub here : BucketMap K V
    here = record { find = around k b p xs n q ys; count = count }

    pub set_next-at :
        (x : Option K)
        → set_next dec here (some k) x
          ≡ some (record { find = around k (record b { next = x }) p xs n q ys; count = count })
    unfolding around
    set_next-at x = set_next_lem here k x b _ (ground arith) (λ j. ground arith)

    pub set_previous-at :
        (x : Option K)
        → set_previous dec here (some k) x
          ≡ some (record { find = around k (record b { previous = x }) p xs n q ys; count = count })
    unfolding around
    set_previous-at x = set_previous_lem here k x b _ (ground arith) (λ j. ground arith)

  -- The first bucket of the chain behind.
  pub set_previous-behind :
      (k : K) (b : Bucket K V) (p : Option K) (xs : List (K × V)) (n q : Option K) (e : K × V)
      (ys : List (K × V)) (count : ℕ) (x : Option K)
      → k ≢ e.0
      → Absent e.0 xs
      → set_previous dec
          (record { find = around k b p xs n q (e ∷ ys); count = count })
          (some e.0)
          x
        ≡ some (record { find = around k b p xs n x (e ∷ ys); count = count })
  unfolding around seg
  set_previous-behind k b p xs n q e ys count x other a =
      set_previous_lem (record { find = around k b p xs n q (e ∷ ys); count = count }) e.0 x
        (record { next = head_or ys none; previous = q; value = e.1 }) _
        (ground (arith, seg_absent p xs n e.0 a)) (λ j. ground (arith, seg_absent p xs n e.0 a))

  -- The first bucket of the chain before.
  pub set_previous-before :
      (k : K) (b : Bucket K V) (p : Option K) (e : K × V) (xs : List (K × V)) (n q : Option K)
      (ys : List (K × V)) (count : ℕ) (x : Option K)
      → k ≢ e.0
      → set_previous dec
          (record { find = around k b p (e ∷ xs) n q ys; count = count })
          (some e.0)
          x
        ≡ some (record { find = around k b x (e ∷ xs) n q ys; count = count })
  unfolding around seg
  set_previous-before k b p e xs n q ys count x other =
      set_previous_lem (record { find = around k b p (e ∷ xs) n q ys; count = count }) e.0 x
        (record { next = head_or xs n; previous = p; value = e.1 }) _ (ground arith)
        (λ j. ground arith)

  -- The last bucket of the chain before.
  pub set_next-before :
      (k : K) (b : Bucket K V) (p : Option K) (xs : List (K × V)) (e : K × V) (n q : Option K)
      (ys : List (K × V)) (count : ℕ) (x : Option K)
      → k ≢ e.0
      → Absent e.0 xs
      → set_next dec
          (record { find = around k b p (xs ++ e ∷ []) n q ys; count = count })
          (some e.0)
          x
        ≡ some (record { find = around k b p (xs ++ e ∷ []) x q ys; count = count })
  unfolding around seg
  set_next-before k b p xs e n q ys count x other a =
      set_next_lem (record { find = around k b p (xs ++ e ∷ []) n q ys; count = count }) e.0 x
        (record { next = n; previous = last_or p xs; value = e.1 }) _
        (ground (arith, seg-append p xs (e ∷ []) n e.0, seg_absent p xs (some e.0) e.0 a))
        (λ j. ground (
          arith,
          seg-append p xs (e ∷ []) n j,
          seg-append p xs (e ∷ []) x j,
          seg_absent p xs (some e.0) e.0 a,
        ))

  -- The chain of all entries, with the bucket of one of them taken out.
  pub seg-around :
      (k : K) (v : V) (xs ys : List (K × V)) (j : K)
      → Absent k xs
      → seg none (xs ++ (k, v) ∷ ys) none j
        ≡ around k
            (record { next = head_or ys none; previous = last_or none xs; value = v })
            none
            xs
            (some k)
            (some k)
            ys
            j
  unfolding around seg
  seg-around k v xs ys j a =
      ground (arith, seg-append none xs ((k, v) ∷ ys) none j, seg_absent none xs (some k) k a)

  -- A chain without buckets has no neighbours to know.
  pub around-behind_nil :
      (k : K) (b : Bucket K V) (p : Option K) (xs : List (K × V)) (n q r : Option K)
      → around k b p xs n q [] ≡ around k b p xs n r []
  unfolding around seg
  around-behind_nil k b p xs n q r = refl

  pub around-before_nil :
      (k : K) (b : Bucket K V) (p q n m : Option K) (r : Option K) (ys : List (K × V))
      → around k b p [] n r ys ≡ around k b q [] m r ys
  unfolding around seg
  around-before_nil k b p q n m r ys = refl

  pub around-at :
      (k : K) (b : Bucket K V) (p : Option K) (xs : List (K × V)) (n q : Option K)
      (ys : List (K × V))
      → around k b p xs n q ys k ≡ some b
  unfolding around
  around-at k b p xs n q ys = ground arith

  -- Without the bucket, the two chains are one.
  pub around-erase :
      (k : K) (b : Bucket K V) (xs ys : List (K × V)) (j : K)
      → Absent k xs
      → Absent k ys
      → update dec (around k b none xs (head_or ys none) (last_or none xs) ys) k none j
        ≡ seg none (xs ++ ys) none j
  unfolding around
  around-erase k b xs ys j before behind = ground (
    arith,
    seg-append none xs ys none j,
    seg_absent none xs (head_or ys none) k before,
    seg_absent (last_or none xs) ys none k behind,
  )

  -- The bucket before the chain of all others.
  pub around-front :
      (k : K) (v : V) (xs ys : List (K × V)) (j : K)
      → around k
          (record { next = head_or (xs ++ ys) none; previous = none; value = v })
          (some k)
          xs
          (head_or ys none)
          (last_or (some k) xs)
          ys
          j
        ≡ seg none ((k, v) ∷ (xs ++ ys)) none j
  unfolding around seg
  around-front k v xs ys j = ground (arith, seg-append (some k) xs ys none j)

  -- A bucket that is added with no links.
  pub update-seg :
      (k : K) (b : Bucket K V) (es : List (K × V)) (j : K)
      → update dec (seg none es none) k (some b) j ≡ around k b none [] none none es j
  unfolding around seg
  update-seg k b es j = refl

  -- Another value in the bucket.
  pub around-value :
      (k : K) (b : Bucket K V) (p : Option K) (xs : List (K × V)) (n q : Option K)
      (ys : List (K × V)) (v : V) (j : K)
      → update dec (around k b p xs n q ys) k (some (record b { value = v })) j
        ≡ around k (record b { value = v }) p xs n q ys j
  unfolding around
  around-value k b p xs n q ys v j = ground arith

  pub update-single :
      (k : K) (v : V) (j : K)
      → update dec
          (seg none [] none)
          k
          (some (record { next = none; previous = none; value = v }))
          j
        ≡ seg none ((k, v) ∷ []) none j
  unfolding seg
  update-single k v j = refl

  -- A new bucket that is linked before the first one.
  pub around-new :
      (k : K) (v : V) (es : List (K × V)) (j : K)
      → around k
          (record { next = head_or es none; previous = none; value = v })
          none
          []
          none
          (some k)
          es
          j
        ≡ seg none ((k, v) ∷ es) none j
  unfolding around seg
  around-new k v es j = refl
