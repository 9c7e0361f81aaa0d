-- ===== src/Cache/Lru/Relink.antt =====
-- The relinking of the neighbours of a bucket that leaves its place.
use here_olp_edge_sdk_cpp.Prelude.{
  ◌>>=◌, ℕ, ◌≡◌, sym, ap, ◌∙◌, ◌≢◌, inl, inr, Option, none, some, List, [], ◌∷◌, ◌++◌,
}
use here_olp_edge_sdk_cpp.Cache.Lru.{
  Bucket, BucketMap, LruCache, set_next, relink_next, relink_previous,
}
use here_olp_edge_sdk_cpp.Cache.Lru.Chain.{
  head_or, last_or, Absent, Distinct, Absent-append, around, around-behind_nil, around-before_nil,
  set_previous-behind, set_next-before,
}
use here_olp_edge_sdk_cpp.Cache.Lru.Lists.{
  Middle, Distinct-append, Apart-head, snoc_cases, last_or-append, head_or-append,
}
use mathlib.Core.Path.{subst}

module _ {ℓ} {K V : Type ℓ} (dec : Discrete K) (k : K) where
  pub relink_next_lem :
      (c : LruCache K V) (b : Bucket K V) (xs : List (K × V)) (n q p : Option K) (ys : List (K × V))
      (count : ℕ)
      → Middle xs k ys
      → c.last ≡ last_or (some k) ys
      → relink_next dec c
          (record { find = around dec k b none xs n q ys; count = count })
          (head_or ys none)
          p
        ≡ some (record c {
          buckets = record { find = around dec k b none xs n p ys; count = count };
          last = last_or p ys;
        })
  relink_next_lem c b xs n q p [] count m l =
      ap
        (λ (f : K → Option (Bucket K V)).
          some (record c { buckets = record { find = f; count = count }; last = p }))
        (around-behind_nil dec k b none xs n q p)
  relink_next_lem c b xs n q p (f ∷ ys) count m l =
      ap (λ (r : Option (BucketMap K V)). r >>= λ m'. some (record c { buckets = m' }))
        (set_previous-behind dec k b none xs n q f ys count p (λ p. m.behind.0 (sym p))
          (Apart-head xs f ys m.apart))
      ∙ ap
          (λ (t : Option K). some (record c {
            buckets = record { find = around dec k b none xs n p (f ∷ ys); count = count };
            last = t;
          }))
          l

  -- The bucket before, or `first_`.
  pub relink_previous_lem :
      (c : LruCache K V) (b : Bucket K V) (xs : List (K × V)) (n q : Option K) (ys : List (K × V))
      (count : ℕ)
      → Middle xs k ys
      → c.first ≡ head_or xs (some k)
      → relink_previous dec
          (record c {
            buckets = record { find = around dec k b none xs (some k) q ys; count = count };
          })
          (last_or none xs)
          n
        ≡ some (record c {
          buckets = record { find = around dec k b none xs n q ys; count = count };
          first = head_or xs n;
        })
  relink_previous_lem c b xs n q ys count m l = elim (snoc_cases xs) [
    | inl p ↦
        subst Goal (sym p)
          (λ m l.
            ap
              (λ (f : K → Option (Bucket K V)).
                some (record c { buckets = record { find = f; count = count }; first = n }))
              (around-before_nil dec k b none none (some k) n q ys))
          m l
    | inr (zs, f, p) ↦ subst Goal (sym p) (snoc zs f) m l
  ]
    where
      Goal : List (K × V) → Type ℓ
      Goal xs =
          Middle xs k ys
          → c.first ≡ head_or xs (some k)
          → relink_previous dec
              (record c {
                buckets = record { find = around dec k b none xs (some k) q ys; count = count };
              })
              (last_or none xs) n
            ≡ some (record c {
              buckets = record { find = around dec k b none xs n q ys; count = count };
              first = head_or xs n;
            })

      snoc : (xs : List (K × V)) (f : K × V) → Goal (xs ++ f ∷ [])
      snoc xs f m l =
          let other : k ≢ f.0 = λ p. (Absent-append k xs (f ∷ []) m.before).1.0 (sym p) in
          let absent : Absent f.0 xs = Apart-head xs f [] (Distinct-append xs (f ∷ []) m.left).2 in
          let hf : c.first ≡ head_or (xs ++ f ∷ []) n =
            l ∙ head_or-append xs (f ∷ []) (some k) ∙ sym (head_or-append xs (f ∷ []) n) in
          ap
            (λ (t : Option K).
              relink_previous dec
                (record c {
                  buckets = record {
                    find = around dec k b none (xs ++ f ∷ []) (some k) q ys;
                    count = count;
                  };
                })
                t n)
            (last_or-append none xs (f ∷ []))
          ∙ ap (λ (r : Option (BucketMap K V)). r >>= λ m'. some (record c { buckets = m' }))
              (set_next-before dec k b none xs f (some k) q ys count n other absent)
          ∙ ap
              (λ (t : Option K). some (record c {
                buckets = record {
                  find = around dec k b none (xs ++ f ∷ []) n q ys;
                  count = count;
                };
                first = t;
              }))
              hf

  -- `it->second.previous_->second.setNext(...)` of a bucket that is not the first.
  pub set_next-last :
      (b : Bucket K V) (xs : List (K × V)) (n q : Option K) (ys : List (K × V)) (count : ℕ)
      → xs ≢ []
      → Absent k xs
      → Distinct xs
      → set_next dec
          (record { find = around dec k b none xs (some k) q ys; count = count })
          (last_or none xs)
          n
        ≡ some (record { find = around dec k b none xs n q ys; count = count })
  set_next-last b xs n q ys count h a d = elim (snoc_cases xs) [
    | inl p ↦ absurd (h p)
    | inr (zs, f, p) ↦ subst Goal (sym p) (snoc zs f) a d
  ]
    where
      Goal : List (K × V) → Type ℓ
      Goal xs =
          Absent k xs
          → Distinct xs
          → set_next dec (record { find = around dec k b none xs (some k) q ys; count = count })
              (last_or none xs) n
            ≡ some (record { find = around dec k b none xs n q ys; count = count })

      snoc : (xs : List (K × V)) (f : K × V) → Goal (xs ++ f ∷ [])
      snoc xs f a d =
          ap
            (λ (t : Option K).
              set_next dec
                (record { find = around dec k b none (xs ++ f ∷ []) (some k) q ys; count = count })
                t n)
            (last_or-append none xs (f ∷ []))
          ∙ set_next-before dec k b none xs f (some k) q ys count n
              (λ p. (Absent-append k xs (f ∷ []) a).1.0 (sym p))
              (Apart-head xs f [] (Distinct-append xs (f ∷ []) d).2)
