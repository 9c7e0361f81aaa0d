-- ===== src/Cache/Lru/Add.antt =====
-- AddInternal(): a new bucket at the front, or an old one with another value.
use here_olp_edge_sdk_cpp.Prelude.{
  ◌>>=◌, bind_eq, ℕ, suc, ◌+◌, ◌-◌, ◌%◌, ◌^◌, ◌<◌, ◌≡◌, sym, ap, ◌∙◌, Bool, false, Option, none,
  some, List, [], ◌∷◌, ◌++◌, length, length-append, arith, u64_mod, ◌==◌,
}
use here_olp_edge_sdk_cpp.Cache.Lru.{
  Bucket, LruCache, update, map_insert, set_value, link_new, add_new, add_again, evict, promote,
}
use here_olp_edge_sdk_cpp.Cache.Lru.Chain.{
  append-Absent, head_or, last_or, Absent, Distinct, seg, seg-around, around-new, around-value,
  update-seg, update-single, set_next-at, set_previous-behind,
}
use here_olp_edge_sdk_cpp.Cache.Lru.Lists.{Middle, Middle-Distinct, last_or-append, head_or-append}
use here_olp_edge_sdk_cpp.Cache.Lru.Layout.{lay, bucket}
use here_olp_edge_sdk_cpp.Cache.Lru.Promote.{promote-lay}
use here_olp_edge_sdk_cpp.Cache.Lru.Ideal.{total, total-append}
use here_olp_edge_sdk_cpp.Cache.Lru.Evict.{find-entry, trimmed, evict-lay}
use mathlib.Core.Logic.{ite}
use mathlib.Core.Path.{fun_ext}

module _ {ℓ} {K V : Type ℓ} (dec : Discrete K) (cost : V → ℕ) (k : K) (v : V) (max_size : ℕ)
    (has_callback : Bool) (evicted : List (K × V)) where
  -- The cache once the map has the bucket.
  abbrev pub inserted : List (K × V) → ℕ → LruCache K V
  inserted es size =
      let c = lay dec es size max_size has_callback evicted in
      record c {
        buckets = map_insert dec c.buckets k (record { next = none; previous = none; value = v });
      }

  link_new-lay :
      (es : List (K × V)) (size : ℕ)
      → Absent k es
      → link_new dec cost (inserted es size) k ((inserted es size).buckets.count == 1)
        ≡ some (lay dec ((k, v) ∷ es) size max_size has_callback evicted)
  link_new-lay [] size a =
      ap
        (λ (f : K → Option (Bucket K V)).
          some (record (lay dec ((k, v) ∷ []) size max_size has_callback evicted) {
            buckets = record { find = f; count = 1 };
          }))
        (fun_ext (λ j. update-single dec k v j))
  link_new-lay (e ∷ es) size a =
      ap (link_new dec cost (inserted (e ∷ es) size) k) {x = suc (suc (length es)) == 1} {y = false}
        (ground arith)
      ∙ ap
          (λ (f : K → Option (Bucket K V)).
            link_new dec cost
              (record (inserted (e ∷ es) size) {
                buckets = record { find = f; count = suc (suc (length es)) };
              })
              k false)
          (fun_ext
            (λ j. update-seg dec k (record { next = none; previous = none; value = v }) (e ∷ es) j))
      ∙ bind_eq _ (
          set_next-at dec k (record { next = none; previous = none; value = v }) none [] none none
            (e ∷ es) (suc (suc (length es))) (some e.0))
      ∙ bind_eq _ (
          set_previous-behind dec k (record { next = some e.0; previous = none; value = v }) none []
            none none e es (suc (suc (length es))) (some k) (λ p. a.0 (sym p)) tt)
      ∙ ap
          (λ (f : K → Option (Bucket K V)).
            some (record (lay dec ((k, v) ∷ e ∷ es) size max_size has_callback evicted) {
              buckets = record { find = f; count = suc (suc (length es)) };
            }))
          (fun_ext (λ j. around-new dec k v (e ∷ es) j))

  pub add_new-lay :
      (es : List (K × V))
      → Absent k es
      → Distinct es
      → total cost es + cost v < 2 ^ 64
      → add_new dec cost (inserted es (total cost es)) k (cost v)
        ≡ some (trimmed dec cost ((k, v) ∷ es) max_size has_callback evicted)
  unfolding add_new
  add_new-lay es a d h =
      bind_eq (λ c. evict dec cost (record c { size = (c.size + cost v) % u64_mod }))
        (link_new-lay es (total cost es) a)
      ∙ ap (λ (n : ℕ). evict dec cost (lay dec ((k, v) ∷ es) n max_size has_callback evicted))
          {x = (total cost es + cost v) % u64_mod} {y = cost v + total cost es} (omega arith)
      ∙ evict-lay dec cost ((k, v) ∷ es) max_size has_callback evicted (omega arith) (a, d)

  -- The same entry with the value `v` in place of `w`.
  set_value-lay :
      (xs : List (K × V)) (w : V) (ys : List (K × V))
      → Absent k xs
      → set_value dec
          (record {
            find = seg dec none (xs ++ (k, w) ∷ ys) none;
            count = length (xs ++ (k, w) ∷ ys);
          })
          k
          v
        ≡ some (record {
          find = seg dec none (xs ++ (k, v) ∷ ys) none;
          count = length (xs ++ (k, v) ∷ ys);
        })
  set_value-lay xs w ys a =
      bind_eq
        (λ b. some (record {
          find =
              update dec (seg dec none (xs ++ (k, w) ∷ ys) none) k (some (record b { value = v }));
          count = length (xs ++ (k, w) ∷ ys);
        }))
        (find-entry dec cost xs k w ys a)
      ∙ (λ i. some (record { find = fun_ext pointwise i; count = same_length i }))
    where
      pointwise :
          (j : K)
          → update dec (seg dec none (xs ++ (k, w) ∷ ys) none) k (some (bucket dec xs v ys)) j
            ≡ seg dec none (xs ++ (k, v) ∷ ys) none j
      pointwise j =
          ap (λ (t : Option (Bucket K V)). ite (dec k j) (some (bucket dec xs v ys)) t)
            (seg-around dec k w xs ys j a)
          ∙ around-value dec k (bucket dec xs w ys) none xs (some k) (some k) ys v j
          ∙ sym (seg-around dec k v xs ys j a)

      same_length : length (xs ++ (k, w) ∷ ys) ≡ length (xs ++ (k, v) ∷ ys)
      same_length = omega (arith, length-append xs ((k, w) ∷ ys), length-append xs ((k, v) ∷ ys))

  pub add_again-lay :
      (xs : List (K × V)) (w : V) (ys : List (K × V))
      → Middle xs k ys
      → total cost (xs ++ (k, w) ∷ ys) < 2 ^ 64
      → total cost (xs ++ ys) + cost v < 2 ^ 64
      → (do
        m ←
            set_value dec
              (lay dec
                (xs ++ (k, w) ∷ ys)
                (total cost (xs ++ (k, w) ∷ ys))
                max_size
                has_callback
                evicted).buckets
              k
              v
        add_again dec cost
            (record (lay dec
              (xs ++ (k, w) ∷ ys)
              (total cost (xs ++ (k, w) ∷ ys))
              max_size
              has_callback
              evicted) { buckets = m })
            k
            (cost v)
            (cost w))
        ≡ some (trimmed dec cost ((k, v) ∷ (xs ++ ys)) max_size has_callback evicted)
  unfolding add_again
  add_again-lay xs w ys m old new =
      bind_eq _ (set_value-lay xs w ys m.before)
      ∙ ap (λ (c : LruCache K V). promote dec c k >>= evict dec cost) laid
      ∙ bind_eq (evict dec cost) (
          promote-lay dec xs k v ys (total cost ((k, v) ∷ (xs ++ ys))) max_size has_callback evicted
            m)
      ∙ evict-lay dec cost ((k, v) ∷ (xs ++ ys)) max_size has_callback evicted (omega arith)
          (append-Absent k xs ys m.before m.behind, Middle-Distinct xs k ys m)
    where
      before : List (K × V)
      before = xs ++ (k, w) ∷ ys

      after : List (K × V)
      after = xs ++ (k, v) ∷ ys

      sums : (total cost before + cost v ≡ total cost ((k, v) ∷ (xs ++ ys)) + cost w)
      sums = omega (arith, total-append cost xs ((k, w) ∷ ys), total-append cost xs ys)

      laid :
          record (lay dec after (total cost before) max_size has_callback evicted) {
            first = head_or before none;
            last = last_or none before;
            size = (total cost before + (cost v + u64_mod - cost w) % u64_mod) % u64_mod;
          }
          ≡ lay dec after (total cost ((k, v) ∷ (xs ++ ys))) max_size has_callback evicted
      laid = λ i. record (lay dec after (total cost before) max_size has_callback evicted) {
        first =
            (head_or-append xs ((k, w) ∷ ys) none ∙ sym (head_or-append xs ((k, v) ∷ ys) none)) i;
        last =
            (last_or-append none xs ((k, w) ∷ ys) ∙ sym (last_or-append none xs ((k, v) ∷ ys))) i;
        size = resized i;
      }
        where
          resized :
              (total cost before + (cost v + u64_mod - cost w) % u64_mod) % u64_mod
              ≡ total cost ((k, v) ∷ (xs ++ ys))
          resized = omega (arith, sums, total-append cost xs ((k, w) ∷ ys), total-append cost xs ys)
