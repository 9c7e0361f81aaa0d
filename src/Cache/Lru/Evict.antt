-- ===== src/Cache/Lru/Evict.antt =====
-- The loop of evict() keeps the longest beginning that fits.
use here_olp_edge_sdk_cpp.Prelude.{
  ◌>>=◌, bind_eq, ℕ, zero, suc, ◌+◌, ◌-◌, ◌%◌, ◌^◌, ◌≤◌, ◌<◌, ◌≡◌, refl, sym, ap, ◌∙◌, inl, inr,
  Bool, true, false, none, some, List, [], ◌∷◌, ◌++◌, length, length-append, arith, u64_mod,
  if◌then◌else◌, Bool-cases, ltb, ltb→lt, not-ltb→le,
}
use here_olp_edge_sdk_cpp.Cache.Lru.{
  LruCache, called, guarded, is_end, erase_at, pop_at, pop_last, evict_loop, evict,
}
use here_olp_edge_sdk_cpp.Cache.Lru.Chain.{Absent, Distinct, around-at, seg, seg-around}
use here_olp_edge_sdk_cpp.Cache.Lru.Lists.{Middle, Distinct-Middle, snoc_cases, last_or-append}
use here_olp_edge_sdk_cpp.Cache.Lru.Layout.{lay, bucket, erase_at-lay}
use here_olp_edge_sdk_cpp.Cache.Lru.Ideal.{
  total, total-append, fitting, excess, fitting_all, fitting-snoc,
}
use mathlib.Core.List.{append-nil, append_assoc}
use mathlib.Core.Path.{subst}

module _ {ℓ} {K V : Type ℓ} (dec : Discrete K) (cost : V → ℕ) where
  -- The bucket of an entry.
  pub find-entry :
      (xs : List (K × V)) (k : K) (v : V) (ys : List (K × V))
      → Absent k xs
      → seg dec none (xs ++ (k, v) ∷ ys) none k ≡ some (bucket dec xs v ys)
  find-entry xs k v ys a =
      seg-around dec k v xs ys k a
      ∙ around-at dec k (bucket dec xs v ys) none xs (some k) (some k) ys

  pop_last-lay :
      (xs : List (K × V)) (k : K) (v : V) (size max_size : ℕ) (has_callback : Bool)
      (evicted : List (K × V))
      → Middle xs k []
      → pop_last dec cost (lay dec (xs ++ (k, v) ∷ []) size max_size has_callback evicted)
        ≡ some (
            lay dec xs
              ((size + u64_mod - cost v) % u64_mod)
              max_size
              has_callback
              (called has_callback (k, v) evicted))
  unfolding pop_last
  pop_last-lay xs k v size max_size has_callback evicted m =
      ap (pop_at dec cost c) (last_or-append none xs ((k, v) ∷ []))
      ∙ bind_eq (λ b. guarded (is_end b.next) (erase_at dec cost c k true))
          (find-entry xs k v [] m.before)
      ∙ erase_at-lay dec cost xs k v [] size max_size has_callback evicted m true
      ∙ ap
          (λ (es : List (K × V)). some (
            lay dec es ((size + u64_mod - cost v) % u64_mod) max_size has_callback
              (called has_callback (k, v) evicted)))
          (append-nil xs)
    where
      c : LruCache K V
      c = lay dec (xs ++ (k, v) ∷ []) size max_size has_callback evicted

  abbrev pub logged : Bool → List (K × V) → List (K × V) → List (K × V)
  logged has_callback es evicted = if has_callback then es ++ evicted else evicted

  logged-snoc :
      (has_callback : Bool) (es : List (K × V)) (e : K × V) (evicted : List (K × V))
      → logged has_callback es (called has_callback e evicted)
        ≡ logged has_callback (es ++ e ∷ []) evicted
  logged-snoc true es e evicted = sym (append_assoc es (e ∷ []) evicted)
  logged-snoc false es e evicted = refl

  abbrev pub trimmed : List (K × V) → ℕ → Bool → List (K × V) → LruCache K V
  trimmed es max_size has_callback evicted =
      lay dec (fitting cost max_size es) (total cost (fitting cost max_size es)) max_size
        has_callback (logged has_callback (excess cost max_size es) evicted)

  logged_nil :
      (has_callback : Bool) (evicted : List (K × V)) → logged has_callback [] evicted ≡ evicted
  logged_nil true evicted = refl
  logged_nil false evicted = refl

  stays :
      (es : List (K × V)) (max_size : ℕ) (has_callback : Bool) (evicted : List (K × V))
      → total cost es ≤ max_size
      → lay dec es (total cost es) max_size has_callback evicted
        ≡ trimmed es max_size has_callback evicted
  stays es max_size has_callback evicted h =
      let (kept, dropped) = fitting_all cost max_size es h in rw (kept, dropped, logged_nil)

  evict_loop_stop :
      (fuel : ℕ) (c : LruCache K V)
      → ltb c.max_size c.size ≡ false
      → evict_loop dec cost (suc fuel) c ≡ some c
  unfolding evict_loop
  evict_loop_stop fuel c e = rw (e, evict_loop)

  evict_loop_step :
      (fuel : ℕ) (c : LruCache K V)
      → ltb c.max_size c.size ≡ true
      → evict_loop dec cost (suc fuel) c ≡ (pop_last dec cost c >>= evict_loop dec cost fuel)
  unfolding evict_loop
  evict_loop_step fuel c e = rw (e, evict_loop)

  -- One round takes the last entry.
  trimmed-snoc :
      (xs : List (K × V)) (e : K × V) (max_size : ℕ) (has_callback : Bool) (evicted : List (K × V))
      → max_size < total cost (xs ++ e ∷ [])
      → trimmed xs max_size has_callback (called has_callback e evicted)
        ≡ trimmed (xs ++ e ∷ []) max_size has_callback evicted
  trimmed-snoc xs e max_size has_callback evicted h =
      let (kept, dropped) = fitting-snoc cost max_size xs e h in rw (kept, dropped, logged-snoc)

  -- The loop of evict() ends: on a cache that is laid out from distinct entries, whose cost is below
  -- 2 ^ 64, any number of rounds above the number of the entries leaves the longest beginning of them
  -- that fits, and the callback is called with the others, the last one first.
  pub evict_loop-lay :
      (fuel : ℕ) (es : List (K × V)) (max_size : ℕ) (has_callback : Bool) (evicted : List (K × V))
      → length es < fuel
      → total cost es < 2 ^ 64
      → Distinct es
      → evict_loop dec cost fuel (lay dec es (total cost es) max_size has_callback evicted)
        ≡ some (trimmed es max_size has_callback evicted)
  evict_loop-lay zero es max_size has_callback evicted f t d = elim f [ ]
  evict_loop-lay (suc fuel) es max_size has_callback evicted f t d =
      elim (Bool-cases (ltb max_size (total cost es))) [
        | inr fits ↦
            evict_loop_stop fuel (lay dec es (total cost es) max_size has_callback evicted) fits
            ∙ ap some (stays es max_size has_callback evicted (not-ltb→le _ _ fits))
        | inl over ↦ elim (snoc_cases es) [
          | inl p ↦ absurd (omega (arith, ltb→lt _ _ over, ap (total cost) p))
          | inr (xs, e, p) ↦
              let m : Middle xs e.0 [] = Distinct-Middle xs e [] (subst Distinct p d) in
              let sum : total cost es ≡ total cost xs + cost e.1 =
                omega (arith, ap (total cost) p, total-append cost xs (e ∷ [])) in
              let left : (total cost es + u64_mod - cost e.1) % u64_mod ≡ total cost xs =
                omega arith in
              let shorter : length xs < fuel =
                omega (arith, ap length p, length-append xs (e ∷ [])) in
              evict_loop_step fuel (lay dec es (total cost es) max_size has_callback evicted) over
              ∙ bind_eq (evict_loop dec cost fuel) (
                  ap
                    (λ (l : List (K × V)).
                      pop_last dec cost (lay dec l (total cost es) max_size has_callback evicted))
                    p
                  ∙ pop_last-lay xs e.0 e.1 (total cost es) max_size has_callback evicted m)
              ∙ ap
                  (λ (n : ℕ).
                    evict_loop dec cost fuel
                      (lay dec xs n max_size has_callback (called has_callback e evicted)))
                  left
              ∙ evict_loop-lay fuel xs max_size has_callback (called has_callback e evicted) shorter
                  (omega arith) m.left
              ∙ ap some (
                  trimmed-snoc xs e max_size has_callback evicted
                    (omega (arith, ltb→lt _ _ over, ap (total cost) p)))
              ∙ ap (λ (l : List (K × V)). some (trimmed l max_size has_callback evicted)) (sym p)
        ]
      ]

  pub evict-lay :
      (es : List (K × V)) (max_size : ℕ) (has_callback : Bool) (evicted : List (K × V))
      → total cost es < 2 ^ 64
      → Distinct es
      → evict dec cost (lay dec es (total cost es) max_size has_callback evicted)
        ≡ some (trimmed es max_size has_callback evicted)
  unfolding evict
  evict-lay es max_size has_callback evicted t d =
      evict_loop-lay (suc (length es)) es max_size has_callback evicted (omega arith) t d
