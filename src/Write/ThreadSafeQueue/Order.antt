-- ===== src/Write/ThreadSafeQueue/Order.antt =====
-- The order in which a queue gives its values, and the bound of its size.
use here_olp_edge_sdk_cpp.Prelude.{
  ℕ, zero, suc, ◌+◌, ◌-◌, ◌<◌, ◌≤◌, ◌≡◌, refl, sym, ap, ◌∙◌, Bool, true, false, not, ◌&&◌, leb,
  ◌==◌, if◌then◌else◌, inl, inr, Bool-cases, leb→le, not-leb→lt, le→leb, arith, List, [], ◌∷◌, ◌++◌,
  length, take, drop, replicate, length-append, length-drop,
}
use here_olp_edge_sdk_cpp.Write.ThreadSafeQueue.{
  erase_rotated, push_within, push_copied, push_moved, emplace_count, pop, pop_count, try_pop,
}
use mathlib.Core.List.{append_assoc, append-nil}

pos→not-zero : (n : ℕ) → 0 < n → (n == 0) ≡ false
pos→not-zero n h = ground arith

module _ {ℓ} {T : Type ℓ} where
  take_all : (xs ys : List T) → take (length xs) (xs ++ ys) ≡ xs
  take_all [] ys = refl
  take_all (x ∷ xs) ys = ap (◌∷◌ x) (take_all xs ys)

  erase_rotated_lem : (xs : List T) (n : ℕ) → erase_rotated xs n ≡ drop n xs
  erase_rotated_lem xs n =
      ap (λ k. take k (drop n xs ++ take n xs)) (sym (length-drop n xs))
      ∙ take_all (drop n xs) (take n xs)

  drop-append : (n : ℕ) (xs ys : List T) → n ≤ length xs → drop n (xs ++ ys) ≡ drop n xs ++ ys
  drop-append zero xs ys h = refl
  drop-append (suc n) [] ys h = absurd (omega (arith, h))
  drop-append (suc n) (x ∷ xs) ys h = drop-append n xs ys (omega arith)

  drop_nil : (n : ℕ) → drop {A = T} n [] ≡ []
  drop_nil zero = refl
  drop_nil (suc n) = refl

  drop-drop : (m n : ℕ) (xs : List T) → drop m (drop n xs) ≡ drop (n + m) xs
  drop-drop m zero xs = ap (λ k. drop k xs) {x = m} {y = 0 + m} (omega arith)
  drop-drop m (suc n) [] = drop_nil m ∙ sym (drop_nil (suc n + m))
  drop-drop m (suc n) (x ∷ xs) =
      drop-drop m n xs ∙ ap (λ k. drop k (x ∷ xs)) {x = suc (n + m)} {y = suc n + m} (omega arith)

  -- A push that may overwrite, to at most `max_size` values, keeps the last ones.
  push_within_lem :
      (xs : List T) (val : T) (max_size : ℕ)
      → 0 < max_size
      → push_within xs val max_size true ≡ drop (suc (length xs) - max_size) (xs ++ val ∷ [])
  push_within_lem xs val max_size h = elim (Bool-cases (leb max_size (length xs))) [
    | inl full ↦
        rw (full, erase_rotated_lem)
          (sym (
            ap (λ n. drop n (xs ++ val ∷ [])) {x = suc (length xs) - max_size}
              {y = length xs - max_size + 1} (omega (arith, leb→le _ _ full))
            ∙ drop-append (length xs - max_size + 1) xs (val ∷ [])
                (omega (arith, leb→le _ _ full))))
    | inr room ↦ rw room (
        ap (λ n. drop n (xs ++ val ∷ [])) {x = 0} {y = suc (length xs) - max_size}
          (omega (arith, not-leb→lt _ _ room)))
  ]

  -- The queue after a push, which may overwrite, of each value.
  abbrev pub push_each : List T → List T → ℕ → List T
  push_each m_vec [] max_size = m_vec
  push_each m_vec (val ∷ vals) max_size =
      push_each (push_copied m_vec val max_size true) vals max_size

  push_each_from :
      (xs vals : List T) (max_size : ℕ)
      → 0 < max_size
      → push_each (drop (length xs - max_size) xs) vals max_size
        ≡ drop (length (xs ++ vals) - max_size) (xs ++ vals)
  unfolding push_copied
  push_each_from xs [] max_size h = ap (λ l. drop (length l - max_size) l) (sym (append-nil xs))
  push_each_from xs (val ∷ vals) max_size h =
      ap (λ q. push_each q vals max_size) one
      ∙ push_each_from (xs ++ val ∷ []) vals max_size h
      ∙ ap (λ l. drop (length l - max_size) l) (append_assoc xs (val ∷ []) vals)
    where
      n : ℕ
      n = length xs - max_size

      one :
          push_copied (drop n xs) val max_size true
          ≡ drop (length (xs ++ val ∷ []) - max_size) (xs ++ val ∷ [])
      one =
          ap (λ (b : Bool). if b then [] else push_within (drop n xs) val max_size true)
            (pos→not-zero max_size h)
          ∙ push_within_lem (drop n xs) val max_size h
          ∙ ap (drop (suc (length (drop n xs)) - max_size))
              (sym (drop-append n xs (val ∷ []) (omega arith)))
          ∙ drop-drop (suc (length (drop n xs)) - max_size) n (xs ++ val ∷ [])
          ∙ ap (λ k. drop k (xs ++ val ∷ [])) {x = n + (suc (length (drop n xs)) - max_size)}
              {y = length (xs ++ val ∷ []) - max_size}
              (omega (arith, length-drop n xs, length-append xs (val ∷ [])))

  -- Each push with the bound 0 leaves the queue empty.
  push_each_zero : (vals : List T) → push_each [] vals 0 ≡ []
  unfolding push_copied
  push_each_zero [] = refl
  push_each_zero (val ∷ vals) = push_each_zero vals

  drop_whole : (xs : List T) → drop (length xs) xs ≡ []
  drop_whole [] = refl
  drop_whole (x ∷ xs) = drop_whole xs

  -- A queue into which values are pushed, each with the bound `max_size` and leave to overwrite,
  -- keeps the last `max_size` of them in their order, and none if `max_size` is 0.
  pub push_each-nil :
      (vals : List T) (max_size : ℕ)
      → push_each [] vals max_size ≡ drop (length vals - max_size) vals
  push_each-nil vals zero =
      push_each_zero vals
      ∙ sym (
          ap (λ n. drop n vals) {x = length vals - 0} {y = length vals} (omega arith)
          ∙ drop_whole vals)
  push_each-nil vals (suc n) =
      ap (λ q. push_each q vals (suc n)) (sym (drop_nil (length {A = T} [] - suc n)))
      ∙ push_each_from [] vals (suc n) (omega arith)

  -- The values that calls of try_pop() give until it fails, on fuel.
  abbrev pub pop_each : ℕ → List T → T → List T
  pop_each zero m_vec val = []
  pop_each (suc fuel) m_vec val =
      let (m_vec', val', result) = try_pop m_vec val in
      let rest = pop_each fuel m_vec' val' in if result then val' ∷ rest else []

  -- The values that calls of try_pop() give until it fails are those of the queue, first in, first out;
  -- one call more than there are values is enough.
  pop_each-all : (m_vec : List T) (val : T) → pop_each (suc (length m_vec)) m_vec val ≡ m_vec
  unfolding try_pop
  pop_each-all [] val = refl
  pop_each-all (x ∷ xs) val =
      ap (◌∷◌ x) (
        ap (λ q. pop_each (suc (length xs)) q x) (erase_rotated_lem (x ∷ xs) 1) ∙ pop_each-all xs x)

  abbrev pub pops : ℕ → List T → List T
  pops zero m_vec = m_vec
  pops (suc n) m_vec = pops n (pop m_vec)

  pop_nil : (n : ℕ) → pops n [] ≡ []
  unfolding pop
  pop_nil zero = refl
  pop_nil (suc n) = pop_nil n

  pops-drop : (n : ℕ) (m_vec : List T) → pops n m_vec ≡ drop n m_vec
  unfolding pop
  pops-drop zero m_vec = refl
  pops-drop (suc n) [] = pop_nil n
  pops-drop (suc n) (x ∷ xs) = ap (pops n) (erase_rotated_lem (x ∷ xs) 1) ∙ pops-drop n xs

  -- pop(num) for a `num` that is neither 0 nor above the size is `num` calls of pop().
  pop_count-pops :
      (m_vec : List T) (num : ℕ)
      → 0 < num
      → num ≤ length m_vec
      → pop_count m_vec num ≡ (pops num m_vec, true)
  unfolding pop_count
  pop_count-pops m_vec num h h' =
      rw (pos→not-zero num h, le→leb num (length m_vec) h')
        (ap (λ q. (q, true)) (sym (pops-drop num m_vec)))

  emplace_count-replicate :
      (m_vec : List T) (num : ℕ) (val : T)
      → emplace_count m_vec num val ≡ m_vec ++ replicate num val
  unfolding emplace_count
  emplace_count-replicate m_vec zero val = sym (append-nil m_vec)
  emplace_count-replicate m_vec (suc num) val =
      emplace_count-replicate (m_vec ++ val ∷ []) num val
      ∙ append_assoc m_vec (val ∷ []) (replicate num val)

  -- The two overloads of the bounded push() differ only for the bound 0 without leave to overwrite,
  -- where that of a copied value clears the queue.
  push_copied-push_moved :
      (m_vec : List T) (val : T) (max_size : ℕ) (overwrite : Bool)
      → push_copied m_vec val max_size overwrite
        ≡ (if max_size == 0 && not overwrite then [] else push_moved m_vec val max_size overwrite)
  unfolding push_copied push_moved
  push_copied-push_moved m_vec val zero true = refl
  push_copied-push_moved m_vec val zero false = refl
  push_copied-push_moved m_vec val (suc n) overwrite = rw (pos→not-zero (suc n) (omega arith))
