-- ===== src/Write/ThreadSafeQueue.antt =====
-- The class template ThreadSafeQueue of olp-cpp-sdk-dataservice-write/src/ThreadSafeQueue.h and
-- ThreadSafeQueue.cpp. Each operation holds the mutex from its beginning to its end, so it is a
-- function of the vector `m_vec`; `none` where the code reads the front or back of an empty vector.
pub mod Order
pub mod Tests
use here_olp_edge_sdk_cpp.Prelude.{
  ℕ, zero, suc, ◌+◌, ◌-◌, ◌<◌, ◌≤◌, Bool, true, false, not, ◌&&◌, leb, ◌==◌, if◌then◌else◌, Option,
  none, some, List, [], ◌∷◌, ◌++◌, length, get_or, take, drop,
}

module _ {ℓ} {T : Type ℓ} where
  -- `std::rotate(begin, begin + n, end)`: the vector, and the index of the iterator that it gives.
  abbrev pub rotate : List T → ℕ → List T × ℕ
  rotate m_vec n = (drop n m_vec ++ take n m_vec, length m_vec - n)

  -- `m_vec.erase(std::rotate(begin, begin + n, end), end)`
  abbrev pub erase_rotated : List T → ℕ → List T
  erase_rotated m_vec n = let (rotated, it) = rotate m_vec n in take it rotated

  abbrev pub is_nil : List T → Bool
  is_nil [] = true
  is_nil (x ∷ xs) = false

  unfoldable pub empty : List T → Bool
  empty m_vec = is_nil m_vec

  unfoldable pub size : List T → ℕ
  size m_vec = length m_vec

  unfoldable pub front : List T → Option T
  front [] = none
  front (x ∷ xs) = some x

  unfoldable pub back : List T → Option T
  back [] = none
  back (x ∷ []) = some x
  back (x ∷ y ∷ xs) = back (y ∷ xs)

  -- push(val), also of an rvalue, and emplace()
  unfoldable pub push : List T → T → List T
  push m_vec val = m_vec ++ val ∷ []

  -- What both overloads do for a `maxSize` that is not 0.
  abbrev pub push_within : List T → T → ℕ → Bool → List T
  push_within m_vec val max_size overwrite =
      if leb max_size (length m_vec)
      then if overwrite
        then erase_rotated m_vec (length m_vec - max_size + 1) ++ val ∷ []
        else m_vec
      else m_vec ++ val ∷ []

  -- push(const value_type& val, maxSize, bOverwrite)
  unfoldable pub push_copied : List T → T → ℕ → Bool → List T
  push_copied m_vec val max_size overwrite =
      if max_size == 0 then [] else push_within m_vec val max_size overwrite

  -- push(value_type&& val, maxSize, bOverwrite)
  unfoldable pub push_moved : List T → T → ℕ → Bool → List T
  push_moved m_vec val max_size overwrite =
      if max_size == 0
      then if overwrite then [] else m_vec
      else push_within m_vec val max_size overwrite

  -- emplace_count(num, args...)
  unfoldable pub emplace_count : List T → ℕ → T → List T
  emplace_count m_vec zero val = m_vec
  emplace_count m_vec (suc num) val = emplace_count (m_vec ++ val ∷ []) num val

  -- pop()
  unfoldable pub pop : List T → List T
  pop m_vec = if not (is_nil m_vec) then erase_rotated m_vec 1 else m_vec

  -- pop(num)
  unfoldable pub pop_count : List T → ℕ → List T × Bool
  pop_count m_vec num =
      if not (num == 0) && leb num (length m_vec) then (drop num m_vec, true) else (m_vec, false)

  -- swap(x)
  unfoldable pub swap : List T → List T → List T × List T
  swap m_vec x = (x, m_vec)

  -- top(offset), where `empty_value` is the value of `{}`
  unfoldable pub top : List T → ℕ → T → T
  top m_vec offset empty_value =
      if leb (length m_vec) offset then empty_value else get_or m_vec offset empty_value

  -- try_pop(val): the vector, the value of `val` and the result
  unfoldable pub try_pop : List T → T → List T × T × Bool
  try_pop [] val = ([], val, false)
  try_pop (x ∷ xs) val = (erase_rotated (x ∷ xs) 1, x, true)
