-- ===== src/Cache/Lru/Tests.antt =====
-- LruCache on concrete caches, with numbers for keys and values, a value being its own cost.
use here_olp_edge_sdk_cpp.Prelude.{ℕ, ◌≡◌, true, some, List, [], ◌∷◌, arith}
use here_olp_edge_sdk_cpp.Cache.Lru.{empty, insert_or_assign, evict_loop}
use here_olp_edge_sdk_cpp.Cache.Lru.Chain.{Distinct}
use here_olp_edge_sdk_cpp.Cache.Lru.Layout.{lay}
use here_olp_edge_sdk_cpp.Cache.Lru.Ideal.{Ideal, IsKept, ideal_insert_or_assign}
use here_olp_edge_sdk_cpp.Cache.Lru.Evict.{trimmed, evict_loop-lay}
use here_olp_edge_sdk_cpp.Cache.Lru.Refine.{laid, answered, insert_or_assign-laid}
use here_olp_edge_sdk_cpp.Cache.Lru.Runs.{
  Call, finding, inserting, assigning, erasing, resizing, AreSmall, perform_all, ideal_perform_all,
  ideal_empty, perform_all-empty,
}
use native.Mathlib.Decide.{ℕ_discrete}

abbrev cost : ℕ → ℕ
cost v = v

abbrev two_entries : List (ℕ × ℕ)
two_entries = (1, 2) ∷ (3, 1) ∷ []

abbrev two : Ideal ℕ ℕ
two = record { entries = two_entries; max_size = 4; has_callback = true; evicted = [] }

two-Distinct : Distinct two_entries
two-Distinct = (((λ e. omega (arith, e)), tt), (tt, tt))

two-IsKept : IsKept cost two
two-IsKept = record { distinct = two-Distinct; within = omega arith; machine = omega arith }

insert_or_assign-laid_example :
    insert_or_assign ℕ_discrete cost (laid ℕ_discrete cost two) 3 4
    ≡ answered ℕ_discrete cost (ideal_insert_or_assign ℕ_discrete cost two 3 4)
insert_or_assign-laid_example =
    insert_or_assign-laid ℕ_discrete cost two 3 4 two-IsKept (omega arith)

evict_loop-lay_example :
    evict_loop ℕ_discrete cost 3 (lay ℕ_discrete two_entries 3 1 true [])
    ≡ some (trimmed ℕ_discrete cost two_entries 1 true [])
evict_loop-lay_example =
    evict_loop-lay ℕ_discrete cost 3 two_entries 1 true [] (omega arith) (omega arith) two-Distinct

abbrev some_calls : List (Call ℕ ℕ)
some_calls = inserting 1 2 ∷ assigning 3 1 ∷ finding 1 ∷ inserting 5 2 ∷ erasing 1 ∷ resizing 1 ∷ []

some_calls-AreSmall : AreSmall cost some_calls
some_calls-AreSmall = (omega arith, (omega arith, (tt, (omega arith, (tt, (omega arith, tt))))))

perform_all-empty_example :
    let s = ideal_perform_all ℕ_discrete cost (ideal_empty ℕ_discrete cost 4 true) some_calls in
    (perform_all ℕ_discrete cost (empty 4 true) some_calls ≡ some (laid ℕ_discrete cost s))
    × IsKept cost s
perform_all-empty_example =
    perform_all-empty ℕ_discrete cost 4 true some_calls (omega arith) some_calls-AreSmall
