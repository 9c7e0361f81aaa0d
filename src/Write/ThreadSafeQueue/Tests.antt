-- ===== src/Write/ThreadSafeQueue/Tests.antt =====
-- ThreadSafeQueue on concrete queues.
use here_olp_edge_sdk_cpp.Prelude.{ℕ, ◌-◌, ◌≡◌, List, [], ◌∷◌, length, drop}
use here_olp_edge_sdk_cpp.Write.ThreadSafeQueue.Order.{push_each, push_each-nil}

abbrev values : List ℕ
values = 4 ∷ 7 ∷ 1 ∷ []

push_each-nil_example : push_each [] values 2 ≡ drop (length values - 2) values
push_each-nil_example = push_each-nil values 2
