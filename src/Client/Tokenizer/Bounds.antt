-- ===== src/Client/Tokenizer/Bounds.antt =====
-- Tokenizer: no position leaves the string, so `substr` does not throw.
use here_olp_edge_sdk_cpp.Prelude.{
  ℕ, ◌+◌, ◌≤◌, ◌<◌, Option, none, some, length, drop, ◌≡◌, refl, arith, le→not-ltb, ◌∙◌,
  length-drop, sym, inl, inr, Bool-cases, Option-cases, some-inj,
}
use here_olp_edge_sdk_cpp.Prelude.Text.{Text, index_of, index_of_bound, substr, substr_count}
use mathlib.Core.Path.{subst}
use here_olp_edge_sdk_cpp.Client.Tokenizer.{
  Tokenizer, tokenizer, has_next, find_first_of, next_until, next_at, next, tail_at, tail, next_if,
  tail_if,
}

-- The position lies in the string, the end included.
abbrev PosWithin : Text → Option ℕ → Type 0
PosWithin str none = Unit
PosWithin str (some p) = p ≤ length str

abbrev pub IsWithin : Tokenizer → Type 0
IsWithin t = PosWithin t.str t.pos

pub tokenizer-IsWithin : (input : Text) (sep : ℕ) → IsWithin (tokenizer input sep)
unfolding tokenizer
tokenizer-IsWithin input sep = omega arith

-- A read that ends without an exception, in a tokenizer that stands within its string.
abbrev pub Reads : Option (Text × Tokenizer) → Type 0
Reads none = ⊥
Reads (some (token, t)) = IsWithin t

find_first_of_bound :
    (t : Tokenizer) (p i : ℕ) → p ≤ length t.str → find_first_of t p ≡ some i → i < length t.str
unfolding find_first_of
find_first_of_bound t p i h e = elim (Option-cases (index_of t.sep (drop p t.str))) [
  | inl q ↦ let f : find_first_of t p ≡ none = rw (find_first_of, q) in cc
  | inr (j, q) ↦
      let f : find_first_of t p ≡ some (p + j) = rw (find_first_of, q) in
      let place : p + j ≡ i = some-inj (sym f ∙ e) in
      omega (arith, place, index_of_bound t.sep (drop p t.str) j q, length-drop p t.str)
]

next_until-Reads :
    (t : Tokenizer) (p : ℕ) (o : Option ℕ)
    → p ≤ length t.str
    → ((i : ℕ) → o ≡ some i → i < length t.str)
    → Reads (next_until t p o)
unfolding next_until substr substr_count
next_until-Reads t p none h k = rw (le→not-ltb p (length t.str) h) tt
next_until-Reads t p (some i) h k = rw (le→not-ltb p (length t.str) h) (omega (arith, k i refl))

next_at-Reads : (t : Tokenizer) (o : Option ℕ) → o ≡ t.pos → PosWithin t.str o → Reads (next_at t o)
next_at-Reads t none e h = subst (λ o. PosWithin t.str o) e tt
next_at-Reads t (some p) e h =
    next_until-Reads t p (find_first_of t p) h (λ i f. find_first_of_bound t p i h f)

pub next-Reads : (t : Tokenizer) → IsWithin t → Reads (next t)
unfolding next
next-Reads t h = next_at-Reads t t.pos refl h

tail_at-Reads : (t : Tokenizer) (o : Option ℕ) → o ≡ t.pos → PosWithin t.str o → Reads (tail_at t o)
unfolding substr
tail_at-Reads t none e h = subst (λ o. PosWithin t.str o) e tt
tail_at-Reads t (some p) e h = rw (le→not-ltb p (length t.str) h) tt

pub next_if-Reads : (t : Tokenizer) (field : Text) → IsWithin t → Reads (next_if t field)
unfolding next_if
next_if-Reads t field h = elim (Bool-cases (has_next t)) [
  | inl e ↦ rw e (next-Reads t h)
  | inr e ↦ rw e h
]

pub tail_if-Reads : (t : Tokenizer) (field : Text) → IsWithin t → Reads (tail_if t field)
unfolding tail_if tail
tail_if-Reads t field h = elim (Bool-cases (has_next t)) [
  | inl e ↦ rw e (tail_at-Reads t t.pos refl h)
  | inr e ↦ rw e h
]
