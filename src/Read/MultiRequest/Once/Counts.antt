-- ===== src/Read/MultiRequest/Once/Counts.antt =====
-- Callbacks counted: those that wait in a context, and those that were called.
use here_olp_edge_sdk_cpp.Prelude.{
  ℕ, ◌+◌, ◌≤◌, ◌≡◌, refl, ap, ◌==◌, inl, inr, Option-cases, Bool-cases, Bool, Option, none, some,
  List, [], ◌∷◌, arith,
}
use here_olp_edge_sdk_cpp.Read.MultiRequest.{
  Context, Event, executed, token_cancelled, called, Requests, find, erase, replace, place, assign,
  with_token,
}

unfoldable pub of {ℓ} : {X : Type ℓ} → (X → ℕ) → Option X → ℕ
of g none = 0
of g (some x) = g x

module _ {ℓ} {K X : Type ℓ} (g : X → ℕ) where
  unfoldable pub sum : List (K × X) → ℕ
  sum [] = 0
  sum (e ∷ es) = g e.1 + sum es

module _ {ℓ} {K X : Type ℓ} (dec : Discrete K) (g : X → ℕ) where
  pub sum-erase :
      (k : K) (es : List (K × X)) → sum g (erase dec k es) + of g (find dec k es) ≡ sum g es
  unfolding sum of
  sum-erase k [] = omega arith
  sum-erase k (e ∷ es) = elim (dec e.0 k) [
    | yes p ↦ ground arith
    | no p ↦ ground (arith, sum-erase k es)
  ]

  sum-replace :
      (k : K) (x old : X) (es : List (K × X))
      → find dec k es ≡ some old
      → sum g (replace dec k x es) + g old ≡ sum g es + g x
  unfolding sum
  sum-replace k x old [] h = cc
  sum-replace k x old (e ∷ es) h = elim (dec e.0 k) [
    | yes p ↦ ground arith
    | no p ↦ ground (arith, sum-replace k x old es)
  ]

  sum-place :
      (before : K → K → Bool) (k : K) (x : X) (es : List (K × X))
      → sum g (place dec before k x es) ≡ sum g es + g x
  unfolding sum
  sum-place before k x [] = omega arith
  sum-place before k x (e ∷ es) = elim (Bool-cases (before k e.0)) [
    | inl h ↦ rw h (omega arith)
    | inr h ↦ rw h (omega (arith, sum-place before k x es))
  ]

  pub sum-assign :
      (before : K → K → Bool) (k : K) (x : X) (es : List (K × X))
      → sum g (assign dec before k x es) + of g (find dec k es) ≡ sum g es + g x
  unfolding of
  sum-assign before k x es = elim (Option-cases (find dec k es)) [
    | inl h ↦ rw h (omega (arith, sum-place before k x es))
    | inr (old, h) ↦ rw h (omega (arith, sum-replace k x old es h))
  ]

module _ {ℓ} {U C : Type ℓ} (w : C → ℕ) where
  -- Of a weight for each callback: that of a context, of all that wait, and of all that were called.
  unfoldable pub of_context : Context U C → ℕ
  of_context context = sum w context.callbacks

module _ {ℓ} {K U C : Type ℓ} (w : C → ℕ) where
  unfoldable pub waiting_in : List (K × Context U C) → ℕ
  unfolding of_context
  waiting_in active = sum (of_context w) active

  pub with_token-waiting :
      (address : ℕ) (active : List (K × Context U C))
      → waiting_in (with_token address active) ≡ waiting_in active
  unfolding waiting_in of_context sum
  with_token-waiting address [] = refl
  with_token-waiting address (e ∷ es) = elim (Bool-cases (e.1.address == address)) [
    | inl h ↦ rw h (ap (λ n. sum w e.1.callbacks + n) (with_token-waiting address es))
    | inr h ↦ rw h (ap (λ n. sum w e.1.callbacks + n) (with_token-waiting address es))
  ]

module _ {ℓ} {U C : Type ℓ} (dec_id : Discrete U) (w : C → ℕ) where
  unfoldable pub of_found : U → Option (Context U C) → ℕ
  of_found id none = 0
  of_found id (some context) = of w (find dec_id id context.callbacks)

  pub found-le : (id : U) (o : Option (Context U C)) → of_found id o ≤ of (of_context w) o
  unfolding of_found of of_context
  found-le id none = omega arith
  found-le id (some context) = omega (arith, sum-erase dec_id w id context.callbacks)

module _ {ℓ} {K C R : Type ℓ} (w : C → ℕ) where
  unfoldable pub called_in : List (Event K C R) → ℕ
  called_in [] = 0
  called_in (executed address key ∷ events) = called_in events
  called_in (token_cancelled address has_token ∷ events) = called_in events
  called_in (called c r ∷ events) = w c + called_in events

module _ {ℓ} {K U C R : Type ℓ} (w : C → ℕ) where
  unfoldable pub waiting : Requests K U C R → ℕ
  waiting s = waiting_in w s.active

  unfoldable pub calls : Requests K U C R → ℕ
  calls s = called_in w s.events
