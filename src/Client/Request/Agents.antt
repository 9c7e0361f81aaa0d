-- ===== src/Client/Request/Agents.antt =====
-- The comparison of a header's name with that of the user agent, against its spellings.
use here_olp_edge_sdk_cpp.Prelude.{
  ℕ, Bool, true, false, ◌&&◌, ◌||◌, ◌==◌, ==-eq, ==-ne, eq_cases, suc, length, arith, inl, inr, [],
  ◌∷◌, ◌≡◌, refl, sym, ap, ◌∙◌,
}
use here_olp_edge_sdk_cpp.Prelude.Text.{Text, codes}
use here_olp_edge_sdk_cpp.Client.Request.{
  k_user_agent_header, case_insensitive_compare, to_lower, all_equal,
}

-- A text that is spelt with the letters of two others, in any mixture.
abbrev pub spells : Text → Text → Text → Bool
spells [] [] [] = true
spells (c ∷ s) (l ∷ ls) (u ∷ us) = (c == l || c == u) && spells s ls us
spells s ls us = false

abbrev pub is_agent : Text → Bool
is_agent name = spells name (codes "user-agent") (codes "USER-AGENT")

-- Each character of a text is the same as those of two others, but for the case.
abbrev Cased : Text → Text → Text → Type 0
Cased [] [] [] = Unit
Cased (d ∷ t) (l ∷ ls) (u ∷ us) =
    ((c : ℕ) → (c == d || to_lower c == to_lower d) ≡ (c == l || c == u)) × Cased t ls us
Cased t ls us = ⊥

user_agent-Cased : Cased k_user_agent_header (codes "user-agent") (codes "USER-AGENT")
unfolding to_lower
user_agent-Cased = (
  λ c. ground arith,
  (
    λ c. ground arith,
    (
      λ c. ground arith,
      (
        λ c. ground arith,
        (
          λ c. ground arith,
          (
            λ c. ground arith,
            (λ c. ground arith, (λ c. ground arith, (λ c. ground arith, (λ c. ground arith, tt)))),
          ),
        ),
      ),
    ),
  ),
)

suc_eq : (a b : ℕ) → (suc a == suc b) ≡ (a == b)
suc_eq a b = elim (eq_cases a b) [
  | inl e ↦ ==-eq (suc a) (suc b) (omega (arith, e)) ∙ sym (==-eq a b e)
  | inr e ↦ ==-ne (suc a) (suc b) (λ f. e (omega (arith, f))) ∙ sym (==-ne a b e)
]

and_swap : (p x a : Bool) → (p && (x && a)) ≡ (x && (p && a))
and_swap true x a = refl
and_swap false true a = refl
and_swap false false a = refl

compare-spells :
    (s t ls us : Text) → Cased t ls us → (length s == length t && all_equal s t) ≡ spells s ls us
compare-spells [] [] [] [] h = refl
compare-spells [] [] [] (u ∷ us) h = absurd h
compare-spells [] [] (l ∷ ls) us h = absurd h
compare-spells [] (d ∷ t) [] us h = absurd h
compare-spells [] (d ∷ t) (l ∷ ls) [] h = absurd h
compare-spells [] (d ∷ t) (l ∷ ls) (u ∷ us) h =
    ap (λ b. b && true) (==-ne 0 (suc (length t)) (λ e. absurd (omega (arith, e))))
compare-spells (c ∷ s) [] [] [] h =
    ap (λ b. b && true) (==-ne (suc (length s)) 0 (λ e. absurd (omega (arith, e))))
compare-spells (c ∷ s) [] [] (u ∷ us) h = absurd h
compare-spells (c ∷ s) [] (l ∷ ls) us h = absurd h
compare-spells (c ∷ s) (d ∷ t) [] us h = absurd h
compare-spells (c ∷ s) (d ∷ t) (l ∷ ls) [] h = absurd h
compare-spells (c ∷ s) (d ∷ t) (l ∷ ls) (u ∷ us) (here, more) =
    ap (λ b. b && ((c == d || to_lower c == to_lower d) && all_equal s t))
      (suc_eq (length s) (length t))
    ∙ and_swap (length s == length t) (c == d || to_lower c == to_lower d) (all_equal s t)
    ∙ ap (λ b. b && (length s == length t && all_equal s t)) (here c)
    ∙ ap (λ b. (c == l || c == u) && b) (compare-spells s t ls us more)

-- The comparison of the code, against the two spellings.
pub case_insensitive_compare-is_agent :
    (name : Text) → case_insensitive_compare name k_user_agent_header ≡ is_agent name
unfolding case_insensitive_compare
case_insensitive_compare-is_agent name =
    compare-spells name k_user_agent_header (codes "user-agent") (codes "USER-AGENT")
      user_agent-Cased
