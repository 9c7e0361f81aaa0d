-- ===== src/Prelude/Text.antt =====
-- Text as the list of its character codes, compared and searched as `std::string` is.
use Prim.Native.Nat.{ℕ, zero, suc, ◌<◌}
use Prim.Native.Char.{code}
use Prim.Native.String.{String}
use mathlib.Core.Path.{◌≡◌, refl}
use mathlib.Core.Logic.{◌≢◌, ◌↔◌}
use mathlib.Core.Bool.{Bool, true, false, ◌&&◌}
use mathlib.Core.Option.{Option, none, some}
use mathlib.Core.List.{List, [], ◌∷◌, ◌++◌}
use native.Mathlib.Omega.{arith}
use here_olp_edge_sdk_cpp.Prelude.Tests.{◌==◌, ltb, if◌then◌else◌}
use here_olp_edge_sdk_cpp.Prelude.Lists.{length, take, drop}

abbrev pub Text : Type 0
Text = List ℕ

-- The codes of a literal, which are its bytes if it is ASCII.
abbrev pub codes : String → Text
codes String.[] = []
codes (String.◌∷◌ c s) = code c ∷ codes s

unfoldable pub is_empty : Text → Bool
is_empty [] = true
is_empty (c ∷ s) = false

unfoldable pub str_eq : Text → Text → Bool
str_eq [] [] = true
str_eq [] (d ∷ t) = false
str_eq (c ∷ s) [] = false
str_eq (c ∷ s) (d ∷ t) = c == d && str_eq s t

pub str_eq_iff : (s t : Text) → (str_eq s t ≡ true) ↔ (s ≡ t)
unfolding str_eq
str_eq_iff [] [] = (λ h. refl, λ h. refl)
str_eq_iff [] (d ∷ t) = (λ h. cc, λ h. cc)
str_eq_iff (c ∷ s) [] = (λ h. cc, λ h. cc)
str_eq_iff (c ∷ s) (d ∷ t) = ground (arith, str_eq_iff s t)

pub str_eq_refl : (s : Text) → str_eq s s ≡ true
str_eq_refl s = (str_eq_iff s s).1 refl

-- The text has no such character.
abbrev pub Lacks : ℕ → Text → Type 0
Lacks sep [] = Unit
Lacks sep (c ∷ s) = (c ≢ sep) × Lacks sep s

-- `find_first_of(sep)`, counted from the beginning of the text.
unfoldable pub index_of : ℕ → Text → Option ℕ
index_of sep [] = none
index_of sep (c ∷ s) =
    if c == sep then some 0 else elim (index_of sep s) [ none ↦ none | some i ↦ some (suc i) ]

pub index_of-Lacks : (sep : ℕ) (s : Text) → Lacks sep s → index_of sep s ≡ none
unfolding index_of
index_of-Lacks sep [] h = refl
index_of-Lacks sep (c ∷ s) (hc, hs) = ground (arith, index_of-Lacks sep s hs)

pub index_of_first :
    (sep : ℕ) (s t : Text) → Lacks sep s → index_of sep (s ++ sep ∷ t) ≡ some (length s)
unfolding index_of
index_of_first sep [] t h = ground arith
index_of_first sep (c ∷ s) t (hc, hs) = ground (arith, index_of_first sep s t hs)

pub index_of_bound : (sep : ℕ) (s : Text) (i : ℕ) → index_of sep s ≡ some i → i < length s
unfolding index_of
index_of_bound sep [] i h = cc
index_of_bound sep (c ∷ s) zero h = omega arith
index_of_bound sep (c ∷ s) (suc i) h = ground (arith, index_of_bound sep s i)

-- `substr(begin)` and `substr(begin, count)`; `none` is the exception std::out_of_range.
unfoldable pub substr : Text → ℕ → Option Text
substr s begin = if ltb (length s) begin then none else some (drop begin s)

unfoldable pub substr_count : Text → ℕ → ℕ → Option Text
substr_count s begin count = if ltb (length s) begin then none else some (take count (drop begin s))
