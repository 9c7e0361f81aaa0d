-- ===== src/Client/Tokenizer.antt =====
-- The struct Tokenizer of olp-cpp-sdk-core/src/client/Tokenizer.h. A position is `none` where the
-- source has `std::string::npos`; a result is `none` where `substr` throws.
pub mod Unread
pub mod Bounds
use here_olp_edge_sdk_cpp.Prelude.{
  ℕ, ◌+◌, ◌-◌, ◌≤◌, ◌<◌, Bool, true, false, not, ◌&&◌, Option, none, some, ◌>>=◌, [], ◌∷◌, ◌++◌,
  drop, if◌then◌else◌, ◌≡◌, ◌∙◌,
}
use here_olp_edge_sdk_cpp.Prelude.Text.{Text, is_empty, index_of, substr, substr_count}

pub record Tokenizer : Type 0 where
  pub str : Text
  pub pos : Option ℕ
  pub sep : ℕ

unfoldable pub tokenizer : Text → ℕ → Tokenizer
tokenizer input separator = record { str = input; pos = some 0; sep = separator }

abbrev pub is_npos : Option ℕ → Bool
is_npos none = true
is_npos (some p) = false

unfoldable pub has_next : Tokenizer → Bool
has_next t = not (is_empty t.str) && not (is_npos t.pos)

-- `str.find_first_of(sep, pos)`
unfoldable pub find_first_of : Tokenizer → ℕ → Option ℕ
find_first_of t p = elim (index_of t.sep (drop p t.str)) [ none ↦ none | some i ↦ some (p + i) ]

-- The rest of next(), from the position of the separator.
unfoldable pub next_until : Tokenizer → ℕ → Option ℕ → Option (Text × Tokenizer)
next_until t begin none = do token ← substr t.str begin; some (token, record t { pos = none })
next_until t begin (some separator_position) = do
  token ← substr_count t.str begin (separator_position - begin)
  some (token, record t { pos = some (separator_position + 1) })

abbrev pub next_at : Tokenizer → Option ℕ → Option (Text × Tokenizer)
next_at t none = some ([], t)
next_at t (some begin) = next_until t begin (find_first_of t begin)

unfoldable pub next : Tokenizer → Option (Text × Tokenizer)
next t = next_at t t.pos

abbrev pub tail_at : Tokenizer → Option ℕ → Option (Text × Tokenizer)
tail_at t none = some ([], t)
tail_at t (some begin) = do token ← substr t.str begin; some (token, record t { pos = none })

unfoldable pub tail : Tokenizer → Option (Text × Tokenizer)
tail t = tail_at t t.pos

-- `if (tokenizer.hasNext()) field = tokenizer.next();`
unfoldable pub next_if : Tokenizer → Text → Option (Text × Tokenizer)
next_if t field = if has_next t then next t else some (field, t)

unfoldable pub tail_if : Tokenizer → Text → Option (Text × Tokenizer)
tail_if t field = if has_next t then tail t else some (field, t)
