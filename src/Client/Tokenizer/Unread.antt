-- ===== src/Client/Tokenizer/Unread.antt =====
-- Tokenizer: the tokens of a text that is known.
use here_olp_edge_sdk_cpp.Prelude.{
  ℕ, suc, ◌+◌, ◌-◌, ◌≤◌, true, false, none, some, ◌∷◌, ◌++◌, length, drop, ◌≡◌, refl, arith,
  le→not-ltb, ◌∙◌, length-append, length-drop, take-append, drop-append, drop-drop, ap,
}
use here_olp_edge_sdk_cpp.Prelude.Text.{
  Text, Lacks, is_empty, index_of-Lacks, index_of_first, substr, substr_count,
}
use here_olp_edge_sdk_cpp.Client.Tokenizer.{
  Tokenizer, tokenizer, has_next, find_first_of, next_until, next, tail, next_if, tail_if,
}

-- The unread text of a tokenizer that stands within its string.
pub record Unread (sep : ℕ) (t : Tokenizer) (text : Text) : Type 0 where
  pub splits : t.sep ≡ sep
  pub place : ℕ
  pub here : t.pos ≡ some place
  pub within : place ≤ length t.str
  pub left : drop place t.str ≡ text
  pub filled : is_empty t.str ≡ false

pub tokenizer-Unread :
    (sep : ℕ) (input : Text) → is_empty input ≡ false → Unread sep (tokenizer input sep) input
unfolding tokenizer
tokenizer-Unread sep input h = record {
  splits = refl;
  place = 0;
  here = refl;
  within = omega arith;
  left = refl;
  filled = h;
}

pub has_next-Unread :
    {sep : ℕ} {t : Tokenizer} {text : Text} → Unread sep t text → has_next t ≡ true
unfolding has_next
has_next-Unread u = rw (u.filled, u.here)

has_next_ended : (t : Tokenizer) → t.pos ≡ none → has_next t ≡ false
unfolding has_next
has_next_ended t e = rw e (ground arith)

drop_past : (sep p : ℕ) (s x y : Text) → drop p s ≡ x ++ sep ∷ y → drop (p + length x + 1) s ≡ y
drop_past sep p s x y h =
    drop-drop (p + length x) 1 s
    ∙ ap (drop 1) (drop-drop p (length x) s ∙ ap (drop (length x)) h ∙ drop-append x (sep ∷ y))

find_first_of-Unread :
    (sep : ℕ) (t : Tokenizer) (x y : Text) (u : Unread sep t (x ++ sep ∷ y))
    → Lacks sep x
    → find_first_of t u.place ≡ some (u.place + length x)
unfolding find_first_of
find_first_of-Unread sep t x y u h = rw (find_first_of, u.left, u.splits, index_of_first sep x y h)

-- The token before a separator, and the text behind it.
pub next-Unread :
    (sep : ℕ) (t : Tokenizer) (x y : Text)
    → Unread sep t (x ++ sep ∷ y)
    → Lacks sep x
    → (t' : Tokenizer) × (next t ≡ some (x, t')) × Unread sep t' y
unfolding next next_until substr_count find_first_of
next-Unread sep t x y u h =
    let count : u.place + length x - u.place ≡ length x = omega arith in
    let size : length (drop u.place t.str) ≡ length t.str - u.place = length-drop u.place t.str in
    let more : length (x ++ sep ∷ y) ≡ length x + suc (length y) = length-append x (sep ∷ y) in
    let whole : length (drop u.place t.str) ≡ length (x ++ sep ∷ y) = ap length u.left in
    (
      record t { pos = some (u.place + length x + 1) },
      rw (
        u.here,
        find_first_of-Unread sep t x y u h,
        next_until,
        substr_count,
        le→not-ltb u.place (length t.str) u.within,
        count,
        u.left,
        take-append x (sep ∷ y),
      ),
      record {
        splits = u.splits;
        place = u.place + length x + 1;
        here = refl;
        within = omega (arith, size, more, whole, u.within);
        left = drop_past sep u.place t.str x y u.left;
        filled = u.filled;
      },
    )

-- The last token.
next_last :
    (sep : ℕ) (t : Tokenizer) (x : Text)
    → Unread sep t x
    → Lacks sep x
    → (t' : Tokenizer) × (next t ≡ some (x, t')) × (t'.pos ≡ none)
unfolding next find_first_of next_until substr
next_last sep t x u h =
    let missing : find_first_of t u.place ≡ none =
      rw (find_first_of, u.left, u.splits, index_of-Lacks sep x h) in
    (
      record t { pos = none },
      rw (u.here, missing, next_until, substr, le→not-ltb u.place (length t.str) u.within, u.left),
      refl,
    )

-- tail() gives all the unread text.
tail-Unread :
    (sep : ℕ) (t : Tokenizer) (x : Text)
    → Unread sep t x
    → (t' : Tokenizer) × (tail t ≡ some (x, t')) × (t'.pos ≡ none)
unfolding tail substr
tail-Unread sep t x u = (
  record t { pos = none },
  rw (u.here, substr, le→not-ltb u.place (length t.str) u.within, u.left),
  refl,
)

-- A guarded read takes the next token of a tokenizer with unread text, and else keeps the field.
pub next_if-Unread :
    (sep : ℕ) (t : Tokenizer) (field x y : Text)
    → Unread sep t (x ++ sep ∷ y)
    → Lacks sep x
    → (t' : Tokenizer) × (next_if t field ≡ some (x, t')) × Unread sep t' y
unfolding next_if
next_if-Unread sep t field x y u h =
    let (t', e, u') = next-Unread sep t x y u h in (t', rw (has_next-Unread u) e, u')

pub next_if_last :
    (sep : ℕ) (t : Tokenizer) (field x : Text)
    → Unread sep t x
    → Lacks sep x
    → (t' : Tokenizer) × (next_if t field ≡ some (x, t')) × (t'.pos ≡ none)
unfolding next_if
next_if_last sep t field x u h =
    let (t', e, ended) = next_last sep t x u h in (t', rw (has_next-Unread u) e, ended)

next_if_ended : (t : Tokenizer) (field : Text) → t.pos ≡ none → next_if t field ≡ some (field, t)
unfolding next_if
next_if_ended t field e = rw (has_next_ended t e)

pub tail_if-Unread :
    (sep : ℕ) (t : Tokenizer) (field x : Text)
    → Unread sep t x
    → (t' : Tokenizer) × (tail_if t field ≡ some (x, t')) × (t'.pos ≡ none)
unfolding tail_if
tail_if-Unread sep t field x u =
    let (t', e, ended) = tail-Unread sep t x u in (t', rw (has_next-Unread u) e, ended)

pub tail_if_ended :
    (t : Tokenizer) (field : Text) → t.pos ≡ none → tail_if t field ≡ some (field, t)
unfolding tail_if
tail_if_ended t field e = rw (has_next_ended t e)
