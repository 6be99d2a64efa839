-- ===== src/Unicode.antt =====
-- What the source uses of Python's `str`. The Unicode character database is a parameter: the value
-- `ascii` is the database cut down to ASCII, for tests.
pub mod Decimal
use pc_helper_ios.Prelude.{
  ℕ, zero, suc, ◌+◌, ◌-◌, ◌*◌, ◌/◌, ◌%◌, ◌^◌, ◌≤◌, ◌<◌, min, max, String, ◌≡◌, refl, sym, ap, ◌∙◌,
  subst, fun_ext, ◌≢◌, ◌↔◌, ◌⊎◌, inl, inr, Bool, true, false, ◌&&◌, ◌||◌, not, Option, none, some,
  List, [], ◌∷◌, ◌++◌, map, reverse, arith, ltb, leb, ◌==◌, if◌then◌else◌, ltb→lt, lt→ltb, leb→le,
  le→leb, ==_iff, Bool-cases, Option-cases, is_some, length, take, drop, keep, any, all, find,
  length-append, length-keep-le, length-drop, insert_by, sort_by, length-sort_by, All, All-append,
  All-keep, Text, codes, text_eq, text_eq_refl, text_eq_iff,
}
unfoldable pub use Decimal.{to_decimal, of_decimal}
use Decimal.{value_from}

pub record Unicode : Type 0 where
  -- `c.isdigit()`, and the value that `int` gives the digit, if it is a decimal one
  pub is_digit : ℕ → Bool
  pub digit_value : ℕ → Option ℕ
  pub is_space : ℕ → Bool
  pub is_alnum : ℕ → Bool
  pub upper : ℕ → Text
  pub lower : ℕ → Text

abbrev pub between : ℕ → ℕ → ℕ → Bool
between lo hi c = leb lo c && leb c hi

abbrev pub ascii : Unicode
ascii = record {
  is_digit = between 48 57;
  digit_value = λ c. if between 48 57 c then some (c - 48) else none;
  is_space = λ c. c == 32 || between 9 13 c || between 28 31 c;
  is_alnum = λ c. between 48 57 c || between 65 90 c || between 97 122 c;
  upper = λ c. (if between 97 122 c then c - 32 else c) ∷ [];
  lower = λ c. (if between 65 90 c then c + 32 else c) ∷ [];
}

-- `s.lstrip(p)` and `s.rstrip(p)` for the characters that pass `p`
unfoldable pub strip_left : (ℕ → Bool) → Text → Text
strip_left p [] = []
strip_left p (c ∷ s) = let rest = strip_left p s in if p c then rest else c ∷ s

abbrev keep_end : Bool → ℕ → Text → Text
keep_end strip c [] = if strip then [] else c ∷ []
keep_end strip c (d ∷ s) = c ∷ d ∷ s

unfoldable pub strip_right : (ℕ → Bool) → Text → Text
strip_right p [] = []
strip_right p (c ∷ s) = keep_end (p c) c (strip_right p s)

module _ (u : Unicode) where
  unfoldable pub strip : Text → Text
  unfolding strip_left strip_right
  strip s = strip_right u.is_space (strip_left u.is_space s)

  -- `s.isdigit()`: not empty, and digits only
  unfoldable pub is_digits : Text → Bool
  is_digits s = ltb 0 (length s) && all u.is_digit s

  -- `int(s)` of a text of digits: a digit that is not decimal, or more than 4300 of them, is a
  -- ValueError
  unfoldable pub int_of : Text → Option ℕ
  unfolding value_from
  int_of s = if leb (length s) 4300 then value_from u.digit_value 0 s else none

  unfoldable pub to_upper : Text → Text
  to_upper [] = []
  to_upper (c ∷ s) = u.upper c ++ to_upper s

  unfoldable pub to_lower : Text → Text
  to_lower [] = []
  to_lower (c ∷ s) = u.lower c ++ to_lower s

-- the words of a text, `s.split()`
abbrev flush : Text → List Text → List Text
flush [] ws = ws
flush (c ∷ s) ws = (c ∷ s) ∷ ws

unfoldable pub words_from : (ℕ → Bool) → Text → Text → List Text
words_from space word [] = flush word []
words_from space word (c ∷ s) =
    let ended = flush word (words_from space [] s) in
    let longer = words_from space (word ++ c ∷ []) s in if space c then ended else longer

-- `" ".join(words)`
unfoldable pub unwords : List Text → Text
unwords [] = []
unwords (w ∷ []) = w
unwords (w ∷ v ∷ ws) = w ++ 32 ∷ unwords (v ∷ ws)

-- `s.encode()`, in UTF-8
abbrev utf8_char : ℕ → Text
utf8_char c =
    if ltb c 128
    then c ∷ []
    else if ltb c 2048
    then (192 + c / 64) ∷ (128 + c % 64) ∷ []
    else if ltb c 65536
    then (224 + c / 4096) ∷ (128 + c / 64 % 64) ∷ (128 + c % 64) ∷ []
    else (240 + c / 262144) ∷ (128 + c / 4096 % 64) ∷ (128 + c / 64 % 64) ∷ (128 + c % 64) ∷ []

unfoldable pub utf8 : Text → Text
utf8 [] = []
utf8 (c ∷ s) = utf8_char c ++ utf8 s

-- The laws of the database that proofs rely on: on ASCII it is `ascii`, and no other character
-- turns into a line feed.
pub record IsDatabase (u : Unicode) : Type 0 where
  pub digit_ascii : (c : ℕ) → c < 128 → u.is_digit c ≡ ascii.is_digit c
  pub digit_value_ascii : (c : ℕ) → c < 128 → u.digit_value c ≡ ascii.digit_value c
  pub space_ascii : (c : ℕ) → c < 128 → u.is_space c ≡ ascii.is_space c
  pub upper_line : (c : ℕ) → all (λ d. not (d == 10)) (u.upper c) ≡ not (c == 10)

pub IsDatabase-ascii : IsDatabase ascii
IsDatabase-ascii = record {
  digit_ascii = λ c h. refl;
  digit_value_ascii = λ c h. refl;
  space_ascii = λ c h. refl;
  upper_line = λ c. ground arith;
}
