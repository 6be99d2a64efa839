-- ===== src/Crypto/Canonical/Lines.antt =====
-- Lines that hold no line end are read back one by one.
use pc_helper_ios.Prelude.{
  ℕ, ◌≡◌, refl, ◌∙◌, Bool, true, false, ◌&&◌, not, List, [], ◌∷◌, ◌++◌, arith, ◌==◌, any, all, All,
  Text,
}
use pc_helper_ios.Errors.{ok}
use pc_helper_ios.Unicode.{Unicode, IsDatabase, to_upper, to_decimal}
use pc_helper_ios.Unicode.Decimal.{all-to_decimal}
use pc_helper_ios.Crypto.Canonical.{field, lines, is_line_end, encode_ascii}

-- no line feed
abbrev pub is_line : Text → Bool
is_line = all (λ c. not (c == 10))

-- The first line of a text with a line feed is determined, and so is the rest.
pub first_line :
    (p q r s : Text)
    → is_line p ≡ true
    → is_line q ≡ true
    → p ++ 10 ∷ r ≡ q ++ 10 ∷ s
    → (p ≡ q) × (r ≡ s)
first_line [] [] r s h k e = ground arith
first_line [] (d ∷ q) r s h k e = ground arith
first_line (c ∷ p) [] r s h k e = ground arith
first_line (c ∷ p) (d ∷ q) r s h k e = ground (arith, first_line p q r s)

pub lines-injective :
    (ps qs : List Text)
    → All (λ p. is_line p ≡ true) ps
    → All (λ q. is_line q ≡ true) qs
    → lines ps ≡ lines qs
    → ps ≡ qs
unfolding lines
lines-injective [] [] h k e = refl
lines-injective [] ([] ∷ qs) h k e = cc
lines-injective [] ((c ∷ q) ∷ qs) h k e = cc
lines-injective ([] ∷ ps) [] h k e = cc
lines-injective ((c ∷ p) ∷ ps) [] h k e = cc
lines-injective (p ∷ ps) (q ∷ qs) h k e =
    let (same, rest) = first_line p q (lines ps) (lines qs) h.0 k.0 e in
    cc (same, lines-injective ps qs h.1 k.1 rest)

is_line-field : (s : Text) → any is_line_end s ≡ false → is_line s ≡ true
is_line-field [] h = refl
is_line-field (c ∷ s) h = ground (arith, is_line-field s)

-- A field that is accepted is taken as it is, and is one line.
pub field-ok : (s t : Text) → field s ≡ ok t → (t ≡ s) × (is_line s ≡ true)
unfolding field
field-ok s t h = ground (arith, is_line-field s)

all-append : (p : ℕ → Bool) (s t : Text) → all p (s ++ t) ≡ (all p s && all p t)
all-append p [] t = refl
all-append p (c ∷ s) t = ground (arith, all-append p s t)

pub is_line-to_upper :
    (u : Unicode) → IsDatabase u → (s : Text) → is_line (to_upper u s) ≡ is_line s
unfolding to_upper
is_line-to_upper u db [] = refl
is_line-to_upper u db (c ∷ s) =
    all-append _ (u.upper c) (to_upper u s) ∙ cc (db.upper_line c, is_line-to_upper u db s)

pub encode_ascii-ok : (s t : Text) → encode_ascii s ≡ ok t → t ≡ s
unfolding encode_ascii
encode_ascii-ok s t h = ground arith

pub is_line-to_decimal : (n : ℕ) → is_line (to_decimal n) ≡ true
is_line-to_decimal n = all-to_decimal _ n (λ d h. ground arith)
