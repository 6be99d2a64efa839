-- ===== src/Unicode/Decimal.antt =====
-- `str(n)` and `int(s)` on decimal digits.
use pc_helper_ios.Prelude.{
  ℕ, zero, suc, ◌+◌, ◌-◌, ◌*◌, ◌/◌, ◌%◌, ◌≤◌, ◌<◌, ◌≡◌, refl, ap, ◌∙◌, inl, inr, Bool, true, ◌&&◌,
  Option, none, some, [], ◌∷◌, arith, ltb, leb, if◌then◌else◌, ltb→lt, le→leb, Bool-cases, all,
  Text,
}

-- `int` digit by digit, over the values of the digits
unfoldable pub value_from : (ℕ → Option ℕ) → ℕ → Text → Option ℕ
value_from v n [] = some n
value_from v n (c ∷ s) = elim (v c) [ none ↦ none | some d ↦ value_from v (n * 10 + d) s ]

abbrev pub of_digit : ℕ → Option ℕ
of_digit c = if leb 48 c && leb c 57 then some (c - 48) else none

unfoldable pub of_decimal : Text → Option ℕ
unfolding value_from
of_decimal s = value_from of_digit 0 s

-- The digits of `n` before `acc`; a number has fewer digits than its value, plus one.
unfoldable pub digits_onto : ℕ → ℕ → Text → Text
digits_onto zero n acc = acc
digits_onto (suc fuel) n acc =
    let more = digits_onto fuel (n / 10) ((48 + n % 10) ∷ acc) in
    if ltb n 10 then (48 + n) ∷ acc else more

-- `str(n)`
unfoldable pub to_decimal : ℕ → Text
unfolding digits_onto
to_decimal n = digits_onto (suc n) n []

of_digit_lem : (d : ℕ) → d < 10 → of_digit (48 + d) ≡ some d
of_digit_lem d h =
    let e : 48 + d - 48 ≡ d = omega arith in
    let lo = le→leb 48 (48 + d) (omega arith) in
    let hi = le→leb (48 + d) 57 (omega arith) in rw (lo, hi, e)

value_step :
    (m : ℕ) (rest : Text)
    → value_from of_digit (m / 10) ((48 + m % 10) ∷ rest) ≡ value_from of_digit m rest
unfolding value_from
value_step m rest =
    let e : m / 10 * 10 + m % 10 ≡ m = omega arith in
    ground (arith, of_digit_lem (m % 10) (omega arith), e)

value-digits_onto :
    (fuel n : ℕ) (acc : Text)
    → n < fuel
    → value_from of_digit 0 (digits_onto fuel n acc) ≡ value_from of_digit n acc
unfolding digits_onto value_from
value-digits_onto zero n acc h = absurd (omega arith)
value-digits_onto (suc fuel) n acc h = elim (Bool-cases (ltb n 10)) [
  | inl small ↦ rw small (ground arith)
  | inr large ↦
      let k : 10 ≤ n = ground arith in
      rw large
        (value-digits_onto fuel (n / 10) ((48 + n % 10) ∷ acc) (omega arith) ∙ value_step n acc)
]

-- Reading back what `str` printed gives the number.
pub of_decimal-to_decimal : (n : ℕ) → of_decimal (to_decimal n) ≡ some n
unfolding of_decimal to_decimal
of_decimal-to_decimal n = value-digits_onto (suc n) n [] (omega arith)

pub to_decimal-injective : (m n : ℕ) → to_decimal m ≡ to_decimal n → m ≡ n
to_decimal-injective m n h = cc (of_decimal-to_decimal m, of_decimal-to_decimal n, ap of_decimal h)

all-digits_onto :
    (p : ℕ → Bool) (fuel n : ℕ) (acc : Text)
    → ((d : ℕ) → d < 10 → p (48 + d) ≡ true)
    → all p acc ≡ true
    → all p (digits_onto fuel n acc) ≡ true
unfolding digits_onto
all-digits_onto p zero n acc h k = k
all-digits_onto p (suc fuel) n acc h k = elim (Bool-cases (ltb n 10)) [
  | inl small ↦ rw small (rw (h n (ltb→lt n 10 small)) k)
  | inr large ↦
      rw large
        (all-digits_onto p fuel (n / 10) ((48 + n % 10) ∷ acc) h (rw (h (n % 10) (omega arith)) k))
]

-- A printed number consists of digits.
pub all-to_decimal :
    (p : ℕ → Bool) (n : ℕ) → ((d : ℕ) → d < 10 → p (48 + d) ≡ true) → all p (to_decimal n) ≡ true
unfolding to_decimal
all-to_decimal p n h = all-digits_onto p (suc n) n [] h refl
