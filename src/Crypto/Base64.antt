-- ===== src/Crypto/Base64.antt =====
-- pc-service/src/wol_unlock/crypto/canonical.py: `b64u_encode` and `b64u_decode`, with the standard
-- library's encoder and its lenient decoder as far as their arguments can differ here.
pub mod RoundTrip
use pc_helper_ios.Prelude.{
  ℕ, zero, suc, ◌+◌, ◌-◌, ◌*◌, ◌/◌, ◌%◌, ◌^◌, ◌≤◌, ◌<◌, min, max, String, ◌≡◌, refl, sym, ap, ◌∙◌,
  subst, fun_ext, ◌≢◌, ◌↔◌, ◌⊎◌, inl, inr, Bool, true, false, ◌&&◌, ◌||◌, not, Option, none, some,
  List, [], ◌∷◌, ◌++◌, map, reverse, arith, ltb, leb, ◌==◌, if◌then◌else◌, ltb→lt, lt→ltb, leb→le,
  le→leb, ==_iff, Bool-cases, Option-cases, is_some, length, take, drop, keep, any, all, find,
  length-append, length-keep-le, length-drop, insert_by, sort_by, length-sort_by, All, All-append,
  All-keep, Text, codes, text_eq, text_eq_refl, text_eq_iff,
}
use mathlib.Core.Option
use pc_helper_ios.Errors.{Result, ok, err, value_error}
use pc_helper_ios.Unicode.{between, strip_right}

-- the alphabet of base64url, and the value of a character
unfoldable pub char_of : ℕ → ℕ
char_of v =
    if ltb v 26
    then v + 65
    else if ltb v 52
    then v + 71
    else if ltb v 62
    then v - 4
    else if v == 62
    then b'-'
    else b'_'

unfoldable pub sextet : ℕ → Option ℕ
sextet c =
    if between 65 90 c
    then some (c - 65)
    else if between 97 122 c
    then some (c - 71)
    else if between 48 57 c
    then some (c + 4)
    else if c == b'-'
    then some 62
    else if c == b'_'
    then some 63
    else none

abbrev pub pad_char : ℕ
pad_char = b'='

-- `base64.urlsafe_b64encode`
unfoldable pub urlsafe_b64encode : Text → Text
urlsafe_b64encode [] = []
urlsafe_b64encode (a ∷ []) = char_of (a / 4) ∷ char_of (a % 4 * 16) ∷ pad_char ∷ pad_char ∷ []
urlsafe_b64encode (a ∷ b ∷ []) =
    char_of (a / 4) ∷ char_of (a % 4 * 16 + b / 16) ∷ char_of (b % 16 * 4) ∷ pad_char ∷ []
urlsafe_b64encode (a ∷ b ∷ c ∷ r) =
    char_of (a / 4)
    ∷ char_of (a % 4 * 16 + b / 16)
    ∷ char_of (b % 16 * 4 + c / 64)
    ∷ char_of (c % 64)
    ∷ urlsafe_b64encode r

unfoldable pub b64u_encode : Text → Text
unfolding urlsafe_b64encode strip_right
b64u_encode raw = strip_right (λ c. c == pad_char) (urlsafe_b64encode raw)

-- The position in a group of four, with the bits that are left over.
pub data Quad : Type 0 where
  q0 : Quad
  q1 q2 q3 : ℕ → Quad

-- a value at a position: the next position, and the bytes that are complete
abbrev pub take_sextet : Quad → ℕ → Quad × Text
take_sextet q0 v = (q1 v, [])
take_sextet (q1 left) v = (q2 (v % 16), (left * 4 + v / 16) ∷ [])
take_sextet (q2 left) v = (q3 (v % 4), (left * 16 + v / 4) ∷ [])
take_sextet (q3 left) v = (q0, (left * 64 + v) ∷ [])

abbrev pub position : Quad → ℕ
position q0 = 0
position (q1 _) = 1
position (q2 _) = 2
position (q3 _) = 3

abbrev pub at_end : Quad → Option Text
at_end q0 = some []
at_end (q1 _) = none
at_end (q2 _) = none
at_end (q3 _) = none

-- The loop of `binascii.a2b_base64`, which is not strict: enough padding ends the input, and other
-- characters are skipped. What stands in no group of four is an error.
unfoldable pub a2b : Quad → ℕ → Text → Option Text
a2b q pads [] = at_end q
a2b q pads (c ∷ s) =
    let padded = a2b q (pads + 1) s in
    let skipped = a2b q pads s in
    let taken =
      λ (v : ℕ). Option.map (λ out. (take_sextet q v).1 ++ out) (a2b (take_sextet q v).0 0 s) in
    if c == pad_char
    then (if leb 2 (position q)
        then (if leb 4 (position q + (pads + 1)) then some [] else padded)
        else skipped)
    else elim (sextet c) [ none ↦ skipped | some v ↦ taken v ]

-- `^[A-Za-z0-9_-]*$`, whose `$` also matches before a line feed at the end
unfoldable pub matches_b64u : Text → Bool
matches_b64u [] = true
matches_b64u (c ∷ []) = is_some (sextet c) || c == 10
matches_b64u (c ∷ d ∷ s) = is_some (sextet c) && matches_b64u (d ∷ s)

abbrev pub padding : ℕ → Text
padding zero = []
padding (suc n) = pad_char ∷ padding n

abbrev check_canonical : Text → Option ℕ → Option Text → Result Text
check_canonical text expect_len none = err value_error
check_canonical text none (some raw) =
    if text_eq (b64u_encode raw) text then ok raw else err value_error
check_canonical text (some n) (some raw) =
    if length raw == n
    then (if text_eq (b64u_encode raw) text then ok raw else err value_error)
    else err value_error

-- `(-len(text)) % 4`
abbrev pub pad_for : ℕ → ℕ
pad_for n = (4 - n % 4) % 4

unfoldable pub b64u_decode : Text → Option ℕ → Result Text
unfolding matches_b64u a2b
b64u_decode text expect_len =
    if matches_b64u text
    then (let pad = pad_for (length text) in
        if pad == 3
        then err value_error
        else check_canonical text expect_len (a2b q0 0 (text ++ padding pad)))
    else err value_error
