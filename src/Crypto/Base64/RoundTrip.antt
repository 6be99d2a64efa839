-- ===== src/Crypto/Base64/RoundTrip.antt =====
-- Encoding and decoding are inverse to one another.
use pc_helper_ios.Prelude.{
  ℕ, ◌+◌, ◌*◌, ◌/◌, ◌%◌, ◌<◌, ◌≡◌, refl, true, false, Option, none, some, [], ◌∷◌, ◌++◌, arith,
  ◌==◌, ==_iff, length, All, Text, text_eq_refl, text_eq_iff,
}
use mathlib.Core.Option
use pc_helper_ios.Errors.{ok}
use pc_helper_ios.Crypto.Base64.{
  char_of, sextet, pad_char, b64u_encode, Quad, q0, q1, q2, q3, take_sextet, a2b, matches_b64u,
  padding, pad_for, b64u_decode,
}

-- bytes
abbrev pub IsBytes : Text → Type 0
IsBytes = All (λ b. b < 256)

sextet-char_of : (v : ℕ) → v < 64 → sextet (char_of v) ≡ some v
unfolding sextet char_of
sextet-char_of v h = ground arith

char_of-ne-pad : (v : ℕ) → v < 64 → (char_of v == pad_char) ≡ false
unfolding char_of
char_of-ne-pad v h = ground arith

-- the encoding with no padding
bare : Text → Text
bare [] = []
bare (a ∷ []) = char_of (a / 4) ∷ char_of (a % 4 * 16) ∷ []
bare (a ∷ b ∷ []) = char_of (a / 4) ∷ char_of (a % 4 * 16 + b / 16) ∷ char_of (b % 16 * 4) ∷ []
bare (a ∷ b ∷ c ∷ r) =
    char_of (a / 4)
    ∷ char_of (a % 4 * 16 + b / 16)
    ∷ char_of (b % 16 * 4 + c / 64)
    ∷ char_of (c % 64)
    ∷ bare r

b64u_encode-bare : (raw : Text) → IsBytes raw → b64u_encode raw ≡ bare raw
unfolding b64u_encode bare
b64u_encode-bare [] h = refl
b64u_encode-bare (a ∷ []) h =
    ground (arith, char_of-ne-pad (a / 4) (omega arith), char_of-ne-pad (a % 4 * 16) (omega arith))
b64u_encode-bare (a ∷ b ∷ []) h = ground (
  arith,
  char_of-ne-pad (a / 4) (omega arith),
  char_of-ne-pad (a % 4 * 16 + b / 16) (omega arith),
  char_of-ne-pad (b % 16 * 4) (omega arith),
)
b64u_encode-bare (a ∷ b ∷ c ∷ r) h = ground (
  arith,
  b64u_encode-bare r h.1.1.1,
  char_of-ne-pad (a / 4) (omega arith),
  char_of-ne-pad (a % 4 * 16 + b / 16) (omega arith),
  char_of-ne-pad (b % 16 * 4 + c / 64) (omega arith),
  char_of-ne-pad (c % 64) (omega arith),
)

-- one character of an encoding, read at any position
a2b-char_of :
    (q : Quad) (pads v : ℕ) (s : Text)
    → v < 64
    → a2b q pads (char_of v ∷ s)
      ≡ Option.map (λ out. (take_sextet q v).1 ++ out) (a2b (take_sextet q v).0 0 s)
unfolding a2b
a2b-char_of q pads v s h = rw (char_of-ne-pad v h, sextet-char_of v h, a2b)

pads_of : Text → ℕ
pads_of [] = 0
pads_of (a ∷ []) = 2
pads_of (a ∷ b ∷ []) = 1
pads_of (a ∷ b ∷ c ∷ r) = pads_of r

pad_for-bare : (raw : Text) → pad_for (length (bare raw)) ≡ pads_of raw
unfolding bare pads_of
pad_for-bare [] = refl
pad_for-bare (a ∷ []) = refl
pad_for-bare (a ∷ b ∷ []) = refl
pad_for-bare (a ∷ b ∷ c ∷ r) = omega (arith, pad_for-bare r)

a2b-bare : (raw : Text) → IsBytes raw → a2b q0 0 (bare raw ++ padding (pads_of raw)) ≡ some raw
unfolding bare pads_of
a2b-bare [] h = unfold a2b in refl
a2b-bare (a ∷ []) h =
    let e : a / 4 * 4 + a % 4 * 16 / 16 ≡ a = omega arith in
    rw (a2b-char_of q0 0 (a / 4) _ (omega arith))
      (rw (a2b-char_of (q1 (a / 4)) 0 (a % 4 * 16) _ (omega arith)) (unfold a2b in rw e))
a2b-bare (a ∷ b ∷ []) h =
    let e : a / 4 * 4 + (a % 4 * 16 + b / 16) / 16 ≡ a = omega arith in
    let f : (a % 4 * 16 + b / 16) % 16 * 16 + b % 16 * 4 / 4 ≡ b = omega arith in
    rw (a2b-char_of q0 0 (a / 4) _ (omega arith)) (
      rw (a2b-char_of (q1 (a / 4)) 0 (a % 4 * 16 + b / 16) _ (omega arith)) (
        rw (a2b-char_of (q2 ((a % 4 * 16 + b / 16) % 16)) 0 (b % 16 * 4) _ (omega arith))
          (unfold a2b in rw (e, f))))
a2b-bare (a ∷ b ∷ c ∷ r) h =
    let e : a / 4 * 4 + (a % 4 * 16 + b / 16) / 16 ≡ a = omega arith in
    let f : (a % 4 * 16 + b / 16) % 16 * 16 + (b % 16 * 4 + c / 64) / 4 ≡ b = omega arith in
    let g : (b % 16 * 4 + c / 64) % 4 * 64 + c % 64 ≡ c = omega arith in
    rw (a2b-char_of q0 0 (a / 4) _ (omega arith)) (
      rw (a2b-char_of (q1 (a / 4)) 0 (a % 4 * 16 + b / 16) _ (omega arith)) (
        rw (a2b-char_of (q2 ((a % 4 * 16 + b / 16) % 16)) 0 (b % 16 * 4 + c / 64) _ (omega arith)) (
          rw (a2b-char_of (q3 ((b % 16 * 4 + c / 64) % 4)) 0 (c % 64) _ (omega arith))
            (rw (a2b-bare r h.1.1.1, e, f, g)))))

matches-char_of :
    (v : ℕ) (s : Text) → v < 64 → matches_b64u s ≡ true → matches_b64u (char_of v ∷ s) ≡ true
unfolding matches_b64u
matches-char_of v [] h k = rw (sextet-char_of v h)
matches-char_of v (c ∷ s) h k = rw (sextet-char_of v h) k

matches_b64u-bare : (raw : Text) → IsBytes raw → matches_b64u (bare raw) ≡ true
unfolding bare
matches_b64u-bare [] h = unfold matches_b64u in refl
matches_b64u-bare (a ∷ []) h =
    matches-char_of _ _ (omega arith)
      (matches-char_of _ _ (omega arith) (unfold matches_b64u in refl))
matches_b64u-bare (a ∷ b ∷ []) h = matches-char_of _ _ (omega arith) (
    matches-char_of _ _ (omega arith)
      (matches-char_of _ _ (omega arith) (unfold matches_b64u in refl)))
matches_b64u-bare (a ∷ b ∷ c ∷ r) h = matches-char_of _ _ (omega arith) (
    matches-char_of _ _ (omega arith) (
      matches-char_of _ _ (omega arith)
        (matches-char_of _ _ (omega arith) (matches_b64u-bare r h.1.1.1))))

pads_of-ne-3 : (raw : Text) → (pads_of raw == 3) ≡ false
unfolding pads_of
pads_of-ne-3 [] = refl
pads_of-ne-3 (a ∷ []) = refl
pads_of-ne-3 (a ∷ b ∷ []) = refl
pads_of-ne-3 (a ∷ b ∷ c ∷ r) = pads_of-ne-3 r

-- Every list of bytes decodes from its encoding, at its own length.
pub b64u_decode-b64u_encode :
    (raw : Text) → IsBytes raw → b64u_decode (b64u_encode raw) (some (length raw)) ≡ ok raw
b64u_decode-b64u_encode raw h =
    let same = b64u_encode-bare raw h in
    rw same (
      unfold b64u_decode in
      rw (matches_b64u-bare raw h, pad_for-bare raw, pads_of-ne-3 raw, a2b-bare raw h)
        (rw ((==_iff (length raw) (length raw)).1 refl, same, text_eq_refl (bare raw))))

-- A text that decodes at an expected length is the encoding of its result, which has that length:
-- no byte string has a second spelling.
pub b64u_decode_canonical :
    (text : Text) (n : ℕ) (raw : Text)
    → b64u_decode text (some n) ≡ ok raw
    → (b64u_encode raw ≡ text) × (length raw ≡ n)
unfolding b64u_decode
b64u_decode_canonical text n raw h = go (a2b q0 0 (text ++ padding (pad_for (length text)))) refl
  where
    go :
        (found : Option Text)
        → found ≡ a2b q0 0 (text ++ padding (pad_for (length text)))
        → (b64u_encode raw ≡ text) × (length raw ≡ n)
    go none e = ground arith
    go (some out) e = ground (arith, text_eq_iff (b64u_encode out) text)
