-- ===== src/Config/Mac.antt =====
-- pc-service/src/wol_unlock/config.py: MAC addresses in their one spelling.
use pc_helper_ios.Prelude.{
  ℕ, ◌≡◌, refl, ap, ◌∙◌, subst, inl, inr, Bool, true, false, ◌&&◌, ◌||◌, not, [], ◌∷◌, arith, ◌==◌,
  if◌then◌else◌, Bool-cases, length, keep, all, Text,
}
use pc_helper_ios.Errors.{Result, ok, err, config_error, ok-injective}
use pc_helper_ios.Unicode.{Unicode, strip, strip_left, strip_right, to_lower, between}

abbrev pub is_hex : ℕ → Bool
is_hex c = between 48 57 c || between 97 102 c

-- `s.replace(c, "")`
abbrev pub without : ℕ → Text → Text
without c = keep (λ d. not (d == c))

-- `":".join(s[i : i + 2] for i in range(0, 12, 2))`
unfoldable pub by_pairs : Text → Text
by_pairs [] = []
by_pairs (a ∷ []) = a ∷ []
by_pairs (a ∷ b ∷ []) = a ∷ b ∷ []
by_pairs (a ∷ b ∷ c ∷ s) = a ∷ b ∷ 58 ∷ by_pairs (c ∷ s)

abbrev unpunctuated : Text → Text
unpunctuated s = without b'.' (without b':' (without b'-' s))

hex_apart :
    (c : ℕ) → is_hex c ≡ true → ((c == 45) ≡ false) × ((c == 58) ≡ false) × ((c == 46) ≡ false)
hex_apart c h = ground arith

unpunctuated-hex : (c : ℕ) (s : Text) → is_hex c ≡ true → unpunctuated (c ∷ s) ≡ c ∷ unpunctuated s
unpunctuated-hex c s h = let (dash, colon, dot) = hex_apart c h in rw dash (rw colon (rw dot))

module _ (u : Unicode) where
  unfoldable pub cleaned_mac : Text → Text
  cleaned_mac value = without b'.' (without b':' (without b'-' (to_lower u (strip u value))))

  unfoldable pub normalize_mac : Text → Result Text
  unfolding cleaned_mac by_pairs
  normalize_mac value =
      let cleaned = cleaned_mac value in
      if length cleaned == 12 && all is_hex cleaned then ok (by_pairs cleaned) else err config_error

  -- The laws of the database on what an address is made of.
  pub record IsPlain : Type 0 where
    pub no_space : (c : ℕ) → is_hex c || c == 58 ≡ true → u.is_space c ≡ false
    pub lowered : (c : ℕ) → is_hex c || c == 58 ≡ true → u.lower c ≡ c ∷ []

  module _ (plain : IsPlain) where
    abbrev is_mac_char : ℕ → Bool
    is_mac_char c = is_hex c || c == 58

    strip_left-plain : (s : Text) → all is_mac_char s ≡ true → strip_left u.is_space s ≡ s
    unfolding strip_left
    strip_left-plain [] h = refl
    strip_left-plain (c ∷ s) h = ground (arith, plain.no_space c)

    strip_right-plain : (s : Text) → all is_mac_char s ≡ true → strip_right u.is_space s ≡ s
    unfolding strip_right
    strip_right-plain [] h = refl
    strip_right-plain (c ∷ s) h = ground (arith, plain.no_space c, strip_right-plain s)

    to_lower-plain : (s : Text) → all is_mac_char s ≡ true → to_lower u s ≡ s
    unfolding to_lower
    to_lower-plain [] h = refl
    to_lower-plain (c ∷ s) h = ground (arith, plain.lowered c, to_lower-plain s)

    all-by_pairs : (s : Text) → all is_hex s ≡ true → all is_mac_char (by_pairs s) ≡ true
    unfolding by_pairs
    all-by_pairs [] h = refl
    all-by_pairs (a ∷ []) h = ground arith
    all-by_pairs (a ∷ b ∷ []) h = ground arith
    all-by_pairs (a ∷ b ∷ c ∷ s) h = ground (arith, all-by_pairs (c ∷ s))

    without-by_pairs : (s : Text) → all is_hex s ≡ true → unpunctuated (by_pairs s) ≡ s
    unfolding by_pairs
    without-by_pairs [] h = refl
    without-by_pairs (a ∷ []) h = ground (arith, unpunctuated-hex a [])
    without-by_pairs (a ∷ b ∷ []) h =
        ground (arith, unpunctuated-hex a (b ∷ []), unpunctuated-hex b [])
    without-by_pairs (a ∷ b ∷ c ∷ s) h =
        let ha : is_hex a ≡ true = ground arith in
        let hb : is_hex b ≡ true = ground arith in
        let hs : all is_hex (c ∷ s) ≡ true = ground arith in
        unpunctuated-hex a (b ∷ 58 ∷ by_pairs (c ∷ s)) ha
        ∙ ap (◌∷◌ a) (
            unpunctuated-hex b (58 ∷ by_pairs (c ∷ s)) hb
            ∙ ap (◌∷◌ b) (without-by_pairs (c ∷ s) hs))

    normalized :
        (s : Text)
        → (length s == 12) ≡ true
        → all is_hex s ≡ true
        → normalize_mac (by_pairs s) ≡ ok (by_pairs s)
    unfolding normalize_mac strip
    normalized s twelve hex =
        let chars = all-by_pairs s hex in
        rw (
          strip_left-plain (by_pairs s) chars,
          strip_right-plain (by_pairs s) chars,
          to_lower-plain (by_pairs s) chars,
          without-by_pairs s hex,
          twelve,
          hex,
        )

    -- Over a database that leaves hexadecimal digits and colons as they are, what `normalize_mac`
    -- returns is its own normal form.
    pub normalize_mac_idem :
        (value mac : Text) → normalize_mac value ≡ ok mac → normalize_mac mac ≡ ok mac
    unfolding normalize_mac
    normalize_mac_idem value mac h =
        let s : Text = cleaned_mac value in
        elim (Bool-cases (length s == 12)) [
          | inr short ↦ absurd (ground (arith, short))
          | inl twelve ↦ elim (Bool-cases (all is_hex s)) [
            | inr bad ↦ absurd (ground (arith, twelve, bad))
            | inl hex ↦
                let same : by_pairs s ≡ mac = ok-injective (rw (twelve, hex) at h) in
                subst (λ m. normalize_mac m ≡ ok m) same (normalized s twelve hex)
          ]
        ]
