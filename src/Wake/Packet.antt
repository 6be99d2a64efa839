-- ===== src/Wake/Packet.antt =====
-- pc-service/src/wol_unlock/wake.py: the shape of the magic packet.
use pc_helper_ios.Prelude.{
  ℕ, zero, suc, ◌+◌, ◌*◌, ◌≡◌, refl, sym, ap, ◌∙◌, subst, inl, inr, true, false, ◌&&◌, Option, none,
  some, [], ◌∷◌, ◌++◌, arith, ◌==◌, ==_iff, Bool-cases, length, all, length-append, Text,
}
use pc_helper_ios.Errors.{ok, >>=-eq-ok, ok-injective}
use pc_helper_ios.Unicode.{Unicode, to_lower}
use pc_helper_ios.Config.Mac.{is_hex, normalize_mac, without, by_pairs, cleaned_mac}
use pc_helper_ios.Wake.{
  magic_prefix, mac_repeat, from_hex, repeat, secureon_bytes, build_magic_packet,
}

length-from_hex : (s bytes : Text) → from_hex s ≡ ok bytes → length s ≡ 2 * length bytes
unfolding from_hex
length-from_hex [] bytes h = omega (arith, ap (length {A = ℕ}) (ok-injective h))
length-from_hex (a ∷ []) bytes h = cc
length-from_hex (a ∷ b ∷ s) bytes h =
    let (rest, parsed, h1) = >>=-eq-ok (from_hex s) _ h in
    let ih = length-from_hex s rest parsed in
    elim (Bool-cases (is_hex a && is_hex b)) [
      | inl hex ↦ omega (arith, ih, ap (length {A = ℕ}) (ok-injective (rw hex at h1)))
      | inr bad ↦ absurd (ground (arith, bad))
    ]

length-repeat : (n : ℕ) (s : Text) → length (repeat n s) ≡ n * length s
unfolding repeat
length-repeat zero s = omega arith
length-repeat (suc n) s = omega (arith, length-append s (repeat n s), length-repeat n s)

hex_not_colon : (c : ℕ) → is_hex c ≡ true → (c == 58) ≡ false
hex_not_colon c h = ground arith

without-by_pairs : (s : Text) → all is_hex s ≡ true → length (without b':' (by_pairs s)) ≡ length s
unfolding by_pairs
without-by_pairs [] h = refl
without-by_pairs (a ∷ []) h = ground (arith, hex_not_colon a)
without-by_pairs (a ∷ b ∷ []) h = ground (arith, hex_not_colon a, hex_not_colon b)
without-by_pairs (a ∷ b ∷ c ∷ s) h =
    let ha : is_hex a ≡ true = ground arith in
    let hb : is_hex b ≡ true = ground arith in
    let hs : all is_hex (c ∷ s) ≡ true = ground arith in
    rw (hex_not_colon a ha, hex_not_colon b hb)
      (ap (λ n. suc (suc n)) (without-by_pairs (c ∷ s) hs))

half : (m n : ℕ) → m ≡ 12 → m ≡ 2 * n → n ≡ 6
half m n h k = omega arith

module _ (u : Unicode) where
  length-normalize_mac :
      (value mac : Text) → normalize_mac u value ≡ ok mac → length (without b':' mac) ≡ 12
  unfolding normalize_mac
  length-normalize_mac value mac h =
      let s : Text = cleaned_mac u value in
      elim (Bool-cases (length s == 12)) [
        | inr short ↦ absurd (ground (arith, short))
        | inl twelve ↦ elim (Bool-cases (all is_hex s)) [
          | inr bad ↦ absurd (ground (arith, twelve, bad))
          | inl hex ↦
              let same : by_pairs s ≡ mac = ok-injective (rw (twelve, hex) at h) in
              subst (λ m. length (without b':' m) ≡ 12) same
                (without-by_pairs s hex ∙ (==_iff (length s) 12).0 twelve)
        ]
      ]

  -- no bytes for no password or an empty one, else the six bytes that its digits spell, without
  -- their separators
  abbrev pub IsPassword : Option Text → Text → Type 0
  IsPassword none bytes = bytes ≡ []
  IsPassword (some []) bytes = bytes ≡ []
  IsPassword (some (c ∷ s)) bytes =
      (from_hex (to_lower u (without b'-' (without b':' (c ∷ s)))) ≡ ok bytes) × (length bytes ≡ 6)

  -- the packet for a MAC and a password
  abbrev pub IsMagic : (mac : Text) → (secureon : Option Text) → (packet : Text) → Type 0
  IsMagic mac secureon packet =
      (normal bytes password : Text) × (normalize_mac u mac ≡ ok normal)
      × (from_hex (without b':' normal) ≡ ok bytes)
      × (length bytes ≡ 6)
      × IsPassword secureon password
      × (packet ≡ magic_prefix ++ repeat mac_repeat bytes ++ password)
      × (length packet ≡ 102 + length password)

  secureon_bytes-IsPassword :
      (secureon : Option Text) (bytes : Text)
      → secureon_bytes u secureon ≡ ok bytes
      → IsPassword secureon bytes
  unfolding secureon_bytes
  secureon_bytes-IsPassword none bytes h = sym (ok-injective h)
  secureon_bytes-IsPassword (some []) bytes h = sym (ok-injective h)
  secureon_bytes-IsPassword (some (c ∷ s)) bytes h =
      let cleaned : Text = to_lower u (without b'-' (without b':' (c ∷ s))) in
      elim (Bool-cases (length cleaned == 12)) [
        | inl twelve ↦
            let parsed : from_hex cleaned ≡ ok bytes = rw twelve at h in
            let long : length cleaned ≡ 12 = (==_iff (length cleaned) 12).0 twelve in
            (
              parsed,
              half (length cleaned) (length bytes) long (length-from_hex cleaned bytes parsed),
            )
        | inr wrong ↦ absurd (ground (arith, wrong))
      ]

  -- A magic packet that is built is six bytes of 255, then the six bytes of the normalized MAC
  -- sixteen times, then the six bytes that the given SecureOn password spells, or nothing if there
  -- is no password or an empty one: 102 bytes, or 108 with a password.
  pub build_magic_packet-IsMagic :
      (mac : Text) (secureon : Option Text) (packet : Text)
      → build_magic_packet u mac secureon ≡ ok packet
      → IsMagic mac secureon packet
  unfolding build_magic_packet
  build_magic_packet-IsMagic mac secureon packet h =
      let (normal, n, h1) = >>=-eq-ok (normalize_mac u mac) _ h in
      let (bytes, parsed, h2) = >>=-eq-ok (from_hex (without b':' normal)) _ h1 in
      let (password, p, h3) = >>=-eq-ok (secureon_bytes u secureon) _ h2 in
      let six : length bytes ≡ 6 = omega (
        arith,
        length-from_hex (without b':' normal) bytes parsed,
        length-normalize_mac mac normal n,
      ) in
      let built = sym (ok-injective h3) in
      (
        normal,
        bytes,
        password,
        n,
        parsed,
        six,
        secureon_bytes-IsPassword secureon password p,
        built,
        omega (
          arith,
          ap (length {A = ℕ}) built,
          length-append (repeat mac_repeat bytes) password,
          length-repeat mac_repeat bytes,
          six,
        ),
      )
