-- ===== src/Crypto/Canonical/Injective.antt =====
-- What is signed determines every field, and the three kinds of string are apart.
use pc_helper_ios.Prelude.{
  ℕ, ◌≡◌, refl, sym, ◌∙◌, ◌≢◌, true, false, List, [], ◌∷◌, All, Text, text_eq, text_eq_refl,
}
use pc_helper_ios.Errors.{Result, ok, ◌>>=◌, >>=-eq-ok}
use pc_helper_ios.Unicode.{Unicode, IsDatabase, to_upper, to_decimal}
use pc_helper_ios.Unicode.Decimal.{to_decimal-injective}
use pc_helper_ios.Crypto.Canonical.{
  domain_request, domain_response, domain_pair, field, lines, canonical_request, canonical_response,
  canonical_pair,
}
use pc_helper_ios.Crypto.Canonical.Lines.{
  is_line, lines-injective, field-ok, is_line-to_upper, encode_ascii-ok,
}

-- the message is these lines, and each is one line
abbrev IsLines : Text → List Text → Type 0
IsLines msg ps = (msg ≡ lines ps) × All (λ p. is_line p ≡ true) ps

IsLines-eq : {a b : Text} (ps qs : List Text) → IsLines a ps → IsLines b qs → a ≡ b → ps ≡ qs
IsLines-eq ps qs h k e = lines-injective ps qs h.1 k.1 (sym h.0 ∙ e ∙ k.0)

-- a field in front of what the rest of the block does with it
take_field :
    (s : Text) (f : Text → Result Text) {msg : Text}
    → (field s >>= f) ≡ ok msg
    → (is_line s ≡ true) × (f s ≡ ok msg)
take_field s f h =
    let (t, found, rest) = >>=-eq-ok (field s) f h in
    let (same, line) = field-ok s t found in (line, rw same at rest)

module _ (u : Unicode) (db : IsDatabase u) where
  abbrev request_lines : Text → Text → ℕ → Text → Text → Text → Text → List Text
  request_lines method path timestamp nonce body device_id server_fp =
      domain_request
      ∷ to_upper u method
      ∷ path
      ∷ to_decimal timestamp
      ∷ nonce
      ∷ body
      ∷ device_id
      ∷ server_fp
      ∷ []

  request-IsLines :
      (method path : Text) (timestamp : ℕ) (nonce body device_id server_fp : Text) {msg : Text}
      → canonical_request u method path timestamp nonce body device_id server_fp ≡ ok msg
      → IsLines msg (request_lines method path timestamp nonce body device_id server_fp)
  unfolding canonical_request
  request-IsLines method path timestamp nonce body device_id server_fp h =
      let (l1, h1) = take_field method _ h in
      let (l2, h2) = take_field path _ h1 in
      let (l3, h3) = take_field (to_decimal timestamp) _ h2 in
      let (l4, h4) = take_field nonce _ h3 in
      let (l5, h5) = take_field body _ h4 in
      let (l6, h6) = take_field device_id _ h5 in
      let (l7, h7) = take_field server_fp _ h6 in
      let l0 = is_line-to_upper u db method ∙ l1 in
      (encode_ascii-ok _ _ h7, (refl, (l0, (l2, (l3, (l4, (l5, (l6, (l7, tt)))))))))

  abbrev pair_lines : Text → Text → Text → List Text
  pair_lines code device_pubkey server_fp =
      domain_pair ∷ to_upper u code ∷ device_pubkey ∷ server_fp ∷ []

  pair-IsLines :
      (code device_pubkey server_fp : Text) {msg : Text}
      → canonical_pair u code device_pubkey server_fp ≡ ok msg
      → IsLines msg (pair_lines code device_pubkey server_fp)
  unfolding canonical_pair
  pair-IsLines code device_pubkey server_fp h =
      let (l1, h1) = take_field code _ h in
      let (l2, h2) = take_field device_pubkey _ h1 in
      let (l3, h3) = take_field server_fp _ h2 in
      let l0 = is_line-to_upper u db code ∙ l1 in
      (encode_ascii-ok _ _ h3, (refl, (l0, (l2, (l3, tt)))))

  -- Over a database with the laws of IsDatabase, two requests with one signed string agree in
  -- every field, the method up to case.
  pub canonical_request-injective :
      (m m' p p' : Text) (t t' : ℕ) (n n' b b' d d' f f' msg : Text)
      → canonical_request u m p t n b d f ≡ ok msg
      → canonical_request u m' p' t' n' b' d' f' ≡ ok msg
      → (to_upper u m ≡ to_upper u m')
        × (p ≡ p')
        × (t ≡ t')
        × (n ≡ n')
        × (b ≡ b')
        × (d ≡ d')
        × (f ≡ f')
  canonical_request-injective m m' p p' t t' n n' b b' d d' f f' msg h k =
      let e =
        IsLines-eq (request_lines m p t n b d f) (request_lines m' p' t' n' b' d' f')
          (request-IsLines m p t n b d f h) (request-IsLines m' p' t' n' b' d' f' k) refl in
      (cc, cc, to_decimal-injective t t' (cc), cc, cc, cc, cc)

  -- Over a database with the laws of IsDatabase, two pairing proofs with one signed string agree
  -- in the code, up to case, in the key and in the server.
  pub canonical_pair-injective :
      (c c' k k' f f' msg : Text)
      → canonical_pair u c k f ≡ ok msg
      → canonical_pair u c' k' f' ≡ ok msg
      → (to_upper u c ≡ to_upper u c') × (k ≡ k') × (f ≡ f')
  canonical_pair-injective c c' k k' f f' msg g h =
      let e =
        IsLines-eq (pair_lines c k f) (pair_lines c' k' f') (pair-IsLines c k f g)
          (pair-IsLines c' k' f' h) refl in
      (cc, cc, cc)

abbrev response_lines : ℕ → Text → Text → Text → List Text
response_lines status nonce_echo body server_fp =
    domain_response ∷ to_decimal status ∷ nonce_echo ∷ body ∷ server_fp ∷ []

response-IsLines :
    (status : ℕ) (nonce_echo body server_fp : Text) {msg : Text}
    → canonical_response status nonce_echo body server_fp ≡ ok msg
    → IsLines msg (response_lines status nonce_echo body server_fp)
unfolding canonical_response
response-IsLines status nonce_echo body server_fp h =
    let (l1, h1) = take_field (to_decimal status) _ h in
    let (l2, h2) = take_field nonce_echo _ h1 in
    let (l3, h3) = take_field body _ h2 in
    let (l4, h4) = take_field server_fp _ h3 in
    (encode_ascii-ok _ _ h4, (refl, (l1, (l2, (l3, (l4, tt))))))

-- Two responses with one signed string agree in the status, the echoed nonce, the body's hash and
-- the server.
pub canonical_response-injective :
    (s s' : ℕ) (n n' b b' f f' msg : Text)
    → canonical_response s n b f ≡ ok msg
    → canonical_response s' n' b' f' ≡ ok msg
    → (s ≡ s') × (n ≡ n') × (b ≡ b') × (f ≡ f')
canonical_response-injective s s' n n' b b' f f' msg h k =
    let e =
      IsLines-eq (response_lines s n b f) (response_lines s' n' b' f') (response-IsLines s n b f h)
        (response-IsLines s' n' b' f' k) refl in
    (to_decimal-injective s s' (cc), cc, cc, cc)

text-ne : (a b : Text) → text_eq a b ≡ false → a ≢ b
text-ne a b h e = cc (h, e, text_eq_refl a)

-- messages whose first lines differ
first-ne :
    {a b : Text} (p q : Text) (ps qs : List Text)
    → text_eq p q ≡ false
    → IsLines a (p ∷ ps)
    → IsLines b (q ∷ qs)
    → a ≢ b
first-ne p q ps qs d h k e = let same = IsLines-eq (p ∷ ps) (q ∷ qs) h k e in text-ne p q d (cc)

-- Over a database with the laws of IsDatabase, no string is signed for two purposes: a request, a
-- response and a pairing proof always differ.
pub domains_apart :
    (u : Unicode)
    → IsDatabase u
    → (m p : Text) (t : ℕ) (n b d f : Text) (s : ℕ) (n' b' f' c k f'' : Text) (req res pair : Text)
    → canonical_request u m p t n b d f ≡ ok req
    → canonical_response s n' b' f' ≡ ok res
    → canonical_pair u c k f'' ≡ ok pair
    → (req ≢ res) × (req ≢ pair) × (res ≢ pair)
unfolding text_eq
domains_apart u db m p t n b d f s n' b' f' c k f'' req res pair h1 h2 h3 =
    let r = request-IsLines u db m p t n b d f h1 in
    let a = response-IsLines s n' b' f' h2 in
    let q = pair-IsLines u db c k f'' h3 in
    (
      first-ne domain_request domain_response _ _ refl r a,
      first-ne domain_request domain_pair _ _ refl r q,
      first-ne domain_response domain_pair _ _ refl a q,
    )
