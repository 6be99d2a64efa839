-- ===== src/Crypto/Verify/Laws.antt =====
-- What an accepted header or timestamp guarantees.
use pc_helper_ios.Prelude.{
  ℕ, ◌+◌, ◌≤◌, ◌≡◌, refl, ◌∙◌, subst, ◌↔◌, Bool, true, false, none, some, arith, ◌==◌, length, Text,
}
use pc_helper_ios.Errors.{
  ErrorCode, Result, ok, err, api, http, value_error, config_error, runtime_error, integrity_error,
  os_error, bad_request, >>=-eq-ok, ok-injective,
}
use pc_helper_ios.Unicode.{Unicode, strip, is_digits, int_of}
use pc_helper_ios.Crypto.Base64.{b64u_encode, b64u_decode}
use pc_helper_ios.Crypto.Base64.RoundTrip.{b64u_decode_canonical}
use pc_helper_ios.Crypto.Canonical.{
  canonical_request, sha256_b64u, nonce_bytes, nonce_chars, signature_bytes, device_id_chars,
}
use pc_helper_ios.Crypto.Verify.{
  Primitives, Header, Headers, header_version, header_device, header_timestamp, header_nonce,
  header_signature, SignedRequestHeaders, or_raise, guard, to_int, zero_led, needed, need_version,
  need_id, need_timestamp, parse_auth_headers, check_timestamp, verify_request_signature,
}

-- A timestamp passes exactly when it is at most the skew away from the clock, on either side.
pub check_timestamp_iff :
    (t now skew : ℕ) → (check_timestamp t now skew ≡ ok tt) ↔ ((t ≤ now + skew) × (now ≤ t + skew))
unfolding check_timestamp
check_timestamp_iff t now skew = (λ h. (ground arith, ground arith), λ h. ground arith)

or_raise-ok {ℓ} :
    {A : Type ℓ} (c : ErrorCode) (r : Result A) {a : A} → or_raise c r ≡ ok a → r ≡ ok a
or_raise-ok c (ok a) h = h
or_raise-ok c (err value_error) h = cc
or_raise-ok c (err (api e)) h = cc
or_raise-ok c (err (http s)) h = cc
or_raise-ok c (err config_error) h = cc
or_raise-ok c (err runtime_error) h = cc
or_raise-ok c (err integrity_error) h = cc
or_raise-ok c (err os_error) h = cc

guard-ok : (b : Bool) (c : ErrorCode) {v : Unit {0}} → guard b c ≡ ok v → b ≡ true
guard-ok true c h = refl
guard-ok false c h = cc

-- an identifier in its one spelling: the encoding of so many bytes
pub record IsId (bytes : ℕ) (id : Text) : Type 0 where
  pub raw : Text
  pub encoded : b64u_encode raw ≡ id
  pub count : length raw ≡ bytes

module _ (u : Unicode) where
  need_id-IsId :
      (name : Header) (chars bytes : ℕ) (headers : Headers) (id : Text)
      → need_id u name chars bytes headers ≡ ok id
      → IsId bytes id
  unfolding need_id
  need_id-IsId name chars bytes headers id h =
      let (text, got, h1) = >>=-eq-ok (needed u (headers name)) _ h in
      let (_, fits, h2) = >>=-eq-ok (guard (length text == chars) bad_request) _ h1 in
      let (raw, decoded, h3) =
        >>=-eq-ok (or_raise bad_request (b64u_decode text (some bytes))) _ h2 in
      let (spelling, count) = b64u_decode_canonical text bytes raw (or_raise-ok _ _ decoded) in
      record { raw = raw; encoded = spelling ∙ ground arith; count = count }

  need_version-eq : (headers : Headers) (v : ℕ) → need_version u headers ≡ ok v → v ≡ 1
  unfolding need_version
  need_version-eq headers v h =
      let (raw, got, h1) = >>=-eq-ok (needed u (headers header_version)) _ h in
      let (_, digits, h2) = >>=-eq-ok (guard (is_digits u raw) bad_request) _ h1 in
      let (n, int, h3) = >>=-eq-ok (to_int (int_of u raw)) _ h2 in
      let (_, supported, h4) = >>=-eq-ok (guard (n == 1) bad_request) _ h3 in
      let one = guard-ok (n == 1) bad_request supported in ground (arith, one, h4)

  -- Headers that parse are of version 1, and the device id and the nonce are encodings of 16 bytes
  -- and the signature is of 64.
  pub parse_auth_headers-ok :
      (headers : Headers) (r : SignedRequestHeaders)
      → parse_auth_headers u headers ≡ ok r
      → (r.version ≡ 1) × IsId 16 r.device_id × IsId 16 r.nonce × (length r.signature ≡ 64)
  unfolding parse_auth_headers
  parse_auth_headers-ok headers r h =
      let (v, hv, h1) = >>=-eq-ok (need_version u headers) _ h in
      let (d, hd, h2) = >>=-eq-ok (need_id u header_device device_id_chars 16 headers) _ h1 in
      let (t, ht, h3) = >>=-eq-ok (need_timestamp u headers) _ h2 in
      let (n, hn, h4) = >>=-eq-ok (need_id u header_nonce nonce_chars nonce_bytes headers) _ h3 in
      let (raw, hr, h5) = >>=-eq-ok (needed u (headers header_signature)) _ h4 in
      let (s, hs, h6) =
        >>=-eq-ok (or_raise bad_request (b64u_decode raw (some signature_bytes))) _ h5 in
      let d_id = need_id-IsId header_device device_id_chars 16 headers d hd in
      let n_id = need_id-IsId header_nonce nonce_chars nonce_bytes headers n hn in
      let long = (b64u_decode_canonical raw signature_bytes s (or_raise-ok _ _ hs)).1 in
      subst
        (λ (x : SignedRequestHeaders).
          (x.version ≡ 1) × IsId 16 x.device_id × IsId 16 x.nonce × (length x.signature ≡ 64))
        (ok-injective h6) (need_version-eq headers v hv, d_id, n_id, long)

  -- What the header says the time is. Any spelling that `str.isdigit` passes is accepted, so the
  -- same instant has as many spellings as there are decimal digits of other scripts.
  pub need_timestamp_spellings :
      (headers : Headers) (text : Text) (n : ℕ)
      → headers header_timestamp ≡ some text
      → is_digits u (strip u text) ≡ true
      → zero_led (strip u text) ≡ false
      → int_of u (strip u text) ≡ some n
      → need_timestamp u headers ≡ ok n
  unfolding need_timestamp
  need_timestamp_spellings headers text n h d z e = rw (h, d, z, e)

  -- Digits that `int` refuses escape as a ValueError, not as a bad request.
  pub need_timestamp_escapes :
      (headers : Headers) (text : Text)
      → headers header_timestamp ≡ some text
      → is_digits u (strip u text) ≡ true
      → zero_led (strip u text) ≡ false
      → int_of u (strip u text) ≡ none
      → need_timestamp u headers ≡ err value_error
  unfolding need_timestamp
  need_timestamp_escapes headers text h d z e = rw (h, d, z, e)

module _ (u : Unicode) (p : Primitives) where
  -- A request that verifies, with no hash expected, was signed by the key over the canonical
  -- string of what was received: the method, the path, the time, the nonce, the hash of the body,
  -- the device and this server's fingerprint.
  pub verify_request_signature-ok :
      (pubkey method path : Text) (t : ℕ) (nonce body device server signature : Text)
      → verify_request_signature u p pubkey method path t nonce body device server signature none
        ≡ ok tt
      → (message : Text) × (canonical_request u method path t nonce
            (sha256_b64u p.sha256 body)
            device
            server
          ≡ ok message)
        × (p.verifies pubkey signature message ≡ true)
  unfolding verify_request_signature
  verify_request_signature-ok pubkey method path t nonce body device server signature h =
      let (message, built, h1) =
        >>=-eq-ok
          (canonical_request u method path t nonce (sha256_b64u p.sha256 body) device server) _ h in
      (message, built, ground arith)
