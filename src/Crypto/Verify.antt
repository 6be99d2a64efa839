-- ===== src/Crypto/Verify.antt =====
-- pc-service/src/wol_unlock/crypto/verify.py: the five headers, the clock, and the signature.
pub mod Laws
use pc_helper_ios.Prelude.{
  ℕ, zero, suc, ◌+◌, ◌-◌, ◌*◌, ◌/◌, ◌%◌, ◌^◌, ◌≤◌, ◌<◌, min, max, String, ◌≡◌, refl, sym, ap, ◌∙◌,
  subst, fun_ext, ◌≢◌, ◌↔◌, ◌⊎◌, inl, inr, Bool, true, false, ◌&&◌, ◌||◌, not, Option, none, some,
  List, [], ◌∷◌, ◌++◌, map, reverse, arith, ltb, leb, ◌==◌, if◌then◌else◌, ltb→lt, lt→ltb, leb→le,
  le→leb, ==_iff, Bool-cases, Option-cases, is_some, length, take, drop, keep, any, all, find,
  length-append, length-keep-le, length-drop, insert_by, sort_by, length-sort_by, All, All-append,
  All-keep, Text, codes, text_eq, text_eq_refl, text_eq_iff,
}
use pc_helper_ios.Errors.{
  ErrorCode, Result, ok, err, Exc, value_error, ◌>>=◌, ◌>>◌, raise, bad_request,
  timestamp_out_of_window, invalid_signature, body_hash_mismatch,
}
use pc_helper_ios.Unicode.{Unicode, strip, is_digits, int_of}
use pc_helper_ios.Crypto.Base64.{b64u_decode}
use pc_helper_ios.Crypto.Canonical.{
  canonical_request, sha256_b64u, nonce_bytes, nonce_chars, signature_bytes, device_id_chars,
}

-- hashlib's SHA-256, and whether an Ed25519 public key verifies a signature of a message: False
-- stands for InvalidSignature, and for the ValueError of a malformed key.
pub record Primitives : Type 0 where
  pub sha256 : Text → Text
  pub verifies : Text → Text → Text → Bool

pub data Header : Type 0 where
  header_version header_device header_timestamp header_nonce header_signature : Header

-- `headers.get(name)`
abbrev pub Headers : Type 0
Headers = Header → Option Text

pub record SignedRequestHeaders : Type 0 where
  pub version : ℕ
  pub device_id : Text
  pub timestamp : ℕ
  pub nonce : Text
  pub signature : Text

abbrev pub supported_version : ℕ
supported_version = 1

-- `except ValueError: raise ApiError(…)`
abbrev pub or_raise {ℓ} : {A : Type ℓ} → ErrorCode → Result A → Result A
or_raise c (ok a) = ok a
or_raise c (err value_error) = raise c
or_raise c (err e) = err e

abbrev pub guard : Bool → ErrorCode → Result (Unit {0})
guard true c = ok tt
guard false c = raise c

-- `int(text)`
abbrev pub to_int : Option ℕ → Result ℕ
to_int none = err value_error
to_int (some n) = ok n

-- `len(raw_ts) > 1 and raw_ts[0] == "0"`
abbrev pub zero_led : Text → Bool
zero_led [] = false
zero_led (c ∷ []) = false
zero_led (c ∷ d ∷ s) = c == 48

module _ (u : Unicode) where
  abbrev pub needed : Option Text → Result Text
  needed none = raise bad_request
  needed (some value) = ok (strip u value)

  unfoldable pub need_version : Headers → Result ℕ
  need_version headers = do
    raw_version ← needed (headers header_version)
    guard (is_digits u raw_version) bad_request
    number ← to_int (int_of u raw_version)
    guard (number == supported_version) bad_request
    ok number

  -- an identifier of 16 bytes in 22 characters
  unfoldable pub need_id : Header → ℕ → ℕ → Headers → Result Text
  need_id name chars bytes headers = do
    id ← needed (headers name)
    guard (length id == chars) bad_request
    raw ← or_raise bad_request (b64u_decode id (some bytes))
    ok id

  unfoldable pub need_timestamp : Headers → Result ℕ
  need_timestamp headers = do
    raw_ts ← needed (headers header_timestamp)
    guard (is_digits u raw_ts && not (zero_led raw_ts)) bad_request
    to_int (int_of u raw_ts)

  unfoldable pub parse_auth_headers : Headers → Result SignedRequestHeaders
  unfolding need_version need_id need_timestamp
  parse_auth_headers headers = do
    v ← need_version headers
    d ← need_id header_device device_id_chars 16 headers
    t ← need_timestamp headers
    n ← need_id header_nonce nonce_chars nonce_bytes headers
    raw ← needed (headers header_signature)
    s ← or_raise bad_request (b64u_decode raw (some signature_bytes))
    ok (record { version = v; device_id = d; timestamp = t; nonce = n; signature = s })

-- `abs(now - timestamp)`
abbrev pub distance : ℕ → ℕ → ℕ
distance a b = (a - b) + (b - a)

unfoldable pub check_timestamp : ℕ → ℕ → ℕ → Result (Unit {0})
check_timestamp timestamp now skew_s =
    if ltb skew_s (distance now timestamp) then raise timestamp_out_of_window else ok tt

module _ (u : Unicode) (p : Primitives) where
  unfoldable pub verify_signature : Text → Text → Text → Result (Unit {0})
  verify_signature pubkey message signature =
      if p.verifies pubkey signature message then ok tt else raise invalid_signature

  abbrev pub hash_matches : Option Text → Text → Bool
  hash_matches none body_hash = true
  hash_matches (some expected) body_hash = text_eq body_hash expected

  unfoldable pub verify_request_signature :
      (pubkey method path : Text) (timestamp : ℕ) (nonce body device_id server_fp signature : Text)
      → Option Text
      → Result (Unit {0})
  unfolding verify_signature
  verify_request_signature pubkey method path timestamp nonce body device_id server_fp signature
        expected =
      do
        let body_hash = sha256_b64u p.sha256 body
        guard (hash_matches expected body_hash) body_hash_mismatch
        message ← canonical_request u method path timestamp nonce body_hash device_id server_fp
        verify_signature pubkey message signature
