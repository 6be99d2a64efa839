-- ===== src/Crypto/Canonical.antt =====
-- pc-service/src/wol_unlock/crypto/canonical.py: the byte strings that are signed.
pub mod Lines
pub mod Injective
use pc_helper_ios.Prelude.{
  ℕ, zero, suc, ◌+◌, ◌-◌, ◌*◌, ◌/◌, ◌%◌, ◌^◌, ◌≤◌, ◌<◌, min, max, String, ◌≡◌, refl, sym, ap, ◌∙◌,
  subst, fun_ext, ◌≢◌, ◌↔◌, ◌⊎◌, inl, inr, Bool, true, false, ◌&&◌, ◌||◌, not, Option, none, some,
  List, [], ◌∷◌, ◌++◌, map, reverse, arith, ltb, leb, ◌==◌, if◌then◌else◌, ltb→lt, lt→ltb, leb→le,
  le→leb, ==_iff, Bool-cases, Option-cases, is_some, length, take, drop, keep, any, all, find,
  length-append, length-keep-le, length-drop, insert_by, sort_by, length-sort_by, All, All-append,
  All-keep, Text, codes, text_eq, text_eq_refl, text_eq_iff,
}
use pc_helper_ios.Errors.{Result, ok, err, value_error, ◌>>=◌}
use pc_helper_ios.Unicode.{Unicode, to_upper, to_decimal}
use pc_helper_ios.Crypto.Base64.{b64u_encode}

abbrev pub domain_request : Text
domain_request = codes "wol-unlock/v1/request"

abbrev pub domain_response : Text
domain_response = codes "wol-unlock/v1/response"

abbrev pub domain_pair : Text
domain_pair = codes "wol-unlock/v1/pair"

abbrev pub nonce_bytes : ℕ
nonce_bytes = 16

abbrev pub nonce_chars : ℕ
nonce_chars = 22

abbrev pub signature_bytes : ℕ
signature_bytes = 64

abbrev pub pubkey_bytes : ℕ
pubkey_bytes = 32

abbrev pub device_id_chars : ℕ
device_id_chars = 22

-- a character that ends a line
abbrev pub is_line_end : ℕ → Bool
is_line_end c = c == 10 || c == 13

unfoldable pub field : Text → Result Text
field text = if any is_line_end text then err value_error else ok text

-- `"\n".join(parts) + "\n"`
unfoldable pub lines : List Text → Text
lines [] = []
lines (p ∷ ps) = p ++ 10 ∷ lines ps

-- `.encode("ascii")`: UnicodeEncodeError is a ValueError
unfoldable pub encode_ascii : Text → Result Text
encode_ascii s = if all (λ c. ltb c 128) s then ok s else err value_error

module _ (sha256 : Text → Text) where
  unfoldable pub sha256_b64u : Text → Text
  sha256_b64u s = b64u_encode (sha256 s)

  unfoldable pub fingerprint : Text → Result Text
  fingerprint pubkey =
      if length pubkey == pubkey_bytes then ok (b64u_encode (sha256 pubkey)) else err value_error

  unfoldable pub device_id_for : Text → Result Text
  device_id_for pubkey =
      if length pubkey == pubkey_bytes
      then ok (b64u_encode (take 16 (sha256 pubkey)))
      else err value_error

module _ (u : Unicode) where
  -- the timestamp is the integer of the header, printed
  unfoldable pub canonical_request : Text → Text → ℕ → Text → Text → Text → Text → Result Text
  unfolding lines encode_ascii
  canonical_request method path timestamp nonce body_sha256 device_id server_fp = do
    m ← field method
    p ← field path
    t ← field (to_decimal timestamp)
    n ← field nonce
    b ← field body_sha256
    d ← field device_id
    f ← field server_fp
    encode_ascii (lines (domain_request ∷ to_upper u m ∷ p ∷ t ∷ n ∷ b ∷ d ∷ f ∷ []))

  unfoldable pub canonical_pair : Text → Text → Text → Result Text
  unfolding lines encode_ascii
  canonical_pair code device_pubkey server_fp = do
    c ← field code
    d ← field device_pubkey
    f ← field server_fp
    encode_ascii (lines (domain_pair ∷ to_upper u c ∷ d ∷ f ∷ []))

unfoldable pub canonical_response : ℕ → Text → Text → Text → Result Text
unfolding lines encode_ascii
canonical_response status nonce_echo body_sha256 server_fp = do
  s ← field (to_decimal status)
  n ← field nonce_echo
  b ← field body_sha256
  f ← field server_fp
  encode_ascii (lines (domain_response ∷ s ∷ n ∷ b ∷ f ∷ []))
