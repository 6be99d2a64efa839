-- ===== src/Tests/Crypto.antt =====
-- The signed strings, the encoding and the headers at concrete inputs.
use pc_helper_ios.Prelude.{
  ℕ, ◌+◌, ◌-◌, ◌≤◌, ◌≡◌, refl, ◌≢◌, ◌↔◌, ◌||◌, none, some, [], ◌∷◌, arith, ◌==◌, if◌then◌else◌,
  length, Text, codes, text_eq,
}
use pc_helper_ios.Errors.{Result, ok, err, value_error}
use pc_helper_ios.Unicode.{
  Unicode, between, IsDatabase-ascii, ascii, to_upper, to_decimal, is_digits, int_of, strip,
}
use pc_helper_ios.Crypto.Base64.{b64u_encode, b64u_decode, sextet, char_of}
use pc_helper_ios.Crypto.Base64.RoundTrip.{b64u_decode-b64u_encode, b64u_decode_canonical}
use pc_helper_ios.Crypto.Canonical.{
  field, lines, encode_ascii, canonical_request, canonical_pair, canonical_response, sha256_b64u,
}
use pc_helper_ios.Crypto.Canonical.Injective.{canonical_request-injective, domains_apart}
use pc_helper_ios.Crypto.Verify.{
  check_timestamp, header_version, header_device, header_timestamp, header_nonce, header_signature,
  Headers, SignedRequestHeaders, parse_auth_headers, need_timestamp, verify_request_signature,
}
use pc_helper_ios.Crypto.Verify.Laws.{
  IsId, parse_auth_headers-ok, check_timestamp_iff, need_timestamp_spellings,
  need_timestamp_escapes,
}
use pc_helper_ios.Tests.Data.{zeros, zero_id, zero_signature}

crypto : Unit {0}
unfolding canonical_request canonical_pair canonical_response field lines encode_ascii to_upper
    to_decimal b64u_encode b64u_decode text_eq sextet char_of sha256_b64u need_timestamp
    parse_auth_headers verify_request_signature check_timestamp strip is_digits int_of
crypto = tt

a_request : Text → Text → ℕ → Result Text
unfolding crypto
a_request method nonce t =
    canonical_request ascii method (codes "/v1/status") t nonce (codes "b") zero_id (codes "f")

canonical_request-injective_example :
    (to_upper ascii (codes "get") ≡ to_upper ascii (codes "GET"))
    × (codes "/v1/status" ≡ codes "/v1/status")
    × (◌≡◌ {A = ℕ} 7 7)
    × (codes "n" ≡ codes "n")
    × (codes "b" ≡ codes "b")
    × (codes "d" ≡ codes "d")
    × (codes "f" ≡ codes "f")
unfolding crypto
canonical_request-injective_example =
    canonical_request-injective ascii IsDatabase-ascii (codes "get") (codes "GET")
      (codes "/v1/status") (codes "/v1/status") 7 7 (codes "n") (codes "n") (codes "b") (codes "b")
      (codes "d") (codes "d") (codes "f") (codes "f") _ refl refl

abbrev request_string : Text
request_string = codes "wol-unlock/v1/request\nGET\n/\n7\nn\nb\nd\nf\n"

abbrev response_string : Text
response_string = codes "wol-unlock/v1/response\n7\nn\nb\nf\n"

abbrev pair_string : Text
pair_string = codes "wol-unlock/v1/pair\nABCD\nk\nf\n"

domains_apart_example :
    (request_string ≢ response_string)
    × (request_string ≢ pair_string)
    × (response_string ≢ pair_string)
unfolding crypto
domains_apart_example =
    domains_apart ascii IsDatabase-ascii (codes "get") (codes "/") 7 (codes "n") (codes "b")
      (codes "d") (codes "f") 7 (codes "n") (codes "b") (codes "f") (codes "abcd") (codes "k")
      (codes "f") request_string response_string pair_string refl refl refl

b64u_decode-b64u_encode_example : b64u_decode (codes "_w8H") (some 3) ≡ ok (255 ∷ 15 ∷ 7 ∷ [])
unfolding crypto
b64u_decode-b64u_encode_example =
    b64u_decode-b64u_encode (255 ∷ 15 ∷ 7 ∷ []) (omega arith, (omega arith, (omega arith, tt)))

b64u_decode_canonical_example : (b64u_encode (zeros 16) ≡ zero_id) × (length (zeros 16) ≡ 16)
unfolding crypto
b64u_decode_canonical_example = b64u_decode_canonical zero_id 16 (zeros 16) refl

abbrev header_of : Text → Headers
header_of t header_version = some (codes "1")
header_of t header_device = some zero_id
header_of t header_timestamp = some t
header_of t header_nonce = some zero_id
header_of t header_signature = some zero_signature

abbrev parsed_headers : SignedRequestHeaders
parsed_headers = record {
  version = 1;
  device_id = zero_id;
  timestamp = 42;
  nonce = zero_id;
  signature = zeros 64;
}

parse_auth_headers-ok_example :
    (parsed_headers.version ≡ 1)
    × IsId 16 parsed_headers.device_id
    × IsId 16 parsed_headers.nonce
    × (length parsed_headers.signature ≡ 64)
unfolding crypto
parse_auth_headers-ok_example =
    parse_auth_headers-ok ascii (header_of (codes " 42")) parsed_headers refl

-- a database with one more script of decimal digits, the Arabic-Indic ones
abbrev arabic : Unicode
arabic = record ascii {
  is_digit = λ c. between 48 57 c || between 1632 1641 c;
  digit_value = λ c.
      if between 48 57 c
      then some (c - 48)
      else if between 1632 1641 c
      then some (c - 1632)
      else none;
}

-- a database with a digit that is not decimal, the superscript two
abbrev superscript : Unicode
superscript = record ascii { is_digit = λ c. between 48 57 c || c == 178 }

check_timestamp_iff_example : (check_timestamp 10 40 30 ≡ ok tt) ↔ ((10 ≤ 40 + 30) × (40 ≤ 10 + 30))
check_timestamp_iff_example = check_timestamp_iff 10 40 30

-- both are what the header parser makes of digits that are not ASCII
foreign_digits :
    (need_timestamp arabic (header_of (1636 ∷ 1634 ∷ [])) ≡ ok 42)
    × (need_timestamp superscript (header_of (52 ∷ 178 ∷ [])) ≡ err value_error)
unfolding crypto
foreign_digits = (
  need_timestamp_spellings arabic (header_of (1636 ∷ 1634 ∷ [])) (1636 ∷ 1634 ∷ []) 42 refl refl
      refl refl,
  need_timestamp_escapes superscript (header_of (52 ∷ 178 ∷ [])) (52 ∷ 178 ∷ []) refl refl refl
      refl,
)
