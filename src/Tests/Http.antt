-- ===== src/Tests/Http.antt =====
-- Requests against the middlewares.
use pc_helper_ios.Prelude.{
  ℕ, ◌+◌, ◌*◌, ◌≡◌, refl, true, none, some, List, [], ◌∷◌, arith, Text, codes, text_eq,
}
use pc_helper_ios.Errors.{ErrorCode, Exc, ok}
use pc_helper_ios.Unicode.{ascii, strip, is_digits, int_of, to_upper, to_decimal}
use pc_helper_ios.Config.Address.{Address, Network}
use pc_helper_ios.Crypto.Base64.{b64u_decode, b64u_encode, sextet, char_of}
use pc_helper_ios.Crypto.Canonical.{sha256_b64u, canonical_request, field}
use pc_helper_ios.Crypto.Verify.{
  header_version, header_device, header_timestamp, header_nonce, header_signature, Headers,
  SignedRequestHeaders, parse_auth_headers, check_timestamp, verify_request_signature,
}
use pc_helper_ios.RateLimit.{limits, allow}
use pc_helper_ios.Store.Statements.{
  Device, Tables, empty, new_device, get_device, consume_nonce, touch_device, sweep_nonces,
}
use pc_helper_ios.Store.Statements.Replay.{writes, write, Write, touch, sweep}
use pc_helper_ios.Http.Request.{Request, Clocks, Context, World, matched}
use pc_helper_ios.Http.Auth.{authenticate}
use pc_helper_ios.Http.Auth.Admission.{IsAdmitted, authenticate-IsAdmitted}
use pc_helper_ios.Http.Auth.{verify, spend_nonce}
use pc_helper_ios.Http.Auth.Replay.{replay_refused}
use pc_helper_ios.Http.Auth.Reopened.{swept, spent_after_sweep}
use pc_helper_ios.Store.Statements.{sweep_nonces}
use pc_helper_ios.Tests.Data.{zeros, letters, toy, zero_id, zero_signature}

abbrev context : Context
context = record {
  unicode = ascii;
  primitives = toy;
  ip_address = λ s. some (Address.v4 167772161);
  fingerprint = letters 43;
  sign = λ s. zeros 64;
  networks = Network.v4 167772160 8 ∷ [];
  max_body_bytes = 8192;
  skew = 30;
  limits = limits 1 120 30 100;
  token = 60;
}

abbrev signed : Headers
signed header_version = some (codes "1")
signed header_device = some zero_id
signed header_timestamp = some (codes "42")
signed header_nonce = some zero_id
signed header_signature = some zero_signature

abbrev parsed : SignedRequestHeaders
parsed = record {
  version = 1;
  device_id = zero_id;
  timestamp = 42;
  nonce = zero_id;
  signature = zeros 64;
}

abbrev request : Request
request = record {
  method = codes "GET";
  path = codes "/v1/status";
  query_string = [];
  headers = signed;
  remote = some (codes "10.0.0.1");
  match_info = matched;
  content_length = none;
  received = ok [];
}

abbrev clocks : ℕ → Clocks
clocks now = record { ip_ticks = 5; device_ticks = 5; now = now; done = now }

abbrev phone : Device
phone = new_device zero_id (zeros 32) (codes "Phone") (codes "ios") 5

abbrev one_device : Tables
one_device = record empty { devices = phone ∷ [] }

abbrev before : World
before = record {
  store = record { connected = true; tables = one_device };
  buckets = [];
  device = none;
}

requests : Unit {0}
unfolding authenticate parse_auth_headers check_timestamp verify_request_signature canonical_request
    sha256_b64u field to_upper to_decimal b64u_decode b64u_encode sextet char_of strip is_digits
    int_of allow get_device consume_nonce touch_device writes write text_eq
requests = tt

unfoldable after : World
unfolding requests
after = (authenticate context request (clocks 40) before).1

accepted : authenticate context request (clocks 40) before ≡ (ok phone, after)
unfolding requests after
accepted = refl

authenticate-IsAdmitted_example :
    (a : IsAdmitted context request (clocks 40) one_device phone) × (after.store.tables
      ≡ touch_device zero_id 40 (consume_nonce zero_id a.headers.nonce (40 + 2 * 30) one_device).1)
authenticate-IsAdmitted_example =
    authenticate-IsAdmitted context request (clocks 40) before phone after accepted

abbrev between_them : List Write
between_them = sweep 55 ∷ touch zero_id 56 ∷ []

abbrev later : World
later = record after {
  store = record { connected = true; tables = writes between_them after.store.tables };
}

replay_refused_example : ¬ (authenticate context request (clocks 60) later ≡ (ok phone, later))
unfolding requests
replay_refused_example =
    replay_refused context request (clocks 40) before phone after parsed request (clocks 60)
      between_them later phone later accepted refl refl (omega arith) (omega arith, (tt, tt)) refl

-- stamped as far ahead of the clock as is let through
abbrev ahead : SignedRequestHeaders
ahead = record parsed { timestamp = 70 }

spending : Unit {0}
unfolding requests verify spend_nonce sweep_nonces
spending = tt

unfoldable spent_world : World
unfolding spending
spent_world = (spend_nonce context (clocks 40) ahead phone before).1

spent_after_sweep_example :
    (verify context request (clocks 100) ahead phone ≡ ok tt)
    × ((spend_nonce context (clocks 100) ahead phone (swept 100 spent_world)).0 ≡ ok tt)
unfolding spending spent_world
spent_after_sweep_example =
    spent_after_sweep context request (clocks 40) (clocks 100) ahead phone before spent_world refl
      refl refl refl refl

abbrev name : ErrorCode → Text
name c = codes "error"

abbrev message : Exc → Text
message x = []
