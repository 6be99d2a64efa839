-- ===== src/Config/Sections/Ranges.antt =====
-- Every number of a configuration that loads is in its range.
use pc_helper_ios.Prelude.{
  ℕ, ◌≤◌, ◌<◌, ◌≡◌, refl, sym, ap, subst, Bool, true, false, List, [], ◌∷◌, arith, ltb, ltb→lt,
  is_some, length, Text, codes,
}
use pc_helper_ios.Errors.{Result, ok, ◌>>=◌, ◌>>◌, >>=-eq-ok, ok-injective}
use pc_helper_ios.Value.{
  pos, negsuc, Value, null, other, boolean, integer, string, array, object, Fields, get, or_default,
  text_of,
}
use pc_helper_ios.Config.Address.{Network}
use pc_helper_ios.Config.Sections.{
  HttpConfig, PairingConfig, Machine, require, validate_int_range, validate_port, validate_bool,
  int_at, bool_at, networks_of, entries_of, http_config, pairing_config, found,
}

abbrev InRange : ℕ → ℕ → ℕ → Type 0
InRange low high n = (low ≤ n) × (n ≤ high)

validate_int_range-InRange :
    (v : Value) (low high n : ℕ) → validate_int_range v low high ≡ ok n → InRange low high n
unfolding validate_int_range
validate_int_range-InRange (integer (pos k)) low high n h = ground arith
validate_int_range-InRange (integer (negsuc k)) low high n h = cc
validate_int_range-InRange null low high n h = cc
validate_int_range-InRange (other b) low high n h = cc
validate_int_range-InRange (boolean b) low high n h = cc
validate_int_range-InRange (string s) low high n h = cc
validate_int_range-InRange (array vs) low high n h = cc
validate_int_range-InRange (object fs) low high n h = cc

-- one more field of a section, with its range
range_then {ℓ} :
    {A : Type ℓ} (v : Value) (low high : ℕ) (f : ℕ → Result A) {a : A}
    → (validate_int_range v low high >>= f) ≡ ok a
    → (n : ℕ) × InRange low high n × (f n ≡ ok a)
range_then v low high f h =
    let (n, valid, rest) = >>=-eq-ok (validate_int_range v low high) f h in
    (n, validate_int_range-InRange v low high n valid, rest)

pub require_then {ℓ} :
    {A : Type ℓ} (b : Bool) (r : Result A) {a : A}
    → (require b >> r) ≡ ok a
    → (b ≡ true) × (r ≡ ok a)
require_then true r h = (refl, h)
require_then false r h = cc

pub record PairingInRange (c : PairingConfig) : Type 0 where
  pub window : InRange 15 600 c.window_s
  pub attempts : InRange 1 10 c.max_attempts
  pub approval : InRange 10 300 c.approval_timeout_s

-- A `[pairing]` table that loads has every number in its range, at least one attempt included.
pub pairing_config-InRange :
    (raw : Fields) (c : PairingConfig) → pairing_config raw ≡ ok c → PairingInRange c
unfolding pairing_config
pairing_config-InRange raw c h =
    let (asked, _, h1) = >>=-eq-ok (validate_bool (bool_at "require_approval" true raw)) _ h in
    let (w, hw, h2) = range_then (int_at "window_s" 120 raw) 15 600 _ h1 in
    let (a, ha, h3) = range_then (int_at "max_attempts" 3 raw) 1 10 _ h2 in
    let (t, ht, h4) = range_then (int_at "approval_timeout_s" 60 raw) 10 300 _ h3 in
    subst PairingInRange (ok-injective h4) (record { window = hw; attempts = ha; approval = ht })

pub record HttpInRange (c : HttpConfig) : Type 0 where
  pub port : InRange 1 65535 c.port
  pub networks : 0 < length c.allowed_networks
  pub body : InRange 256 1048576 c.max_body_bytes
  pub skew : InRange 5 300 c.timestamp_skew_s
  pub rate : InRange 1 10000 c.rate_limit_per_minute
  pub burst : InRange 1 1000 c.rate_limit_burst

module _ (m : Machine) where
  length-networks_of :
      (es : List Text) (ns : List Network) → networks_of m es ≡ ok ns → length ns ≡ length es
  unfolding networks_of
  length-networks_of [] ns h = ap (length {A = Network}) (sym (ok-injective h))
  length-networks_of (e ∷ es) ns h =
      let (n, _, h1) = >>=-eq-ok (found (m.ip_network e)) _ h in
      let (rest, parsed, h2) = >>=-eq-ok (networks_of m es) _ h1 in
      omega (arith, length-networks_of es rest parsed, ap (length {A = Network}) (ok-injective h2))

  -- An `[http]` table that loads has every number in its range and at least one allowed network.
  pub http_config-InRange :
      (raw : Fields) (c : HttpConfig) → http_config m raw ≡ ok c → HttpInRange c
  unfolding http_config validate_port
  http_config-InRange raw c h =
      let (es, _, h1) = >>=-eq-ok (entries_of m (get (codes "allowed_networks") raw)) _ h in
      let (many, h2) = require_then (ltb 0 (length es)) _ h1 in
      let (ns, parsed, h3) = >>=-eq-ok (networks_of m es) _ h2 in
      let (_, h4) =
        require_then
          (is_some (
            m.ip_address
              (text_of m.repr (or_default (get (codes "bind") raw) (string (codes "0.0.0.0"))))))
          _ h3 in
      let (p, hp, h5) = range_then (int_at "port" 8765 raw) 1 65535 _ h4 in
      let (b, hb, h6) = range_then (int_at "max_body_bytes" 8192 raw) 256 1048576 _ h5 in
      let (s, hs, h7) = range_then (int_at "timestamp_skew_s" 30 raw) 5 300 _ h6 in
      let (r, hr, h8) = range_then (int_at "rate_limit_per_minute" 120 raw) 1 10000 _ h7 in
      let (t, ht, h9) = range_then (int_at "rate_limit_burst" 30 raw) 1 1000 _ h8 in
      let networks : 0 < length ns =
        omega (arith, length-networks_of es ns parsed, ltb→lt 0 (length es) many) in
      subst HttpInRange (ok-injective h9)
        (record { port = hp; networks = networks; body = hb; skew = hs; rate = hr; burst = ht })
