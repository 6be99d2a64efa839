-- ===== src/Config/Sections.antt =====
-- pc-service/src/wol_unlock/config.py: the sections of the file, and `load` after the file is read.
pub mod Ranges
use pc_helper_ios.Prelude.{
  ℕ, zero, suc, ◌+◌, ◌-◌, ◌*◌, ◌/◌, ◌%◌, ◌^◌, ◌≤◌, ◌<◌, min, max, String, ◌≡◌, refl, sym, ap, ◌∙◌,
  subst, fun_ext, ◌≢◌, ◌↔◌, ◌⊎◌, inl, inr, Bool, true, false, ◌&&◌, ◌||◌, not, Option, none, some,
  List, [], ◌∷◌, ◌++◌, map, reverse, arith, ltb, leb, ◌==◌, if◌then◌else◌, ltb→lt, lt→ltb, leb→le,
  le→leb, ==_iff, Bool-cases, Option-cases, is_some, length, take, drop, keep, any, all, find,
  length-append, length-keep-le, length-drop, insert_by, sort_by, length-sort_by, All, All-append,
  All-keep, Text, codes, text_eq, text_eq_refl, text_eq_iff,
}
use pc_helper_ios.Errors.{Result, ok, err, config_error, ◌>>=◌, ◌>>◌}
use pc_helper_ios.Unicode.{Unicode, strip, to_lower, utf8}
use pc_helper_ios.Value.{
  ℤ, pos, Value, null, other, boolean, integer, string, array, object, Items, Fields, end, get,
  items, or_default, truthy, text_of,
}
use pc_helper_ios.Config.Mac.{is_hex, normalize_mac, without}
use pc_helper_ios.Config.Address.{Address, Network}

pub record WakeTarget : Type 0 where
  pub mac : Text
  pub broadcast : Text
  pub port : ℕ
  pub iface : Option Text
  pub secureon : Option Text

pub record HttpConfig : Type 0 where
  pub port : ℕ
  pub bind : Text
  pub allowed_networks : List Network
  pub max_body_bytes : ℕ
  pub timestamp_skew_s : ℕ
  pub rate_limit_per_minute : ℕ
  pub rate_limit_burst : ℕ

pub record PairingConfig : Type 0 where
  pub window_s : ℕ
  pub require_approval : Bool
  pub max_attempts : ℕ
  pub approval_timeout_s : ℕ

pub record Config : Type 0 where
  pub name : Text
  pub http : HttpConfig
  pub pairing : PairingConfig
  pub wake_targets : List WakeTarget
  pub mdns_enabled : Bool
  pub unlock_enabled : Bool

-- What the machine and the standard library answer: the character database, `repr`, the parsers of
-- `ipaddress`, the interfaces' networks and broadcast address, the host's name and its NICs, which
-- Config/Defaults fills in.
pub record Machine : Type 0 where
  pub unicode : Unicode
  pub repr : Value → Text
  pub ipv4_address : Text → Option Text
  pub ip_address : Text → Option Address
  pub ip_network : Text → Option Network
  pub local_networks : List Text
  pub broadcast : Option Text
  pub host_name : Text
  pub default_targets : List WakeTarget

abbrev pub require : Bool → Result (Unit {0})
require true = ok tt
require false = err config_error

abbrev pub found {ℓ} : {A : Type ℓ} → Option A → Result A
found none = err config_error
found (some a) = ok a

-- `_validate_int_range`: a Boolean is no integer here
unfoldable pub validate_int_range : Value → ℕ → ℕ → Result ℕ
validate_int_range (integer (pos n)) low high =
    if leb low n && leb n high then ok n else err config_error
validate_int_range _ low high = err config_error

unfoldable pub validate_port : Value → Result ℕ
unfolding validate_int_range
validate_port v = validate_int_range v 1 65535

abbrev pub validate_bool : Value → Result Bool
validate_bool (boolean b) = ok b
validate_bool _ = err config_error

-- `raw.get(key, default)` for an integer default
abbrev pub int_at : String → ℕ → Fields → Value
int_at key d raw = or_default (get (codes key) raw) (integer (pos d))

abbrev pub bool_at : String → Bool → Fields → Value
bool_at key d raw = or_default (get (codes key) raw) (boolean d)

-- `raw.get(key) or None`
abbrev pub if_true : Option Value → Option Value
if_true none = none
if_true (some v) = if truthy v then some v else none

abbrev pub first_text : (Value → Text) → Option Value → Option Text → Option Text
first_text repr none d = d
first_text repr (some v) d = some (text_of repr v)

module _ (m : Machine) where
  unfoldable pub validate_ipv4 : Text → Result Text
  validate_ipv4 value = found (m.ipv4_address (strip m.unicode value))

  -- the SecureOn password as 12 hexadecimal digits
  unfoldable pub secureon_of : Option Value → Result (Option Text)
  secureon_of none = ok none
  secureon_of (some v) = do
    let cleaned = to_lower m.unicode (without b'-' (without b':' (text_of m.repr v)))
    require (length cleaned == 12 && all is_hex cleaned)
    ok (some cleaned)

  abbrev iface_of : Option Value → Option Text
  iface_of none = none
  iface_of (some v) = some (text_of m.repr v)

  unfoldable pub wake_target : Value → Result WakeTarget
  unfolding truthy validate_ipv4 secureon_of
  wake_target (object raw) = do
    mac_value ← found (get (codes "mac") raw)
    broadcast ← found (first_text m.repr (if_true (get (codes "broadcast") raw)) m.broadcast)
    secureon ← secureon_of (if_true (get (codes "secureon") raw))
    mac ← normalize_mac m.unicode (text_of m.repr mac_value)
    address ← validate_ipv4 broadcast
    port ← validate_port (int_at "port" 9 raw)
    ok (record {
      mac = mac;
      broadcast = address;
      port = port;
      iface = iface_of (if_true (get (codes "iface") raw));
      secureon = secureon;
    })
  wake_target _ = err config_error

  unfoldable pub networks_of : List Text → Result (List Network)
  networks_of [] = ok []
  networks_of (e ∷ es) = do n ← found (m.ip_network e); ns ← networks_of es; ok (n ∷ ns)

  -- `allowed_networks`, or the networks of this machine where the key is not there
  abbrev pub entries_of : Option Value → Result (List Text)
  entries_of none = ok m.local_networks
  entries_of (some (array vs)) = ok (map (text_of m.repr) (items vs))
  entries_of (some _) = err config_error

  unfoldable pub http_config : Fields → Result HttpConfig
  unfolding networks_of
  http_config raw = do
    entries ← entries_of (get (codes "allowed_networks") raw)
    require (ltb 0 (length entries))
    networks ← networks_of entries
    let bind = text_of m.repr (or_default (get (codes "bind") raw) (string (codes "0.0.0.0")))
    require (is_some (m.ip_address bind))
    port ← validate_port (int_at "port" 8765 raw)
    max_body_bytes ← validate_int_range (int_at "max_body_bytes" 8192 raw) 256 1048576
    timestamp_skew_s ← validate_int_range (int_at "timestamp_skew_s" 30 raw) 5 300
    per_minute ← validate_int_range (int_at "rate_limit_per_minute" 120 raw) 1 10000
    burst ← validate_int_range (int_at "rate_limit_burst" 30 raw) 1 1000
    ok (record {
      port = port;
      bind = bind;
      allowed_networks = networks;
      max_body_bytes = max_body_bytes;
      timestamp_skew_s = timestamp_skew_s;
      rate_limit_per_minute = per_minute;
      rate_limit_burst = burst;
    })

unfoldable pub pairing_config : Fields → Result PairingConfig
pairing_config raw = do
  require_approval ← validate_bool (bool_at "require_approval" true raw)
  window_s ← validate_int_range (int_at "window_s" 120 raw) 15 600
  max_attempts ← validate_int_range (int_at "max_attempts" 3 raw) 1 10
  approval_timeout_s ← validate_int_range (int_at "approval_timeout_s" 60 raw) 10 300
  ok (record {
    window_s = window_s;
    require_approval = require_approval;
    max_attempts = max_attempts;
    approval_timeout_s = approval_timeout_s;
  })
