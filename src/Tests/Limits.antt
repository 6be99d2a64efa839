-- ===== src/Tests/Limits.antt =====
-- The rate limiter and the configuration at concrete values.
use pc_helper_ios.Prelude.{
  ℕ, All, ◌+◌, ◌-◌, ◌*◌, ◌^◌, ◌≤◌, ◌≡◌, refl, ◌↔◌, true, Option, none, some, List, [], ◌∷◌, ◌++◌,
  arith, if◌then◌else◌, is_some, length, any, Text, codes, text_eq,
}
use pc_helper_ios.I18n.{catalog, translate, detect_locale}
use pc_helper_ios.I18n.Agree.{is_ok, has_key, translate-any_locale}
use pc_helper_ios.I18n.Detect.{detect_locale-IsCatalog}
use pc_helper_ios.Unicode.{ascii, strip, to_lower}
use pc_helper_ios.RateLimit.{
  Bucket, Limits, limits, Buckets, get, put, refill, spend, is_stale, allow,
}
use pc_helper_ios.RateLimit.Refill.{request, granted, granted-le}
use pc_helper_ios.RateLimit.Keys.{length-allow-le}
use pc_helper_ios.Value.{object, Value, boolean, integer, pos, Fields, end, field, string}
use pc_helper_ios.Config.Mac.{IsPlain, normalize_mac}
use pc_helper_ios.Config.Address.{Address, Network, in_network, allows}
use pc_helper_ios.Config.Address.Blocks.{IsStrict, IsCovered, allows_iff}
use pc_helper_ios.Config.Sections.{
  Config, PairingConfig, HttpConfig, WakeTarget, Machine, pairing_config, http_config,
  validate_int_range, validate_port,
}
use pc_helper_ios.Config.Load.{load}
use pc_helper_ios.Config.Load.Loaded.{IsLoaded, load-IsLoaded}
use pc_helper_ios.Http.Handlers.{Ipv4, apply_overrides, IsOverride, apply_overrides-IsOverride}
use pc_helper_ios.Wake.{from_hex, repeat, build_magic_packet, magic_prefix}
use pc_helper_ios.Http.Serve.{wake, AgreeIn, IsMacOf, wake-meant}
use pc_helper_ios.Wake.Packet.{IsMagic, build_magic_packet-IsMagic}

-- 60 requests a minute and a burst of 2, in ticks of a second
abbrev slow : Limits
slow = limits 1 60 2 2

abbrev some_bucket : Bucket
some_bucket = record { tokens = 120; updated = 10 }

limiter : Unit {0}
unfolding get put refill spend is_stale allow text_eq request normalize_mac strip to_lower from_hex
    pairing_config http_config validate_int_range validate_port apply_overrides build_magic_packet
    pc_helper_ios.Value.get load
limiter = tt

granted-le_example : (granted slow 60 (10 ∷ 11 ∷ 11 ∷ 30 ∷ []) some_bucket).0 ≤ 120 + (30 - 10) * 60
granted-le_example =
    granted-le slow 60 (10 ∷ 11 ∷ 11 ∷ 30 ∷ []) some_bucket
      (omega arith, (omega arith, (omega arith, (omega arith, tt))))

abbrev table : Buckets
table = (codes "ip:a", some_bucket) ∷ (codes "ip:b", some_bucket) ∷ []

length-allow-le_example : length (allow slow (codes "ip:c") 60 12 table).1 ≤ 2
length-allow-le_example =
    length-allow-le slow (codes "ip:c") 60 12 table (omega arith) (omega arith)

plain-ascii : IsPlain ascii
plain-ascii = record { no_space = λ c h. ground arith; lowered = λ c h. ground arith }

abbrev mapped_address : Text → Option Address
mapped_address s =
    if text_eq s (codes "::ffff:10.0.0.1")
    then some (Address.v6 (65535 * 2 ^ 32 + 167772161))
    else none

abbrev ten : List Network
ten = Network.v4 167772160 8 ∷ []

ten-IsStrict : All IsStrict ten
ten-IsStrict = ((refl, omega arith), tt)

allows_iff_example :
    (allows mapped_address ten (codes "::ffff:10.0.0.1") ≡ true)
    ↔ ((ip : Address) × (mapped_address (codes "::ffff:10.0.0.1") ≡ some ip) × IsCovered ten ip)
allows_iff_example = allows_iff mapped_address ten (codes "::ffff:10.0.0.1") ten-IsStrict

abbrev pairing_table : Fields
pairing_table = field (codes "window_s") (integer (pos 15)) end

abbrev pairing_loaded : PairingConfig
pairing_loaded = record {
  window_s = 15;
  require_approval = true;
  max_attempts = 3;
  approval_timeout_s = 60;
}

abbrev target : WakeTarget
target = record {
  mac = codes "00:1a:2b:3c:4d:5e";
  broadcast = codes "10.0.0.1";
  port = 9;
  iface = none;
  secureon = none;
}

abbrev machine : Machine
machine = record {
  unicode = ascii;
  repr = λ v. [];
  ipv4_address = some;
  ip_address = λ s. some (Address.v4 0);
  ip_network = λ s. some (Network.v4 167772160 8);
  local_networks = codes "10.0.0.0/8" ∷ [];
  broadcast = none;
  host_name = codes "host";
  default_targets = target ∷ [];
}

abbrev http_loaded : HttpConfig
http_loaded = record {
  port = 8765;
  bind = codes "0.0.0.0";
  allowed_networks = ten;
  max_body_bytes = 8192;
  timestamp_skew_s = 30;
  rate_limit_per_minute = 120;
  rate_limit_burst = 30;
}

abbrev loaded : Config
loaded = record {
  name = codes "host";
  http = http_loaded;
  pairing = pairing_loaded;
  wake_targets = target ∷ [];
  mdns_enabled = true;
  unlock_enabled = true;
}

load-IsLoaded_example : IsLoaded loaded
unfolding limiter
load-IsLoaded_example =
    load-IsLoaded machine (field (codes "pairing") (object pairing_table) end) loaded refl

abbrev ip : Ipv4
ip = record { parse = λ s. some 167772415; print = λ n. codes "10.0.0.255" }

abbrev moved_target : WakeTarget
moved_target = record target { broadcast = codes "10.0.0.255"; port = 7 }

apply_overrides-IsOverride_example : IsOverride ip ten target moved_target
unfolding limiter in_network
apply_overrides-IsOverride_example =
    apply_overrides-IsOverride ip ten
      (field (codes "broadcast") (string (codes "x")) (field (codes "port") (integer (pos 7)) end))
      target moved_target refl

abbrev password : Text
password = codes "01:02:03:0a:0b:0c"

build_magic_packet-IsMagic_example :
    IsMagic ascii
      (codes "00-00-00-00-00-00")
      (some password)
      (magic_prefix ++ repeat 16 (0 ∷ 0 ∷ 0 ∷ 0 ∷ 0 ∷ 0 ∷ []) ++ 1 ∷ 2 ∷ 3 ∷ 10 ∷ 11 ∷ 12 ∷ [])
unfolding limiter
build_magic_packet-IsMagic_example =
    build_magic_packet-IsMagic ascii (codes "00-00-00-00-00-00") (some password) _ refl

-- it sends whatever it is given
abbrev eager : Text → WakeTarget → Option ℕ
eager packet t = some (length packet)

-- it refuses the targets that are not configured
abbrev careful : Text → WakeTarget → Option ℕ
careful packet t =
    if any (λ (x : WakeTarget). text_eq x.mac t.mac) loaded.wake_targets
    then some (length packet)
    else none

sockets_agree : AgreeIn (IsMacOf loaded.wake_targets) ascii eager careful
sockets_agree t packet meant magic = rw meant refl

wake-meant_example :
    wake (λ s. none) loaded [] eager ascii ip ≡ wake (λ s. none) loaded [] careful ascii ip
wake-meant_example = wake-meant (λ s. none) loaded [] ascii ip eager careful sockets_agree

translate-any_locale_example :
    (has_key (codes "en") (codes "pair.expires") ≡ has_key (codes "ru") (codes "pair.expires"))
    × (is_ok (translate (codes "en") (codes "pair.expires") (some (λ name spec. none)))
        ≡ is_ok (translate (codes "ru") (codes "pair.expires") (some (λ name spec. none))))
translate-any_locale_example =
    translate-any_locale (codes "en") (codes "ru") (codes "pair.expires") (some (λ name spec. none))

detect_locale-IsCatalog_example :
    is_some (catalog (detect_locale ascii (λ var. some (codes "ru_RU.UTF-8")))) ≡ true
detect_locale-IsCatalog_example = detect_locale-IsCatalog ascii (λ var. some (codes "ru_RU.UTF-8"))
