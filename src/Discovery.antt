-- ===== src/Discovery.antt =====
-- pc-service/src/wol_unlock/discovery.py: what is advertised by mDNS, and when it is renewed.
-- zeroconf is a parameter: how its calls end.
use pc_helper_ios.Prelude.{
  ◌≡◌, refl, Bool, true, false, ◌&&◌, Option, none, some, List, [], ◌∷◌, if◌then◌else◌, take, Text,
  codes, join_by,
}
use pc_helper_ios.Errors.{Result, ok, err}
use pc_helper_ios.Config.Sections.{Config}
use pc_helper_ios.Config.Defaults.{before_dot}
use pc_helper_ios.Context.{ServerInfo, server_info}
use pc_helper_ios.Netif.{Interface, Kernel, list_interfaces, is_filled, is_up, starts_with}
use pc_helper_ios.Pairing.Manager.{
  Manager, Event, pair_opened, pair_request, pair_completed, pair_closed,
}
use pc_helper_ios.Pairing.Status.{is_active}
use pc_helper_ios.Unicode.{utf8}
use pc_helper_ios.Config.Load.{capabilities}

abbrev service_type : Text
service_type = codes "_wol-unlock._tcp.local."

abbrev named : Text → Text
named [] = codes "linux-pc"
named (c ∷ s) = c ∷ s

unfoldable pub local_hostname : (host : Text) → Text
unfolding before_dot
local_hostname host = named (before_dot host)

-- `inet_aton` is none for an OSError
abbrev usable : Interface → Bool
usable i = is_filled i.ipv4 && is_up i

abbrev packed : (inet_aton : Text → Option Text) → Option Text → List Text → List Text
packed inet_aton none rest = rest
packed inet_aton (some s) rest =
    if starts_with (codes "127.") s
    then rest
    else elim (inet_aton s) [ none ↦ rest | some a ↦ a ∷ rest ]

unfoldable pub addresses_of : (inet_aton : Text → Option Text) → List Interface → List Text
unfolding starts_with
addresses_of inet_aton [] = []
addresses_of inet_aton (i ∷ is) =
    let rest = addresses_of inet_aton is in if usable i then packed inet_aton i.ipv4 rest else rest

-- `_local_addresses`
unfoldable pub local_addresses : Kernel → (inet_aton : Text → Option Text) → List Text
unfolding addresses_of list_interfaces
local_addresses k inet_aton = addresses_of inet_aton (list_interfaces k false)

-- the TXT record, in bytes
pub record Txt : Type 0 where
  pub v : Text
  pub api : Text
  pub name : Text
  pub caps : Text
  pub fp : Text
  pub pair : Text

abbrev flag : Bool → Text
flag true = codes "1"
flag false = codes "0"

-- The capabilities and the fingerprint are ASCII, and are their own encodings.
unfoldable pub build_txt : Config → (fingerprint : Text) → Manager → Txt
unfolding utf8 capabilities join_by
build_txt c fingerprint m = record {
  v = codes "1";
  api = codes "1";
  name = take 255 (utf8 c.name);
  caps = join_by (codes ",") (capabilities c);
  fp = fingerprint;
  pair = flag (is_active m);
}

-- `info` is what zeroconf publishes of us; `is_listening` is whether the pairing calls us.
pub record Advertiser : Type 0 where
  pub zeroconf : Bool
  pub info : Option Txt
  pub is_listening : Bool

abbrev pub advertiser : Advertiser
advertiser = record { zeroconf = false; info = none; is_listening = false }

abbrev registered : Result (Unit {0}) → Advertiser → Result (Unit {0}) × Advertiser
registered (err x) a = (err x, a)
registered (ok done) a = (ok tt, record a { is_listening = true })

-- `start`: without an address there is nothing to advertise
unfoldable pub start :
    (addresses : List Text)
    → Txt
    → (register : Result (Unit {0})) → Advertiser
    → Result (Unit {0}) × Advertiser
start [] txt register a = (ok tt, a)
start (x ∷ addresses) txt register a =
    registered register (record a { zeroconf = true; info = some txt })

-- `_on_pairing_event`: whether a refresh is scheduled
abbrev pub is_refresh : Event → Bool
is_refresh pair_opened = true
is_refresh (pair_closed reason) = true
is_refresh pair_request = false
is_refresh (pair_completed d) = false

-- `refresh`, with the record of that moment
abbrev updated : Option Txt → Txt → Option Txt
updated none txt = none
updated (some old) txt = some txt

unfoldable pub refresh : Txt → Advertiser → Advertiser
refresh txt a = if a.zeroconf then record a { info = updated a.info txt } else a

unfoldable pub stop : Advertiser → Advertiser
stop a = record { zeroconf = false; info = none; is_listening = false }

-- what the TXT record says of the document of `/v1/server-info`
abbrev pub txt_of : ServerInfo → Txt
txt_of i = record {
  v = codes "1";
  api = codes "1";
  name = take 255 (utf8 i.name);
  caps = join_by (codes ",") i.caps;
  fp = i.fp;
  pair = flag i.pair;
}

-- The TXT record discloses nothing beside the server-info document, which anyone may ask for: it is
-- a function of that document.
pub build_txt-txt_of :
    (c : Config) (fingerprint : Text) (m : Manager)
    → build_txt c fingerprint m ≡ txt_of (server_info c fingerprint m)
unfolding build_txt server_info
build_txt-txt_of c fingerprint m = refl
