-- ===== src/Netif.antt =====
-- pc-service/src/wol_unlock/netif.py: the network interfaces. What the kernel answers, /sys, the
-- ioctls and /proc/net/route, is a parameter.
use pc_helper_ios.Prelude.{
  ℕ, Bool, true, false, ◌&&◌, not, Option, none, some, List, [], ◌∷◌, map, ◌==◌, if◌then◌else◌,
  is_some, keep, any, find, Text, codes, text_eq,
}
use pc_helper_ios.Unicode.{words_from}

pub record Interface : Type 0 where
  pub name : Text
  pub mac : Option Text
  pub ipv4 : Option Text
  pub netmask : Option Text
  pub broadcast : Option Text
  pub operstate : Text
  pub carrier : Option Bool

-- `names` is the sorted listing of /sys/class/net, none for an OSError; `read` is `_read` of an
-- attribute of an interface; `route` is the table in lines, none for an OSError.
pub record Kernel : Type 0 where
  pub names : Option (List Text)
  pub read : (name attribute : Text) → Option Text
  pub address : Text → Option Text
  pub netmask : Text → Option Text
  pub broadcast : Text → Option Text
  pub has_device : Text → Bool
  pub route : Option (List Text)
  pub is_space : ℕ → Bool

abbrev pub is_loopback : Interface → Bool
is_loopback i = text_eq i.name (codes "lo")

abbrev pub is_up : Interface → Bool
is_up i = text_eq i.operstate (codes "up")

-- the link state for the status
abbrev link_of : Option Bool → Text → Text
link_of none operstate = operstate
link_of (some true) operstate = codes "up"
link_of (some false) operstate = codes "down"

unfoldable pub link : Interface → Text
link i = link_of i.carrier i.operstate

-- an address of zeros, or none at all, is no MAC
abbrev mac_of : Option Text → Option Text
mac_of none = none
mac_of (some []) = none
mac_of (some (c ∷ s)) = if text_eq (c ∷ s) (codes "00:00:00:00:00:00") then none else some (c ∷ s)

abbrev carrier_of : Option Text → Option Bool
carrier_of none = none
carrier_of (some s) = some (text_eq s (codes "1"))

abbrev operstate_of : Option Text → Text
operstate_of none = codes "unknown"
operstate_of (some []) = codes "unknown"
operstate_of (some (c ∷ s)) = c ∷ s

-- `s.startswith(prefix)`
unfoldable pub starts_with : (prefix s : Text) → Bool
starts_with [] s = true
starts_with (p ∷ ps) [] = false
starts_with (p ∷ ps) (c ∷ s) = c == p && starts_with ps s

abbrev listed : Bool → List Text → List Text
listed include_loopback names =
    keep (λ name. not (text_eq name (codes "lo") && not include_loopback)) names

abbrev names_of : Option (List Text) → List Text
names_of none = []
names_of (some names) = names

abbrev pub virtual_prefixes : List Text
virtual_prefixes =
    codes "lo"
    ∷ codes "docker"
    ∷ codes "veth"
    ∷ codes "br-"
    ∷ codes "virbr"
    ∷ codes "tun"
    ∷ codes "tap"
    ∷ codes "wg"
    ∷ codes "zt"
    ∷ codes "tailscale"
    ∷ codes "vmnet"
    ∷ codes "bond"
    ∷ codes "dummy"
    ∷ codes "ifb"
    ∷ codes "sit"
    ∷ []

-- the first field of a line whose second is the destination 0.0.0.0
abbrev default_in : List Text → Option Text
default_in (name ∷ destination ∷ gateway ∷ fields) =
    if text_eq destination (codes "00000000") then some name else none
default_in _ = none

abbrev or_else : Option Text → Option Text → Option Text
or_else none rest = rest
or_else (some name) rest = some name

abbrev after_header : Option (List Text) → List Text
after_header none = []
after_header (some []) = []
after_header (some (header ∷ lines)) = lines

-- a text that is there and not empty
abbrev pub is_filled : Option Text → Bool
is_filled none = false
is_filled (some []) = false
is_filled (some (c ∷ s)) = true

abbrev has_zero : Option Text → Bool
has_zero none = false
has_zero (some s) = text_eq s (codes "0.0.0.0")

abbrev broadcast_of : Option Interface → Option Text → Option Text
broadcast_of none rest = rest
broadcast_of (some i) rest = i.broadcast

-- the interface of the default route, unless its name is empty
abbrev routed : Option Text → List Interface → Option Interface
routed none is = none
routed (some []) is = none
routed (some (c ∷ s)) is = find (λ i. text_eq i.name (c ∷ s) && is_filled i.broadcast) is

module _ (k : Kernel) where
  abbrev interface : Text → Interface
  interface name = record {
    name = name;
    mac = mac_of (k.read name (codes "address"));
    ipv4 = k.address name;
    netmask = k.netmask name;
    broadcast = k.broadcast name;
    operstate = operstate_of (k.read name (codes "operstate"));
    carrier = carrier_of (k.read name (codes "carrier"));
  }

  unfoldable pub list_interfaces : Bool → List Interface
  list_interfaces include_loopback = map interface (listed include_loopback (names_of k.names))

  unfoldable pub get_interface : Text → Option Interface
  unfolding list_interfaces
  get_interface name = find (λ i. text_eq i.name name) (list_interfaces true)

  unfoldable pub is_wakeable : Interface → Bool
  unfolding starts_with
  is_wakeable i =
      is_some i.mac
      && not (any (λ prefix. starts_with prefix i.name) virtual_prefixes)
      && k.has_device i.name

  unfoldable pub wakeable_interfaces : List Interface
  unfolding list_interfaces is_wakeable
  wakeable_interfaces = keep is_wakeable (list_interfaces false)

  unfoldable pub default_route : List Text → Option Text
  unfolding words_from
  default_route [] = none
  default_route (line ∷ lines) =
      or_else (default_in (words_from k.is_space [] line)) (default_route lines)

  unfoldable pub primary_broadcast : Option Text
  unfolding list_interfaces default_route
  primary_broadcast =
      let is = list_interfaces false in
      broadcast_of (routed (default_route (after_header k.route)) is) (
        broadcast_of (find (λ i. is_up i && is_filled i.broadcast && not (has_zero i.broadcast)) is)
          none)
