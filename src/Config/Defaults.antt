-- ===== src/Config/Defaults.antt =====
-- pc-service/src/wol_unlock/config.py: the directories, what is detected of the machine, and the
-- first configuration file. `pathlib`, `ipaddress` and the kernel are parameters.
use pc_helper_ios.Prelude.{
  ℕ, Bool, false, ◌&&◌, ◌||◌, not, Option, none, some, List, [], ◌∷◌, ◌++◌, map, ltb, ◌==◌,
  if◌then◌else◌, is_some, length, any, Text, codes, text_eq, or_text, join_by,
}
use pc_helper_ios.Errors.{Result, ok, err, config_error}
use pc_helper_ios.Unicode.{to_decimal}
use pc_helper_ios.Netif.{
  Interface, Kernel, list_interfaces, wakeable_interfaces, is_filled, primary_broadcast, link,
}
use pc_helper_ios.Config.Sections.{WakeTarget, Machine}

abbrev app_name : Text
app_name = codes "wol-unlock"

abbrev default_port : ℕ
default_port = 8765

abbrev pub default_wol_port : ℕ
default_wol_port = 9

-- the environment, the home directory, and `Path(a) / b`
module _ (environ : Text → Option Text) (home : Text) (join : Text → Text → Text) where
  unfoldable pub config_dir : Text
  config_dir =
      join (or_text (environ (codes "XDG_CONFIG_HOME")) (join home (codes ".config"))) app_name

  unfoldable pub config_path : Text
  unfolding config_dir
  config_path = join config_dir (codes "config.toml")

  unfoldable pub state_dir : Text
  state_dir =
      join
        (or_text (environ (codes "XDG_DATA_HOME"))
          (join (join home (codes ".local")) (codes "share")))
        app_name

  -- without a runtime directory, a private one under the state directory
  unfoldable pub runtime_dir : Text
  unfolding state_dir
  runtime_dir = or_text (environ (codes "XDG_RUNTIME_DIR")) (join state_dir (codes "run"))

  unfoldable pub control_socket_path : Text
  unfolding runtime_dir
  control_socket_path = join runtime_dir (app_name ++ codes ".sock")

-- `socket.gethostname().split(".")[0]`
unfoldable pub before_dot : Text → Text
before_dot [] = []
before_dot (c ∷ s) = let rest = before_dot s in if c == 46 then [] else c ∷ rest

unfoldable pub default_display_name : (host : Text) → Text
unfolding before_dot
default_display_name host = or_text (some (before_dot host)) (codes "Linux PC")

abbrev text_or_none : Option Text → Text
text_or_none none = []
text_or_none (some s) = s

-- the text of the network of an address and a netmask, with whether it is a loopback one; none is
-- a ValueError
module _ (k : Kernel) (ip_network : Text → Option (Text × Bool)) where
  abbrev network_of : Interface → Option (Text × Bool)
  network_of i =
      if is_filled i.ipv4 && is_filled i.netmask
      then ip_network (text_or_none i.ipv4 ++ 47 ∷ text_or_none i.netmask)
      else none

  abbrev with_network : Option (Text × Bool) → List Text → List Text
  with_network none nets = nets
  with_network (some (net, is_loopback)) nets =
      if is_loopback || any (text_eq net) nets then nets else nets ++ net ∷ []

  unfoldable pub add_networks : List Interface → List Text → List Text
  add_networks [] nets = nets
  add_networks (i ∷ is) nets = add_networks is (with_network (network_of i) nets)

  -- `_detect_local_networks`: never empty, so the three private ranges of the source are never used
  unfoldable pub detect_local_networks : List Text
  unfolding add_networks list_interfaces
  detect_local_networks = add_networks (list_interfaces k false) (codes "127.0.0.0/8" ∷ [])

-- `_default_wake_targets`
abbrev target_on : Text → Interface → Option Text → List WakeTarget → List WakeTarget
target_on broadcast i none rest = rest
target_on broadcast i (some []) rest = rest
target_on broadcast i (some (c ∷ mac)) rest =
    record {
      mac = c ∷ mac;
      broadcast = broadcast;
      port = default_wol_port;
      iface = some i.name;
      secureon = none;
    }
    ∷ rest

unfoldable pub targets_on : Text → List Interface → List WakeTarget
targets_on broadcast [] = []
targets_on broadcast (i ∷ is) = target_on broadcast i i.mac (targets_on broadcast is)

unfoldable pub default_wake_targets : Kernel → Option Text → List WakeTarget
unfolding targets_on wakeable_interfaces
default_wake_targets k none = []
default_wake_targets k (some []) = []
default_wake_targets k (some (c ∷ s)) = targets_on (c ∷ s) (wakeable_interfaces k)

abbrev quoted : Text → Text
quoted s = 34 ∷ s ++ 34 ∷ []

abbrev none_text : Option Text → Text
none_text none = codes "None"
none_text (some s) = s

-- the lines of a wake target
unfoldable pub target_lines : (broadcast : Text) → Interface → List Text
unfolding link
target_lines broadcast i =
    codes "[[wake.targets]]"
    ∷ (codes "mac = "
        ++ quoted (none_text i.mac)
        ++ codes "        # "
        ++ i.name
        ++ codes " ("
        ++ link i
        ++ codes ")")
    ∷ (codes "iface = " ++ quoted i.name)
    ∷ (codes "broadcast = " ++ quoted broadcast)
    ∷ (codes "port = " ++ to_decimal default_wol_port)
    ∷ codes "# secureon = \"0b:ad:c0:ff:ee:11\"   # only if your NIC supports it"
    ∷ []
    ∷ []

unfoldable pub targets_lines : (broadcast : Text) → List Interface → List Text
unfolding target_lines
targets_lines broadcast [] = []
targets_lines broadcast (i ∷ is) = target_lines broadcast i ++ targets_lines broadcast is

unfoldable pub render_default_toml :
    Kernel → (ip_network : Text → Option (Text × Bool)) → (host : Text) → Text
unfolding default_display_name detect_local_networks primary_broadcast targets_lines join_by
render_default_toml k ip_network host =
    let broadcast = or_text (primary_broadcast k) (codes "192.168.1.255") in
    let is = wakeable_interfaces k in
    join_by (10 ∷ []) (
      codes "# wol-unlock configuration"
      ∷ codes "# Regenerate with:  wol-unlock --write-default-config"
      ∷ []
      ∷ (codes "name = " ++ quoted (default_display_name host))
      ∷ []
      ∷ codes "# Set false to refuse every unlock request regardless of pairing."
      ∷ codes "unlock_enabled = true"
      ∷ []
      ∷ codes "[http]"
      ∷ (codes "port = " ++ to_decimal default_port)
      ∷ codes "bind = \"0.0.0.0\""
      ∷ codes "# Requests from outside these ranges are dropped before any crypto runs."
      ∷ (codes "allowed_networks = ["
          ++ join_by (codes ", ") (map quoted (detect_local_networks k ip_network))
          ++ codes "]")
      ∷ codes "max_body_bytes = 8192"
      ∷ codes "# Freshness window for signed requests, in seconds."
      ∷ codes "timestamp_skew_s = 30"
      ∷ codes "rate_limit_per_minute = 120"
      ∷ codes "rate_limit_burst = 30"
      ∷ []
      ∷ codes "[pairing]"
      ∷ codes "# How long a pairing code stays valid once opened from the terminal."
      ∷ codes "window_s = 120"
      ∷ codes "# Require an explicit y/N at the terminal for each enrolling device."
      ∷ codes "require_approval = true"
      ∷ codes "max_attempts = 3"
      ∷ codes "approval_timeout_s = 60"
      ∷ []
      ∷ codes "[mdns]"
      ∷ codes "enabled = true"
      ∷ []
      ∷ ((if ltb 0 (length is)
            then codes
                "# Wake-on-LAN targets. Only MACs listed here may be relayed via POST /v1/wake."
              ∷ []
            else [])
          ++ targets_lines broadcast is))

-- the file at the path, if there is one: its mode and its text
abbrev pub ConfigFile : Type 0
ConfigFile = Option (ℕ × Text)

-- `write_default_config`: an existing file stays unless it is to be overwritten
unfoldable pub write_default_config :
    (overwrite : Bool) (text : Text) → ConfigFile → Result (Unit {0}) × ConfigFile
write_default_config overwrite text file =
    if is_some file && not overwrite then (err config_error, file) else (ok tt, some (384, text))

-- the machine that `load` sees, from what the kernel and the network libraries answer
unfoldable pub detected :
    Kernel → (ip_network : Text → Option (Text × Bool)) → (host : Text) → Machine → Machine
unfolding detect_local_networks primary_broadcast default_display_name default_wake_targets
detected k ip_network host m = record m {
  local_networks = detect_local_networks k ip_network;
  broadcast = primary_broadcast k;
  host_name = default_display_name host;
  default_targets = default_wake_targets k (primary_broadcast k);
}
