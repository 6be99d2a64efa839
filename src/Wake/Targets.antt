-- ===== src/Wake/Targets.antt =====
-- pc-service/src/wol_unlock/wake.py: the wake targets with the state of their links.
use pc_helper_ios.Prelude.{
  ℕ, true, Option, none, some, List, [], ◌∷◌, map, if◌then◌else◌, is_some, Text, codes, text_eq,
}
use pc_helper_ios.Config.Sections.{WakeTarget}
use pc_helper_ios.Netif.{Interface, Kernel, list_interfaces, link}

pub record TargetInfo : Type 0 where
  pub mac : Text
  pub iface : Option Text
  pub broadcast : Text
  pub port : ℕ
  pub link : Text

-- a dict keeps the last interface of a name
unfoldable pub last_named : Text → List Interface → Option Interface
last_named name [] = none
last_named name (i ∷ is) =
    let rest = last_named name is in
    if is_some rest then rest else if text_eq i.name name then some i else none

abbrev named : Option Text → List Interface → Option Interface
named none is = none
named (some []) is = none
named (some (c ∷ s)) is = last_named (c ∷ s) is

abbrev link_in : Option Interface → Text
link_in none = codes "unknown"
link_in (some i) = link i

unfoldable pub describe_targets : Kernel → List WakeTarget → List TargetInfo
unfolding list_interfaces last_named
describe_targets k ts =
    let is = list_interfaces k true in
    map
      (λ (t : WakeTarget).
        (let i : TargetInfo = record {
          mac = t.mac;
          iface = t.iface;
          broadcast = t.broadcast;
          port = t.port;
          link = link_in (named t.iface is);
        } in
          i))
      ts
