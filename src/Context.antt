-- ===== src/Context.antt =====
-- pc-service/src/wol_unlock/context.py: what the assembled service says of itself.
use pc_helper_ios.Prelude.{ℕ, ◌-◌, Bool, List, Text}
use pc_helper_ios.Config.Sections.{Config}
use pc_helper_ios.Config.Load.{capabilities}
use pc_helper_ios.Pairing.Manager.{Manager}
use pc_helper_ios.Pairing.Status.{is_active}

pub record ServerInfo : Type 0 where
  pub v : ℕ
  pub api : ℕ
  pub name : Text
  pub fp : Text
  pub caps : List Text
  pub pair : Bool

unfoldable pub server_info : Config → (fingerprint : Text) → Manager → ServerInfo
unfolding capabilities
server_info c fingerprint m = record {
  v = 1;
  api = 1;
  name = c.name;
  fp = fingerprint;
  caps = capabilities c;
  pair = is_active m;
}

-- `int(time.monotonic() - started_at)`, of a clock that counts seconds and does not go back
abbrev pub uptime_s : (started_at now : ℕ) → ℕ
uptime_s started_at now = now - started_at
