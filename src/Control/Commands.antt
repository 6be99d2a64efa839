-- ===== src/Control/Commands.antt =====
-- pc-service/src/wol_unlock/control/server.py: the commands, what they read, and what they answer.
use pc_helper_ios.Prelude.{
  ℕ, Bool, Option, none, some, List, [], ◌∷◌, if◌then◌else◌, find, Text, codes, text_eq,
}
use pc_helper_ios.Errors.{Result, ok, raise, bad_request, ◌>>=◌}
use pc_helper_ios.Unicode.{Unicode}
use pc_helper_ios.Value.{ℤ, pos, negsuc, Value, null, string, integer, boolean}
use pc_helper_ios.Config.Sections.{Config}
use pc_helper_ios.Crypto.Canonical.{fingerprint}
use pc_helper_ios.Crypto.Verify.{Primitives}
use pc_helper_ios.Session.{SessionInfo, Logind}
use pc_helper_ios.Store.Statements.{Device, Audit}
use pc_helper_ios.Context.{ServerInfo}
use pc_helper_ios.Pairing.Manager.{Settings, System}
use pc_helper_ios.Pairing.Status.{Snapshot}
use pc_helper_ios.Netif.{Kernel}
use pc_helper_ios.Wake.Targets.{TargetInfo}

pub data Command : Type 0 where
  status pair_begin pair_cancel pair_approve pair_deny : Command
  devices_list devices_revoke devices_delete audit_tail : Command

abbrev pub command_name : Command → Text
command_name status = codes "status"
command_name pair_begin = codes "pair.begin"
command_name pair_cancel = codes "pair.cancel"
command_name pair_approve = codes "pair.approve"
command_name pair_deny = codes "pair.deny"
command_name devices_list = codes "devices.list"
command_name devices_revoke = codes "devices.revoke"
command_name devices_delete = codes "devices.delete"
command_name audit_tail = codes "audit.tail"

-- COMMANDS
abbrev pub commands : List Command
commands =
    status ∷ pair_begin ∷ pair_cancel ∷ pair_approve ∷ pair_deny ∷ devices_list ∷ devices_revoke
    ∷ devices_delete ∷ audit_tail ∷ []

unfoldable pub command_of : Text → Option Command
command_of name = find (λ c. text_eq (command_name c) name) commands

-- the data of `status`; the path of the configuration file is left out
pub record Status : Type 0 where
  pub server : ServerInfo
  pub uptime_s : ℕ
  pub session : Option SessionInfo
  pub pairing : Snapshot
  pub wake_targets : List TargetInfo
  pub config : Config
  pub devices : ℕ

-- a device with the fingerprint of its key
abbrev pub DeviceInfo : Type 0
DeviceInfo = Device × Text

-- the data of a response
pub data Answer : Type 0 where
  status_data : Status → Answer
  window_code : Text → Answer
  pairing_cancelled : Answer
  resolved : Bool → Answer
  device_rows : List DeviceInfo → Answer
  device_changed : DeviceInfo → (changed : Bool) → Answer
  entries : List Audit → Answer

-- What the commands read beside the service's state: `int` is Python's, `code` what
-- `generate_code` draws, `now` the monotonic clock and `wall` the other one.
pub record Desk (S : Type 0) : Type 0 where
  pub unicode : Unicode
  pub primitives : Primitives
  pub int : Value → Result ℤ
  pub config : Config
  pub settings : Settings
  pub logind : Logind S
  pub kernel : Kernel
  pub started_at : ℕ
  pub code : Text
  pub now : ℕ
  pub wall : ℕ

-- the machine beside the service
pub record World (S : Type 0) : Type 0 where
  pub machine : S
  pub system : System

-- A negative window is out of range, as one second is.
abbrev pub seconds : ℤ → Option ℕ
seconds (pos n) = some n
seconds (negsuc n) = some 1

abbrev pub window_of : (Value → Result ℤ) → Option Value → Result (Option ℕ)
window_of int none = ok none
window_of int (some null) = ok none
window_of int (some v) = do n ← int v; ok (seconds n)

-- A bool is an int; a negative limit is clamped like 0.
abbrev pub limit_of : Option Value → ℕ
limit_of (some (integer (pos n))) = n
limit_of (some (integer (negsuc n))) = 0
limit_of (some (boolean b)) = if b then 1 else 0
limit_of _ = 50

abbrev pub selector_of : Option Value → Result Text
selector_of (some (string (c ∷ s))) = ok (c ∷ s)
selector_of _ = raise bad_request

unfoldable pub shown : (Text → Text) → Device → Result DeviceInfo
shown sha256 d = do f ← fingerprint sha256 d.pubkey; ok (d, f)

unfoldable pub shown_all : (Text → Text) → List Device → Result (List DeviceInfo)
unfolding shown
shown_all sha256 [] = ok []
shown_all sha256 (d ∷ ds) = do i ← shown sha256 d; is ← shown_all sha256 ds; ok (i ∷ is)
