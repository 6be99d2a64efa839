-- ===== src/Cli/Main.antt =====
-- pc-service/src/wol_unlock/cli/__main__.py: the commands that send one request, and the exit code
-- of the program.
use pc_helper_ios.Prelude.{ℕ, Bool, ◌&&◌, Option, none, some, ◌==◌, if◌then◌else◌, Text, codes}
use pc_helper_ios.Value.{ℤ, string, integer, Fields, field, end}
use pc_helper_ios.Control.Commands.{
  Command, status, devices_list, devices_revoke, devices_delete, audit_tail,
}

-- the arguments of a command line, after argparse
pub data Arguments : Type 0 where
  show_status list_devices discover pair : Arguments
  revoke remove : (device : Text) → Arguments
  audit : (limit : ℤ) → Arguments

-- the request of a command that sends one: its command and its arguments
unfoldable pub request_of : Arguments → Option (Command × Fields)
request_of show_status = some (status, end)
request_of list_devices = some (devices_list, end)
request_of (revoke device) = some (devices_revoke, field (codes "device") (string device) end)
request_of (remove device) = some (devices_delete, field (codes "device") (string device) end)
request_of (audit limit) = some (audit_tail, field (codes "limit") (integer limit) end)
request_of discover = none
request_of pair = none

-- how a command ends: with its exit code, with a ControlError, or by Ctrl-C
pub data Ending : Type 0 where
  returned : ℕ → Ending
  control_error interrupted : Ending

-- `cmd_discover`, by how many services were found
abbrev discovered : ℕ → Ending
discovered n = returned (if n == 0 then 1 else 0)

-- `run`: `connects` is whether the socket answers, `answers` whether the service answers the
-- request, `paired` how `cmd_pair` ends, `services` how many `browse` found
unfoldable pub run :
    Arguments → (connects answers : Bool) → (paired : Ending) → (services : ℕ) → Ending
run discover connects answers paired services = discovered services
run pair connects answers paired services = if connects then paired else control_error
run _ connects answers paired services = if connects && answers then returned 0 else control_error

-- `main`
abbrev pub exit_code : Ending → ℕ
exit_code (returned code) = code
exit_code control_error = 1
exit_code interrupted = 130
