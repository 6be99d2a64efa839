-- ===== src/Tests/Control.antt =====
-- Runs of the control socket: a store with a phone, and commands for it.
use pc_helper_ios.Prelude.{
  all, ltb, ◌||◌, Bool, ℕ, ◌≡◌, refl, ◌↔◌, true, false, none, some, List, [], ◌∷◌, arith, ◌==◌,
  Text, codes, text_eq,
}
use pc_helper_ios.Errors.{Result, ok, err, value_error}
use pc_helper_ios.Unicode.{ascii}
use pc_helper_ios.Value.{Value, pos, integer, string, object, Fields, field, end}
use pc_helper_ios.Store.{open_store}
use pc_helper_ios.Store.Statements.{Device, Tables, get_device, empty, list_devices, new_device}
use pc_helper_ios.Pairing.Manager.{start}
use pc_helper_ios.Control.Commands.{Desk, World, devices_list, devices_revoke}
use pc_helper_ios.Control.Devices.{resolve_device}
use pc_helper_ios.Control.Devices.Unambiguous.{IsChosen, resolve_device-IsChosen}
use pc_helper_ios.Control.Dispatch.{dispatch}
use pc_helper_ios.Control.Dispatch.Changes.{dispatch-row_after, row_after, selected, tables_of}
use pc_helper_ios.Control.Serve.{decode, Input, Reply, line, closed, reply_id, serve_line, replied}
use pc_helper_ios.Value.{get}
use pc_helper_ios.Control.Serve.Messages.{message_for, serve_line-message_for}
use pc_helper_ios.Control.Lifecycle
use pc_helper_ios.Control.Lifecycle.{Sockets, is_reachable, stop_after_failed_start}
use pc_helper_ios.Control.Client.{
  fresh, Op, do_send, do_receive, do_time_out, do_lose, steps, step, send, receive, time_out, lose,
}
use pc_helper_ios.Control.Client.Once.{outcomes}
use pc_helper_ios.Control.Client.Ended.{every_call_ends}
use pc_helper_ios.Cli.{Turn, other_event, pair_request, pair_completed, pair_loop, approves}
use pc_helper_ios.Cli.Approval.{decisions, answers, pair_loop-answers}
use pc_helper_ios.Tests.Data.{zeros, toy}
use pc_helper_ios.Tests.Session.{machine, enabled}
use pc_helper_ios.Tests.Pairing.{asking}

abbrev phone : Device
phone = new_device (codes "abc") (zeros 32) (codes "Phone") (codes "ios") 5

abbrev tablet : Device
tablet = new_device (codes "abd") (zeros 32) (codes "Tablet") (codes "ios") 6

abbrev two_devices : Tables
two_devices = record empty { devices = phone ∷ tablet ∷ [] }

resolve_device-IsChosen_example :
    (resolve_device ascii toy.sha256 (codes "PHO") two_devices ≡ ok phone)
    ↔ IsChosen ascii toy.sha256 (codes "PHO") (list_devices true two_devices) phone
resolve_device-IsChosen_example =
    resolve_device-IsChosen ascii toy.sha256 (codes "PHO") two_devices phone

abbrev desk : Desk ℕ
desk = record {
  unicode = ascii;
  primitives = toy;
  int = λ v. err value_error;
  config = enabled;
  settings = asking;
  logind = machine;
  kernel = record {
    names = none;
    read = λ name attribute. none;
    address = λ name. none;
    netmask = λ name. none;
    broadcast = λ name. none;
    has_device = λ name. false;
    route = none;
    is_space = λ c. false;
  };
  started_at = 0;
  code = codes "ABCDEFGH";
  now = 10;
  wall = 1000;
}

abbrev world : World ℕ
world = record { machine = 0; system = start (open_store two_devices) }

abbrev by_name : Fields
by_name = field (codes "device") (string (codes "tab")) end

opened_store : Unit {0}
unfolding open_store
opened_store = tt

dispatch-row_after_example :
    get_device (codes "abd") (tables_of (dispatch desk devices_revoke by_name world).1)
    ≡ row_after devices_revoke 1000
        (codes "abd")
        (selected desk by_name two_devices)
        (get_device (codes "abd") two_devices)
unfolding opened_store
dispatch-row_after_example = dispatch-row_after desk devices_revoke by_name (codes "abd") world refl

abbrev loads : Text → Result Value
loads s =
    ok (object (field (codes "id") (string s) (field (codes "cmd") (string (codes "none")) end)))

abbrev inputs : List (Input ℕ)
inputs = line desk (codes "one") ∷ line desk (codes "two") ∷ closed ∷ []

-- UTF-8 has no bytes for a surrogate
abbrev has_bytes : Value → Bool
has_bytes (string s) = all (λ c. ltb c 55296 || ltb 57343 c) s
has_bytes v = true

abbrev encodes : Reply → Bool
encodes r = has_bytes (reply_id r)

-- the first server answers at the path
abbrev healthy : Sockets
healthy = record { entry = some 1; listening = λ n. n == 1 }

stop_after_failed_start_example :
    let t = Lifecycle.stop 2 false (Lifecycle.start 2 40 (ok tt) healthy).1 in
    (t.listening 1 ≡ true) × (is_reachable t ≡ false)
stop_after_failed_start_example = stop_after_failed_start 1 2 40 (ok tt) healthy refl refl

abbrev calls : List Op
calls = do_send ∷ do_send ∷ do_receive (codes "x") ∷ do_time_out 1 ∷ do_lose ∷ []

client_runs : Unit {0}
unfolding steps step send receive time_out decode lose text_eq pc_helper_ios.Value.get
client_runs = tt

every_call_ends_example : outcomes 2 (lose (steps loads calls fresh)) ≡ 1
unfolding client_runs
every_call_ends_example =
    every_call_ends 2 loads calls (tt, (tt, (tt, ((λ h. omega (arith, h)), (tt, tt)))))
      (omega arith) (omega arith)

-- the operator types yes, and then refuses a second phone
abbrev turns : List Turn
turns =
    other_event
    ∷ pair_request (some (codes " Y ")) (ok tt)
    ∷ pair_request (some (codes "no")) (ok tt)
    ∷ pair_completed
    ∷ []

pair_loop-answers_example :
    decisions (pair_loop ascii (codes "en") false turns).1
    ≡ answers (approves ascii (codes "en") false) turns
pair_loop-answers_example = pair_loop-answers ascii (codes "en") false turns

abbrev sends_list : Text → Result Value
sends_list s = ok (object (message_for 3 devices_list end))

serve_line-message_for_example :
    serve_line sends_list desk (codes "line") world
    ≡ replied (integer (pos 3)) (dispatch desk devices_list end world)
serve_line-message_for_example =
    serve_line-message_for sends_list desk 3 devices_list end (codes "line") world refl
