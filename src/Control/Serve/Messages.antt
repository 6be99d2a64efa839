-- ===== src/Control/Serve/Messages.antt =====
-- control/client.py: the message of a call; the service reads in it what the client meant.
use pc_helper_ios.Prelude.{ℕ, ◌≡◌, refl, some, Text, codes, text_eq}
use pc_helper_ios.Errors.{Result, ok}
use pc_helper_ios.Value.{pos, Value, object, string, integer, Fields, field, end, get, truthy}
use pc_helper_ios.Control.Commands.{
  Command, status, pair_begin, pair_cancel, pair_approve, pair_deny, devices_list, devices_revoke,
  devices_delete, audit_tail, command_name, command_of,
}
use pc_helper_ios.Control.Dispatch.{dispatch}
use pc_helper_ios.Control.Commands.{Desk, World}
use pc_helper_ios.Control.Serve.{decode, requested, serve_line, replied}

-- `{"id": request_id, "cmd": command, "args": args}`
abbrev pub message_for : (id : ℕ) → Command → Fields → Fields
message_for id c args =
    field (codes "id") (integer (pos id))
      (field (codes "cmd") (string (command_name c)) (field (codes "args") (object args) end))

named : (c : Command) → command_of (command_name c) ≡ some c
unfolding command_of text_eq
named status = refl
named pair_begin = refl
named pair_cancel = refl
named pair_approve = refl
named pair_deny = refl
named devices_list = refl
named devices_revoke = refl
named devices_delete = refl
named audit_tail = refl

requested_message :
    (id : ℕ) (c : Command) (args : Fields) → requested (message_for id c args) ≡ ok (c, args)
unfolding get truthy text_eq
requested_message id c end = rw (named c) refl
requested_message id c (field k v more) = rw (named c) refl

-- If the service's json reads back a line as the message that the client sent, then the service
-- answers under the id of that call with what the command does with the arguments of that call.
pub serve_line-message_for :
    {S : Type 0} (loads : Text → Result Value) (desk : Desk S) (id : ℕ) (c : Command)
    (args : Fields) (s : Text) (w : World S)
    → loads s ≡ ok (object (message_for id c args))
    → serve_line loads desk s w ≡ replied (integer (pos id)) (dispatch desk c args w)
unfolding serve_line decode get text_eq
serve_line-message_for loads desk id c args s w h = rw (h, requested_message id c args) refl
