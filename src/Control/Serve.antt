-- ===== src/Control/Serve.antt =====
-- pc-service/src/wol_unlock/control/server.py: the connections, their commands and their events;
-- control/protocol.py: the messages. The reader gives what `readuntil` answers, and whether
-- `encode` can write a reply is a parameter: it raises for a text that UTF-8 has no bytes for.
pub mod Replies
pub mod Messages
use pc_helper_ios.Prelude.{
  ℕ, zero, suc, ◌+◌, ◌-◌, ◌*◌, ◌/◌, ◌%◌, ◌^◌, ◌≤◌, ◌<◌, min, max, String, ◌≡◌, refl, sym, ap, ◌∙◌,
  subst, fun_ext, ◌≢◌, ◌↔◌, ◌⊎◌, inl, inr, Bool, true, false, ◌&&◌, ◌||◌, not, Option, none, some,
  List, [], ◌∷◌, ◌++◌, map, reverse, arith, ltb, leb, ◌==◌, if◌then◌else◌, ltb→lt, lt→ltb, leb→le,
  le→leb, ==_iff, Bool-cases, Option-cases, is_some, length, take, drop, keep, any, all, find,
  length-append, length-keep-le, length-drop, insert_by, sort_by, length-sort_by, All, All-append,
  All-keep, Text, codes, text_eq, text_eq_refl, text_eq_iff,
}
use pc_helper_ios.Errors.{
  ErrorCode, Exc, ApiError, api, http, value_error, config_error, runtime_error, integrity_error,
  os_error, Result, ok, err, raise, bad_request, internal_error, ◌>>=◌,
}
use pc_helper_ios.Value.{Value, object, array, string, null, Fields, end, get, or_default, truthy}
use pc_helper_ios.Control.Commands.{Command, command_of, Answer, Desk, World}
use pc_helper_ios.Control.Dispatch.{dispatch}

-- what `readuntil` does: a line, with what the service reads when it serves it, LimitOverrunError,
-- or IncompleteReadError
pub data Input (S : Type 0) : Type 0 where
  line : Desk S → Text → Input S
  overrun closed : Input S

-- `response` and `error`, which both bear the id of the request
pub data Reply : Type 0 where
  response : (id : Value) → Answer → Reply
  error : (id : Value) → ErrorCode → Reply

abbrev pub reply_id : Reply → Value
reply_id (response id answer) = id
reply_id (error id code) = id

abbrev pub max_line_bytes : ℕ
max_line_bytes = 1048576

-- the handlers of `_read_commands`: ApiError, ValueError, and any other exception
abbrev pub code_of : Exc → ErrorCode
code_of (api e) = e.code
code_of value_error = bad_request
code_of (http status) = internal_error
code_of config_error = internal_error
code_of runtime_error = internal_error
code_of integrity_error = internal_error
code_of os_error = internal_error

abbrev reply_of : Value → Result Answer → Reply
reply_of id (ok answer) = response id answer
reply_of id (err x) = error id (code_of x)

abbrev pub message_of : Value → Result Fields
message_of (object fs) = ok fs
message_of _ = err value_error

-- `args or {}`, which must be an object
abbrev args_of : Value → Result Fields
args_of v = if truthy v then message_of v else ok end

abbrev known : Option Command → Result Command
known none = raise bad_request
known (some c) = ok c

-- `command not in COMMANDS`, which hashes the command: runtime_error is the TypeError of a list or
-- an object
abbrev as_command : Value → Result Command
as_command (string s) = known (command_of s)
as_command (object fs) = err runtime_error
as_command (array vs) = err runtime_error
as_command v = raise bad_request

abbrev pub requested : Fields → Result (Command × Fields)
requested message = args_of (or_default (get (codes "args") message) null) >>= λ args.
    as_command (or_default (get (codes "cmd") message) null) >>= λ c. ok (c, args)

module _ (loads : Text → Result Value) where
  -- `decode`: `json.loads` of the bytes, or a ValueError
  unfoldable pub decode : Text → Result Fields
  decode s = loads s >>= message_of

module _ {S : Type 0} where
  abbrev pub perform : Desk S → Result (Command × Fields) → World S → Result Answer × World S
  perform desk (err x) w = (err x, w)
  perform desk (ok (c, args)) w = dispatch desk c args w

  abbrev pub replied : Value → Result Answer × World S → Reply × World S
  replied id (r, w) = (reply_of id r, w)

  abbrev pub serve_message : Desk S → Result Fields → World S → Reply × World S
  serve_message desk (err x) w = (error null (code_of x), w)
  serve_message desk (ok message) w =
      replied (or_default (get (codes "id") message) null) (perform desk (requested message) w)

  -- `_send`, then the rest; a reply that `encode` raises for ends the connection
  abbrev pub and_then :
      (encodes : Reply → Bool)
      → Reply × World S
      → (World S → List Reply × World S)
      → List Reply × World S
  and_then encodes (r, w) rest = let (rs, v) = rest w in if encodes r then (r ∷ rs, v) else ([], w)

module _ {S : Type 0} (loads : Text → Result Value) where
  unfoldable pub serve_line : Desk S → Text → World S → Reply × World S
  unfolding decode dispatch
  serve_line desk s w = serve_message desk (decode loads s) w

  -- `_read_commands`: the replies, in the order in which they are sent
  unfoldable pub read_commands :
      (encodes : Reply → Bool) → List (Input S) → World S → List Reply × World S
  unfolding serve_line
  read_commands encodes [] w = ([], w)
  read_commands encodes (closed ∷ inputs) w = ([], w)
  read_commands encodes (overrun ∷ inputs) w = (error null bad_request ∷ [], w)
  read_commands encodes (line desk s ∷ inputs) w =
      if length s == 0
      then ([], w)
      else if ltb max_line_bytes (length s)
      then (error null bad_request ∷ [], w)
      else and_then encodes (serve_line desk s w) (λ v. read_commands encodes inputs v)

-- `_authorized`: no socket, or an OSError, is none
abbrev is_own : ℕ → Option ℕ → Bool
is_own uid none = false
is_own uid (some peer) = peer == uid

-- `_handle`: the commands of the peer, if it is the user that the service runs as
unfoldable pub handle :
    {S : Type 0} (loads : Text → Result Value) (encodes : Reply → Bool) (uid : ℕ) (peer : Option ℕ)
    → List (Input S)
    → World S
    → List Reply × World S
unfolding read_commands
handle loads encodes uid peer inputs w =
    if is_own uid peer then read_commands loads encodes inputs w else ([], w)
