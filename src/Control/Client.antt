-- ===== src/Control/Client.antt =====
-- pc-service/src/wol_unlock/control/client.py: the calls of the CLI, and what comes back for them.
pub mod Once
pub mod Ended
use pc_helper_ios.Prelude.{
  ℕ, zero, suc, ◌+◌, ◌-◌, ◌*◌, ◌/◌, ◌%◌, ◌^◌, ◌≤◌, ◌<◌, min, max, String, ◌≡◌, refl, sym, ap, ◌∙◌,
  subst, fun_ext, ◌≢◌, ◌↔◌, ◌⊎◌, inl, inr, Bool, true, false, ◌&&◌, ◌||◌, not, Option, none, some,
  List, [], ◌∷◌, ◌++◌, map, reverse, arith, ltb, leb, ◌==◌, if◌then◌else◌, ltb→lt, lt→ltb, leb→le,
  le→leb, ==_iff, Bool-cases, Option-cases, is_some, length, take, drop, keep, any, all, find,
  length-append, length-keep-le, length-drop, insert_by, sort_by, length-sort_by, All, All-append,
  All-keep, Text, codes, text_eq, text_eq_refl, text_eq_iff,
}
use pc_helper_ios.Errors.{Result, ok, err}
use pc_helper_ios.Value.{pos, Value, integer, null, Fields, get, truthy}
use pc_helper_ios.Control.Serve.{decode}

-- how the future of a call ends: a message, or ControlError("connection_lost")
pub data Reply : Type 0 where
  message : Fields → Reply
  connection_lost : Reply

-- `pending` are the ids whose futures wait, `settled` the futures that are done, newest first.
pub record Client : Type 0 where
  pub next_id : ℕ
  pub pending : List ℕ
  pub settled : List (ℕ × Reply)
  pub events : List Fields
  pub is_closed : Bool

abbrev pub fresh : Client
fresh = record { next_id = 0; pending = []; settled = []; events = []; is_closed = false }

-- `call`, until it waits: its id, or none for a client that is closed
unfoldable pub send : Client → Option ℕ × Client
send c = if c.is_closed then (none, c) else (
  some (c.next_id + 1),
  record c { next_id = c.next_id + 1; pending = (c.next_id + 1) ∷ c.pending },
)

abbrev pub without_id : ℕ → List ℕ → List ℕ
without_id n ns = keep (λ m. not (m == n)) ns

abbrev pub is_pending : ℕ → Client → Bool
is_pending n c = any (λ m. m == n) c.pending

-- `pending.pop(id)`, and `set_result`
abbrev pub settle : ℕ → Reply → Client → Client
settle n r c =
    if is_pending n c
    then record c { pending = without_id n c.pending; settled = (n, r) ∷ c.settled }
    else c

-- The service echoes the ids that it was sent, which are integers; one that is none of ours is
-- dropped.
abbrev pub settle_by : Option Value → Fields → Client → Client
settle_by (some (integer (pos n))) fs c = settle n (message fs) c
settle_by _ fs c = c

abbrev pub deliver : Result Fields → Client → Client
deliver (err x) c = c
deliver (ok fs) c =
    if is_some (get (codes "event") fs)
    then record c { events = c.events ++ fs ∷ [] }
    else settle_by (get (codes "id") fs) fs c

-- a line in `_read_loop`; one that is no message is passed over
unfoldable pub receive : (loads : Text → Result Value) (s : Text) → Client → Client
unfolding decode
receive loads s c = deliver (decode loads s) c

-- the end of `_read_loop`
unfoldable pub lose : Client → Client
lose c = record c {
  pending = [];
  settled = map (λ n. (n, connection_lost)) c.pending ++ c.settled;
  is_closed = true;
}

-- a call whose `wait_for` times out
unfoldable pub time_out : ℕ → Client → Client
time_out n c = record c { pending = without_id n c.pending }

pub data Op : Type 0 where
  do_send do_lose : Op
  do_receive : Text → Op
  do_time_out : ℕ → Op

module _ (loads : Text → Result Value) where
  unfoldable pub step : Op → Client → Client
  unfolding send receive lose time_out
  step do_send c = (send c).1
  step do_lose c = lose c
  step (do_receive s) c = receive loads s c
  step (do_time_out n) c = time_out n c

  unfoldable pub steps : List Op → Client → Client
  unfolding step
  steps [] c = c
  steps (o ∷ ops) c = steps ops (step o c)
