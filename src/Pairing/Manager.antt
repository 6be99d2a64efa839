-- ===== src/Pairing/Manager.antt =====
-- pc-service/src/wol_unlock/pairing.py: the state of the `PairingManager`, and what it does under
-- its lock. A submission that waits for the operator is `parked` between its two locked blocks.
use pc_helper_ios.Prelude.{
  ℕ, zero, suc, ◌+◌, Bool, true, false, ◌&&◌, not, Option, none, some, List, [], ◌∷◌, ◌++◌, ltb,
  leb, take, ◌==◌, if◌then◌else◌, Text, codes,
}
use pc_helper_ios.Errors.{Result, ok, err, raise, bad_request, pairing_disabled}
use pc_helper_ios.Crypto.Verify.{Primitives}
use pc_helper_ios.Store.{Store, call}
use pc_helper_ios.Store.Statements.{Device, upsert_device, add_audit}
use pc_helper_ios.Pairing.Code.{hash_code}

pub data PairingState : Type 0 where
  idle opened awaiting_approval : PairingState

-- the `_decision` future of an enrollment: pending, with its result, or cancelled by `wait_for`
pub data Decision : Type 0 where
  undecided timed_out : Decision
  decided : Bool → Decision

pub record PendingEnrollment : Type 0 where
  pub ticket : ℕ
  pub device_id : Text
  pub pubkey : Text
  pub fingerprint : Text
  pub device_name : Text
  pub platform : Text
  pub requested_at : ℕ

pub record OpenWindow : Type 0 where
  pub code_hash : Text
  pub opened_at : ℕ
  pub deadline_monotonic : ℕ
  pub expires_at_wall : ℕ
  pub attempts_left : ℕ
  pub code_for_display : Text

pub data Reason : Type 0 where
  cancelled expired too_many_attempts bad_proof approval_timeout denied paired shutdown : Reason

pub data Event : Type 0 where
  pair_opened pair_request : Event
  pair_completed : Device → Event
  pair_closed : Reason → Event

-- The futures are numbered by `next`; `expiry` is when the timer task runs, if there is one.
pub record Manager : Type 0 where
  pub state : PairingState
  pub window : Option OpenWindow
  pub pending : Option PendingEnrollment
  pub decisions : ℕ → Decision
  pub next : ℕ
  pub expiry : Option ℕ
  pub events : List Event

pub record Settings : Type 0 where
  pub window_s : ℕ
  pub require_approval : Bool
  pub max_attempts : ℕ
  pub approval_timeout_s : ℕ
  pub server_fp : Text

pub record System : Type 0 where
  pub manager : Manager
  pub parked : List PendingEnrollment
  pub store : Store

abbrev pub start : Store → System
start store = record {
  manager = record {
    state = idle;
    window = none;
    pending = none;
    decisions = λ _. undecided;
    next = 0;
    expiry = none;
    events = [];
  };
  parked = [];
  store = store;
}

-- `future.set_result` on the future with this number
unfoldable pub decide : ℕ → Decision → (ℕ → Decision) → ℕ → Decision
decide n d decisions k = if k == n then d else decisions k

abbrev pub is_decided : Decision → Bool
is_decided undecided = false
is_decided timed_out = true
is_decided (decided b) = true

-- a pending future that is not done is resolved to False
abbrev pub release : Option PendingEnrollment → (ℕ → Decision) → ℕ → Decision
release none decisions = decisions
release (some p) decisions =
    if is_decided (decisions p.ticket) then decisions else decide p.ticket (decided false) decisions

-- `_close_locked`
unfoldable pub close : Reason → Manager → Manager
unfolding decide
close reason m = record m {
  state = idle;
  window = none;
  pending = none;
  decisions = release m.pending m.decisions;
  expiry = none;
  events = pair_closed reason ∷ m.events;
}

abbrev pub close_in : Reason → System → System
close_in reason s = record s { manager = close reason s.manager }

-- `window_s or self._config.pairing.window_s`
abbrev pub or_default : Option ℕ → ℕ → ℕ
or_default none d = d
or_default (some zero) d = d
or_default (some (suc n)) d = suc n

abbrev pub is_idle : PairingState → Bool
is_idle idle = true
is_idle opened = false
is_idle awaiting_approval = false

abbrev pub is_opened : PairingState → Bool
is_opened idle = false
is_opened opened = true
is_opened awaiting_approval = false

module _ (p : Primitives) (cfg : Settings) where
  -- `begin`: `code` is what `generate_code` drew
  unfoldable pub begin : Option ℕ → (code : Text) → (now wall : ℕ) → System → Result Text × System
  begin window_s code now wall s =
      let w = or_default window_s cfg.window_s in
      if not (is_idle s.manager.state)
      then (raise pairing_disabled, s)
      else if not (leb 15 w && leb w 600)
      then (raise bad_request, s)
      else (
        ok code,
        record s {
          manager = record s.manager {
            state = opened;
            window = some (record {
              code_hash = hash_code p.sha256 code;
              opened_at = now;
              deadline_monotonic = now + w;
              expires_at_wall = wall + w;
              attempts_left = cfg.max_attempts;
              code_for_display = code;
            });
            expiry = some (now + w);
            events = pair_opened ∷ s.manager.events;
          };
        },
      )

-- the timer task, when it gets the lock
unfoldable pub expire : ℕ → System → System
expire now s = elim s.manager.expiry [
  | none ↦ s
  | some t ↦
      if ltb now t
      then s
      else if is_opened s.manager.state
      then close_in expired s
      else record s { manager = record s.manager { expiry = none } }
]

-- `resolve`, with what it returns
unfoldable pub resolve : Bool → System → Bool × System
unfolding decide
resolve approved s = elim s.manager.state [
  | idle ↦ (false, s)
  | opened ↦ (false, s)
  | awaiting_approval ↦ elim s.manager.pending [
    | none ↦ (false, s)
    | some e ↦ if is_decided (s.manager.decisions e.ticket) then (false, s) else (
      true,
      record s {
        manager = record s.manager {
          decisions = decide e.ticket (decided approved) s.manager.decisions;
        };
      },
    )
  ]
]

-- `_finish_locked`: a statement that raises leaves the window as it is
abbrev pub finished :
    PendingEnrollment → ℕ → Result Device × Store → System → Result Device × System
finished e wall (err x, store) s = (err x, record s { store = store })
finished e wall (ok d, store) s =
    let (_, logged) =
      call
        (λ t. (
          ok tt,
          add_audit wall (codes "pair") (codes "ok") (some d.device_id) none
              (some (d.name ++ codes " (" ++ take 8 e.fingerprint ++ codes ")")) t,
        ))
        store in
    let m = record s.manager { events = pair_completed d ∷ s.manager.events } in
    (ok d, record s { manager = close paired m; store = logged })

unfoldable pub finish : PendingEnrollment → ℕ → System → Result Device × System
finish e wall s =
    finished e wall
      (call (upsert_device e.device_id e.pubkey e.device_name e.platform wall) s.store) s
