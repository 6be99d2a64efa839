-- ===== src/Pairing/Submit.antt =====
-- pc-service/src/wol_unlock/pairing.py: `submit`, cut where it waits for the operator, and the
-- sequences of operations.
use pc_helper_ios.Prelude.{
  ℕ, ◌+◌, ◌-◌, Bool, true, false, not, Option, none, some, List, [], ◌∷◌, leb, ◌==◌, if◌then◌else◌,
  keep, find, Text, text_eq,
}
use pc_helper_ios.Errors.{
  ErrorCode, Exc, api, api_error, Result, ok, err, ◌>>=◌, bad_request, pairing_disabled,
  pairing_expired, invalid_code, invalid_signature, pairing_timeout, pairing_denied,
}
use pc_helper_ios.Unicode.{Unicode}
use pc_helper_ios.Crypto.Base64.{b64u_encode, b64u_decode}
use pc_helper_ios.Crypto.Canonical.{
  canonical_pair, device_id_for, fingerprint, pubkey_bytes, signature_bytes,
}
use pc_helper_ios.Crypto.Verify.{Primitives, or_raise}
use pc_helper_ios.Store.Statements.{Device}
use pc_helper_ios.Pairing.Code.{normalize_code, hash_code, clean_name, clean_platform}
use pc_helper_ios.Pairing.Manager.{
  PairingState, idle, opened, awaiting_approval, Decision, undecided, timed_out, decided,
  PendingEnrollment, OpenWindow, cancelled, expired, too_many_attempts, bad_proof, approval_timeout,
  denied, shutdown, pair_request, Settings, System, decide, is_decided, close_in, is_idle, begin,
  expire, resolve, finish,
}

-- what `submit` is called with
pub record Attempt : Type 0 where
  pub code : Text
  pub device_pubkey : Text
  pub proof : Text
  pub device_name : Text
  pub platform : Text

-- A submission returns the device, raises, or waits for the operator.
pub data Outcome : Type 0 where
  stored : Device → Outcome
  failed : Exc → Outcome
  waiting : PendingEnrollment → Outcome

abbrev pub refuse : ErrorCode → Outcome
refuse c = failed (api (api_error c))

abbrev pub outcome : Result Device × System → Outcome × System
outcome (ok d, s) = (stored d, s)
outcome (err x, s) = (failed x, s)

-- one attempt fewer; the last one closes the window
unfoldable pub wrong_code : OpenWindow → System → Outcome × System
wrong_code w s =
    if leb (w.attempts_left - 1) 0 then (refuse invalid_code, close_in too_many_attempts s) else (
      refuse invalid_code,
      record s {
        manager = record s.manager {
          window = some (record w { attempts_left = w.attempts_left - 1 });
        };
      },
    )

-- the enrollment of an accepted proof is parked, and the operator is asked
unfoldable pub park : PendingEnrollment → System → Outcome × System
park e s = (
  waiting e,
  record s {
    manager = record s.manager {
      state = awaiting_approval;
      pending = some e;
      next = s.manager.next + 1;
      events = pair_request ∷ s.manager.events;
    };
    parked = e ∷ s.parked;
  },
)

module _ (u : Unicode) (p : Primitives) (cfg : Settings) where
  abbrev pub enrollment : Attempt → Text → ℕ → System → Result PendingEnrollment
  enrollment a pubkey wall s = do
    i ← device_id_for p.sha256 pubkey
    f ← fingerprint p.sha256 pubkey
    ok (record {
      ticket = s.manager.next;
      device_id = i;
      pubkey = pubkey;
      fingerprint = f;
      device_name = clean_name u a.device_name;
      platform = clean_platform u a.platform;
      requested_at = wall;
    })

  abbrev pub admitted : Result PendingEnrollment → ℕ → System → Outcome × System
  admitted (err x) wall s = (failed x, s)
  admitted (ok e) wall s = if cfg.require_approval then park e s else outcome (finish e wall s)

  -- the proof is over the code that was typed, the key, and this server
  abbrev pub proven : Result Text → Attempt → Text → Text → ℕ → System → Outcome × System
  proven (err x) a pubkey proof wall s = (failed x, s)
  proven (ok message) a pubkey proof wall s =
      if p.verifies pubkey proof message
      then admitted (enrollment a pubkey wall s) wall s
      else (refuse invalid_signature, close_in bad_proof s)

  unfoldable pub attempt_in :
      OpenWindow → Attempt → (pubkey proof : Text) → (now wall : ℕ) → System → Outcome × System
  unfolding wrong_code park
  attempt_in w a pubkey proof now wall s =
      let supplied = normalize_code u a.code in
      if leb w.deadline_monotonic now
      then (refuse pairing_expired, close_in expired s)
      else if not (text_eq (hash_code p.sha256 supplied) w.code_hash)
      then wrong_code w s
      else proven (canonical_pair u supplied (b64u_encode pubkey) cfg.server_fp) a pubkey proof wall
          s

  -- the block of `submit` under its first lock
  unfoldable pub locked :
      PairingState
      → Option OpenWindow
      → Attempt
      → (pubkey proof : Text) → (now wall : ℕ) → System
      → Outcome × System
  unfolding attempt_in
  locked awaiting_approval w a pubkey proof now wall s = (refuse pairing_disabled, s)
  locked idle w a pubkey proof now wall s = (refuse pairing_disabled, s)
  locked opened none a pubkey proof now wall s = (refuse pairing_disabled, s)
  locked opened (some w) a pubkey proof now wall s = attempt_in w a pubkey proof now wall s

  abbrev pub decoded :
      Result Text → Result Text → Attempt → (now wall : ℕ) → System → Outcome × System
  decoded (err x) proof a now wall s = (failed x, s)
  decoded (ok pubkey) (err x) a now wall s = (failed x, s)
  decoded (ok pubkey) (ok proof) a now wall s =
      locked s.manager.state s.manager.window a pubkey proof now wall s

  unfoldable pub submit : Attempt → (now wall : ℕ) → System → Outcome × System
  unfolding locked
  submit a now wall s =
      decoded (or_raise bad_request (b64u_decode a.device_pubkey (some pubkey_bytes)))
        (or_raise bad_request (b64u_decode a.proof (some signature_bytes))) a now wall s

-- the submission that waits for the future with this number
abbrev pub with_ticket : ℕ → PendingEnrollment → Bool
with_ticket n e = e.ticket == n

abbrev pub unpark : ℕ → System → System
unpark n s = record s { parked = keep (λ e. not (with_ticket n e)) s.parked }

abbrev pub go_on : Decision → PendingEnrollment → ℕ → System → Outcome × System
go_on undecided e wall s = (waiting e, s)
go_on timed_out e wall s = (refuse pairing_timeout, close_in approval_timeout (unpark e.ticket s))
go_on (decided true) e wall s = outcome (finish e wall (unpark e.ticket s))
go_on (decided false) e wall s = (refuse pairing_denied, close_in denied (unpark e.ticket s))

-- the rest of `submit`, when the event loop runs it again
unfoldable pub resume : PendingEnrollment → ℕ → System → Outcome × System
resume e wall s = go_on (s.manager.decisions e.ticket) e wall s

-- `wait_for` gives up, and cancels the future unless it is done
unfoldable pub time_out : PendingEnrollment → System → System
time_out e s = if is_decided (s.manager.decisions e.ticket) then s else record s {
  manager = record s.manager { decisions = decide e.ticket timed_out s.manager.decisions };
}

unfoldable pub cancel : System → System
cancel s = close_in cancelled s

unfoldable pub shut_down : System → System
shut_down s = if is_idle s.manager.state then s else close_in shutdown s

-- One operation of one caller. Those of parked submissions name the submission by its number.
pub data Op : Type 0 where
  do_begin : Option ℕ → (code : Text) → (now wall : ℕ) → Op
  do_submit : Attempt → (now wall : ℕ) → Op
  do_resolve : Bool → Op
  do_cancel do_shutdown : Op
  do_expire : ℕ → Op
  do_resume : (ticket wall : ℕ) → Op
  do_time_out : ℕ → Op

abbrev pub on_parked :
    Option PendingEnrollment → (PendingEnrollment → System → System) → System → System
on_parked none f s = s
on_parked (some e) f s = f e s

module _ (u : Unicode) (p : Primitives) (cfg : Settings) where
  unfoldable pub step : Op → System → System
  step (do_begin window_s code now wall) s = (begin p cfg window_s code now wall s).1
  step (do_submit a now wall) s = (submit u p cfg a now wall s).1
  step (do_resolve b) s = (resolve b s).1
  step do_cancel s = cancel s
  step do_shutdown s = shut_down s
  step (do_expire now) s = expire now s
  step (do_resume n wall) s =
      on_parked (find (with_ticket n) s.parked) (λ e t. (resume e wall t).1) s
  step (do_time_out n) s = on_parked (find (with_ticket n) s.parked) time_out s

  unfoldable pub steps : List Op → System → System
  unfolding step
  steps [] s = s
  steps (o ∷ ops) s = steps ops (step o s)
