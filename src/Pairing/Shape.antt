-- ===== src/Pairing/Shape.antt =====
-- The state, the window and the parked enrollment agree after every operation, and wrong codes
-- close the window.
use pc_helper_ios.Prelude.{
  ℕ, ◌-◌, ◌≤◌, ◌<◌, ◌≡◌, refl, inl, inr, Bool, true, false, not, Option, none, some, List, [], ◌∷◌,
  arith, leb, Bool-cases, is_some, find, Text, text_eq,
}
use pc_helper_ios.Errors.{Result, ok, err}
use pc_helper_ios.Unicode.{Unicode}
use pc_helper_ios.Crypto.Verify.{Primitives}
use pc_helper_ios.Store.{Store}
use pc_helper_ios.Store.Statements.{Device}
use pc_helper_ios.Pairing.Code.{normalize_code, hash_code}
use pc_helper_ios.Pairing.Manager.{
  PairingState, idle, opened, awaiting_approval, Decision, undecided, timed_out, decided,
  PendingEnrollment, OpenWindow, Reason, Manager, Settings, System, start, is_idle, begin, expire,
  resolve, finished, finish, close,
}
use pc_helper_ios.Pairing.Submit.{
  Attempt, outcome, enrollment, admitted, proven, wrong_code, park, attempt_in, locked, decoded,
  submit, go_on, resume, time_out, cancel, shut_down, Op, do_begin, do_submit, do_resolve,
  do_cancel, do_shutdown, do_expire, do_resume, do_time_out, with_ticket, on_parked, unpark, step,
  steps,
}

abbrev pub attempts_of : Option OpenWindow → ℕ
attempts_of none = 1
attempts_of (some w) = w.attempts_left

abbrev is_awaiting : PairingState → Bool
is_awaiting idle = false
is_awaiting opened = false
is_awaiting awaiting_approval = true

outcome_state : (r : Result Device × System) → (outcome r).1 ≡ r.1
outcome_state (ok d, s) = refl
outcome_state (err x, s) = refl

-- A window is there unless the state is idle, an enrollment is pending exactly while approval is
-- awaited, and at least one attempt is left, and at most `max_attempts`.
pub record IsShaped (most : ℕ) (m : Manager) : Type 0 where
  pub windowed : is_idle m.state ≡ not (is_some m.window)
  pub parked : is_awaiting m.state ≡ is_some m.pending
  pub positive : 0 < attempts_of m.window
  pub bounded : attempts_of m.window ≤ most

module _ (u : Unicode) (p : Primitives) (cfg : Settings)
    (some_attempts : 0 < cfg.max_attempts) where
  abbrev Fits : System → Type 0
  Fits s = IsShaped cfg.max_attempts s.manager

  close-IsShaped : (r : Reason) (m : Manager) → IsShaped cfg.max_attempts (close r m)
  unfolding close
  close-IsShaped r m = ground arith

  begin-Fits :
      (window_s : Option ℕ) (code : Text) (now wall : ℕ) (s : System)
      → Fits s
      → Fits (begin p cfg window_s code now wall s).1
  unfolding begin
  begin-Fits window_s code now wall s h = ground arith

  finished-Fits :
      (e : PendingEnrollment) (wall : ℕ) (r : Result Device × Store) (s : System)
      → Fits s
      → Fits (finished e wall r s).1
  finished-Fits e wall (err x, store) s h = h
  finished-Fits e wall (ok d, store) s h = close-IsShaped _ _

  finish-Fits :
      (e : PendingEnrollment) (wall : ℕ) (s : System) → Fits s → Fits (outcome (finish e wall s)).1
  unfolding finish
  finish-Fits e wall s h = rw outcome_state (finished-Fits e wall _ s h)

  wrong_code-Fits :
      (w : OpenWindow) (s : System) → s.manager.window ≡ some w → Fits s → Fits (wrong_code w s).1
  unfolding wrong_code
  wrong_code-Fits w s e h = elim (Bool-cases (leb (w.attempts_left - 1) 0)) [
    | inl last ↦ rw last (close-IsShaped _ _)
    | inr more ↦ rw more (ground arith)
  ]

  admitted-Fits :
      (r : Result PendingEnrollment) (w : OpenWindow) (wall : ℕ) (s : System)
      → s.manager.window ≡ some w
      → Fits s
      → Fits (admitted u p cfg r wall s).1
  unfolding park
  admitted-Fits (err x) w wall s e h = h
  admitted-Fits (ok n) w wall s e h = elim (Bool-cases cfg.require_approval) [
    | inl asked ↦ rw asked (ground arith)
    | inr open_door ↦ rw open_door (finish-Fits n wall s h)
  ]

  proven-Fits :
      (r : Result Text) (w : OpenWindow) (a : Attempt) (pubkey proof : Text) (wall : ℕ) (s : System)
      → s.manager.window ≡ some w
      → Fits s
      → Fits (proven u p cfg r a pubkey proof wall s).1
  proven-Fits (err x) w a pubkey proof wall s e h = h
  proven-Fits (ok message) w a pubkey proof wall s e h =
      elim (Bool-cases (p.verifies pubkey proof message)) [
        | inl good ↦ rw good (admitted-Fits (enrollment u p cfg a pubkey wall s) w wall s e h)
        | inr bad ↦ rw bad (close-IsShaped _ _)
      ]

  attempt_in-Fits :
      (w : OpenWindow) (a : Attempt) (pubkey proof : Text) (now wall : ℕ) (s : System)
      → s.manager.window ≡ some w
      → Fits s
      → Fits (attempt_in u p cfg w a pubkey proof now wall s).1
  unfolding attempt_in
  attempt_in-Fits w a pubkey proof now wall s e h =
      elim (Bool-cases (leb w.deadline_monotonic now)) [
        | inl late ↦ rw late (close-IsShaped _ _)
        | inr early ↦
            elim (Bool-cases (text_eq (hash_code p.sha256 (normalize_code u a.code)) w.code_hash)) [
              | inl right ↦ rw (early, right) (proven-Fits _ w a pubkey proof wall s e h)
              | inr wrong ↦ rw (early, wrong) (wrong_code-Fits w s e h)
            ]
      ]

  locked-Fits :
      (st : PairingState) (w : Option OpenWindow) (a : Attempt) (pubkey proof : Text) (now wall : ℕ)
      (s : System)
      → s.manager.window ≡ w
      → Fits s
      → Fits (locked u p cfg st w a pubkey proof now wall s).1
  unfolding locked
  locked-Fits awaiting_approval w a pubkey proof now wall s e h = h
  locked-Fits idle w a pubkey proof now wall s e h = h
  locked-Fits opened none a pubkey proof now wall s e h = h
  locked-Fits opened (some w) a pubkey proof now wall s e h =
      attempt_in-Fits w a pubkey proof now wall s e h

  decoded-Fits :
      (r q : Result Text) (a : Attempt) (now wall : ℕ) (s : System)
      → Fits s
      → Fits (decoded u p cfg r q a now wall s).1
  decoded-Fits (err x) q a now wall s h = h
  decoded-Fits (ok pubkey) (err x) a now wall s h = h
  decoded-Fits (ok pubkey) (ok proof) a now wall s h =
      locked-Fits s.manager.state s.manager.window a pubkey proof now wall s refl h

  submit-Fits :
      (a : Attempt) (now wall : ℕ) (s : System) → Fits s → Fits (submit u p cfg a now wall s).1
  unfolding submit
  submit-Fits a now wall s h = decoded-Fits _ _ a now wall s h

  go_on-Fits :
      (d : Decision) (e : PendingEnrollment) (wall : ℕ) (s : System)
      → Fits s
      → Fits (go_on d e wall s).1
  go_on-Fits undecided e wall s h = h
  go_on-Fits timed_out e wall s h = close-IsShaped _ _
  go_on-Fits (decided true) e wall s h = finish-Fits e wall (unpark e.ticket s) h
  go_on-Fits (decided false) e wall s h = close-IsShaped _ _

  expire-Fits : (now : ℕ) (s : System) → Fits s → Fits (expire now s)
  unfolding expire close
  expire-Fits now s h = ground arith

  resolve-Fits : (b : Bool) (s : System) → Fits s → Fits (resolve b s).1
  unfolding resolve
  resolve-Fits b s h = ground arith

  time_out-Fits : (e : PendingEnrollment) (s : System) → Fits s → Fits (time_out e s)
  unfolding time_out
  time_out-Fits e s h = ground arith

  on_parked-Fits :
      (o : Option PendingEnrollment) (f : PendingEnrollment → System → System) (s : System)
      → ((e : PendingEnrollment) → Fits (f e s))
      → Fits s
      → Fits (on_parked o f s)
  on_parked-Fits none f s k h = h
  on_parked-Fits (some e) f s k h = k e

  step-Fits : (o : Op) (s : System) → Fits s → Fits (step u p cfg o s)
  unfolding step resume cancel shut_down
  step-Fits (do_begin window_s code now wall) s h = begin-Fits window_s code now wall s h
  step-Fits (do_submit a now wall) s h = submit-Fits a now wall s h
  step-Fits (do_resolve b) s h = resolve-Fits b s h
  step-Fits do_cancel s h = close-IsShaped _ _
  step-Fits do_shutdown s h = elim (Bool-cases (is_idle s.manager.state)) [
    | inl quiet ↦ rw quiet h
    | inr busy ↦ rw busy (close-IsShaped _ _)
  ]
  step-Fits (do_expire now) s h = expire-Fits now s h
  step-Fits (do_resume n wall) s h =
      on_parked-Fits (find (with_ticket n) s.parked) _ s (λ e. go_on-Fits _ e wall s h) h
  step-Fits (do_time_out n) s h =
      on_parked-Fits (find (with_ticket n) s.parked) _ s (λ e. time_out-Fits e s h) h

  -- Where at least one attempt is configured, whatever operations interleave, a manager that is
  -- well-formed stays so: its state, its window and its pending enrollment agree, and the attempts
  -- left are from one to the maximum.
  pub steps-IsShaped :
      (ops : List Op) (s : System)
      → IsShaped cfg.max_attempts s.manager
      → IsShaped cfg.max_attempts (steps u p cfg ops s).manager
  unfolding steps
  steps-IsShaped [] s h = h
  steps-IsShaped (o ∷ ops) s h = steps-IsShaped ops (step u p cfg o s) (step-Fits o s h)

  pub IsShaped-start : (store : Store) → IsShaped cfg.max_attempts (start store).manager
  IsShaped-start store = ground arith
