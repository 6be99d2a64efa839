-- ===== src/Pairing/Enrollment/Approval.antt =====
-- A device is stored only after a proof of its key and, where approval is required, a decision.
use pc_helper_ios.Prelude.{
  ℕ, ◌-◌, ◌≡◌, refl, inl, inr, Bool, true, false, Option, none, some, List, [], ◌∷◌, arith, leb,
  Bool-cases, find, All, All-keep, Text,
}
use pc_helper_ios.Errors.{Result, ok, err}
use pc_helper_ios.Unicode.{Unicode}
use pc_helper_ios.Crypto.Verify.{Primitives}
use pc_helper_ios.Store.{Store}
use pc_helper_ios.Store.Statements.{Device}
use pc_helper_ios.Pairing.Manager.{
  Decision, undecided, timed_out, decided, PendingEnrollment, Settings, System, is_idle, begin,
  expire, resolve, finished, finish,
}
use pc_helper_ios.Pairing.Submit.{
  outcome, wrong_code, park, go_on, resume, time_out, cancel, shut_down, Op, do_begin, do_submit,
  do_resolve, do_cancel, do_shutdown, do_expire, do_resume, do_time_out, with_ticket, on_parked,
  unpark, step, steps,
}
use pc_helper_ios.Pairing.Enrollment.{IsVouched, Keeps, submit-keeps}

outcome_state : (r : Result Device × System) → (outcome r).1 ≡ r.1
outcome_state (ok d, s) = refl
outcome_state (err x, s) = refl

parked-finished :
    (e : PendingEnrollment) (wall : ℕ) (r : Result Device × Store) (s : System)
    → (finished e wall r s).1.parked ≡ s.parked
parked-finished e wall (err x, store) s = refl
parked-finished e wall (ok d, store) s = refl

pub parked-finish :
    (e : PendingEnrollment) (wall : ℕ) (s : System)
    → (outcome (finish e wall s)).1.parked ≡ s.parked
unfolding finish
parked-finish e wall s = rw outcome_state (parked-finished e wall _ s)

module _ (u : Unicode) (p : Primitives) (cfg : Settings) where
  abbrev pub AllVouched : System → Type 0
  AllVouched s = All (IsVouched u p cfg) s.parked

  AllVouched-Keeps : Keeps u p cfg AllVouched
  unfolding wrong_code park
  AllVouched-Keeps = record {
    on_close = λ r s h. h;
    on_wrong = λ w s h. elim (Bool-cases (leb (w.attempts_left - 1) 0)) [
      | inl last ↦ rw last h
      | inr more ↦ rw more h
    ];
    on_park = λ e s v asked h. (v, h);
    on_finish = λ e wall s v unasked h. rw parked-finish h;
  }

  unpark-AllVouched : (n : ℕ) (s : System) → AllVouched s → AllVouched (unpark n s)
  unpark-AllVouched n s h = All-keep (IsVouched u p cfg) _ s.parked h

  go_on-AllVouched :
      (d : Decision) (e : PendingEnrollment) (wall : ℕ) (s : System)
      → AllVouched s
      → AllVouched (go_on d e wall s).1
  go_on-AllVouched undecided e wall s h = h
  go_on-AllVouched timed_out e wall s h = unpark-AllVouched e.ticket s h
  go_on-AllVouched (decided true) e wall s h =
      rw (parked-finish e wall (unpark e.ticket s)) (unpark-AllVouched e.ticket s h)
  go_on-AllVouched (decided false) e wall s h = unpark-AllVouched e.ticket s h

  time_out-parked : (e : PendingEnrollment) (s : System) → (time_out e s).parked ≡ s.parked
  unfolding time_out
  time_out-parked e s = ground arith

  begin-parked :
      (window_s : Option ℕ) (code : Text) (now wall : ℕ) (s : System)
      → (begin p cfg window_s code now wall s).1.parked ≡ s.parked
  unfolding begin
  begin-parked window_s code now wall s = ground arith

  expire-parked : (now : ℕ) (s : System) → (expire now s).parked ≡ s.parked
  unfolding expire
  expire-parked now s = ground arith

  resolve-parked : (b : Bool) (s : System) → (resolve b s).1.parked ≡ s.parked
  unfolding resolve
  resolve-parked b s = ground arith

  on_parked-keeps :
      (P : System → Type 0) (o : Option PendingEnrollment) (f : PendingEnrollment → System → System)
      (s : System)
      → ((e : PendingEnrollment) → P (f e s))
      → P s
      → P (on_parked o f s)
  on_parked-keeps P none f s k h = h
  on_parked-keeps P (some e) f s k h = k e

  step-AllVouched : (o : Op) (s : System) → AllVouched s → AllVouched (step u p cfg o s)
  unfolding step resume cancel shut_down
  step-AllVouched (do_begin window_s code now wall) s h =
      rw (begin-parked window_s code now wall s) h
  step-AllVouched (do_submit a now wall) s h =
      submit-keeps u p cfg AllVouched AllVouched-Keeps a now wall s h
  step-AllVouched (do_resolve b) s h = rw (resolve-parked b s) h
  step-AllVouched do_cancel s h = h
  step-AllVouched do_shutdown s h = elim (Bool-cases (is_idle s.manager.state)) [
    | inl quiet ↦ rw quiet h
    | inr busy ↦ rw busy h
  ]
  step-AllVouched (do_expire now) s h = rw (expire-parked now s) h
  step-AllVouched (do_resume n wall) s h =
      on_parked-keeps AllVouched (find (with_ticket n) s.parked) _ s
        (λ e. go_on-AllVouched _ e wall s h) h
  step-AllVouched (do_time_out n) s h =
      on_parked-keeps AllVouched (find (with_ticket n) s.parked) _ s
        (λ e. rw (time_out-parked e s) h) h

  -- From a system where it is so, after any operations every enrollment that waits for approval
  -- has a proof of its key over this server's fingerprint that verified, and bears the device id
  -- of that key.
  pub steps-AllVouched :
      (ops : List Op) (s : System) → AllVouched s → AllVouched (steps u p cfg ops s)
  unfolding steps
  steps-AllVouched [] s h = h
  steps-AllVouched (o ∷ ops) s h = steps-AllVouched ops (step u p cfg o s) (step-AllVouched o s h)
