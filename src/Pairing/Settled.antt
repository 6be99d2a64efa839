-- ===== src/Pairing/Settled.antt =====
-- The decisions on the submissions that wait for the operator.
pub mod Answered
use pc_helper_ios.Prelude.{
  ℕ, ◌-◌, ◌≡◌, refl, ap, sym, subst, inl, inr, Bool, true, false, not, Option, none, some, List, [],
  ◌∷◌, arith, ltb, leb, ◌==◌, ==_iff, Bool-cases, Option-cases, keep, find, Text,
}
use pc_helper_ios.Unicode.{Unicode}
use pc_helper_ios.Errors.{Result, ok, err}
use pc_helper_ios.Crypto.Verify.{Primitives}
use pc_helper_ios.Store.{Store, call}
use pc_helper_ios.Store.Statements.{Device, upsert_device}
use pc_helper_ios.Pairing.Manager.{
  PendingEnrollment, Settings, System, begin, expire, resolve, finished, finish, close, is_decided,
  is_idle, is_opened, decide, release, Decision, undecided, timed_out, decided,
}
use pc_helper_ios.Pairing.Submit.{
  outcome, park, wrong_code, go_on, resume, time_out, cancel, shut_down, Op, do_begin, do_submit,
  do_resolve, do_cancel, do_shutdown, do_expire, do_resume, do_time_out, with_ticket, on_parked,
  unpark, step, steps,
}
use pc_helper_ios.Pairing.Enrollment.{Keeps, submit-keeps}
use pc_helper_ios.Pairing.Enrollment.Approval.{parked-finish}

-- the future with this number is done, with this decision
abbrev pub IsSettled : ℕ → Decision → System → Type 0
IsSettled n d s = s.manager.decisions n ≡ d

module _ (n : ℕ) (d : Decision) (done : is_decided d ≡ true) where
  decide-IsSettled :
      (k : ℕ) (a : Decision) (f : ℕ → Decision)
      → is_decided (f k) ≡ false
      → f n ≡ d
      → decide k a f n ≡ d
  unfolding decide
  decide-IsSettled k a f open_future h = elim (Bool-cases (n == k)) [
    | inl same ↦
        let here : f n ≡ f k = ap f ((==_iff n k).0 same) in
        absurd (cc (here, h, done, open_future))
    | inr other ↦ rw other h
  ]

  release-IsSettled :
      (o : Option PendingEnrollment) (f : ℕ → Decision) → f n ≡ d → release o f n ≡ d
  release-IsSettled none f h = h
  release-IsSettled (some e) f h = elim (Bool-cases (is_decided (f e.ticket))) [
    | inl over ↦ rw over h
    | inr open_future ↦ rw open_future (decide-IsSettled e.ticket (decided false) f open_future h)
  ]

  finish-IsSettled :
      (e : PendingEnrollment) (wall : ℕ) (s : System)
      → IsSettled n d s
      → IsSettled n d (outcome (finish e wall s)).1
  unfolding finish close
  finish-IsSettled e wall s h =
      go (call (upsert_device e.device_id e.pubkey e.device_name e.platform wall) s.store)
    where
      go : (r : Result Device × Store) → IsSettled n d (outcome (finished e wall r s)).1
      go (err x, t) = h
      go (ok device, t) = release-IsSettled s.manager.pending s.manager.decisions h

  module _ (u : Unicode) (p : Primitives) (cfg : Settings) where
    IsSettled-Keeps : Keeps u p cfg (IsSettled n d)
    unfolding wrong_code park close
    IsSettled-Keeps = record {
      on_close = λ r s h. release-IsSettled s.manager.pending s.manager.decisions h;
      on_wrong = λ w s h. elim (Bool-cases (leb (w.attempts_left - 1) 0)) [
        | inl last ↦ rw last (release-IsSettled s.manager.pending s.manager.decisions h)
        | inr more ↦ rw more h
      ];
      on_park = λ e s v asked h. h;
      on_finish = λ e wall s v unasked h. finish-IsSettled e wall s h;
    }

    begin-decisions :
        (window_s : Option ℕ) (code : Text) (now wall : ℕ) (s : System)
        → (begin p cfg window_s code now wall s).1.manager.decisions ≡ s.manager.decisions
    unfolding begin
    begin-decisions window_s code now wall s = ground arith

    expire-IsSettled : (now : ℕ) (s : System) → IsSettled n d s → IsSettled n d (expire now s)
    unfolding expire close
    expire-IsSettled now s h = elim (Option-cases s.manager.expiry) [
      | inl off ↦ rw off h
      | inr (t, due) ↦ elim (Bool-cases (ltb now t)) [
        | inl early ↦ rw (due, early) h
        | inr late ↦ elim (Bool-cases (is_opened s.manager.state)) [
          | inl waiting ↦
              rw (due, late, waiting) (release-IsSettled s.manager.pending s.manager.decisions h)
          | inr other ↦ rw (due, late, other) h
        ]
      ]
    ]

    resolve-IsSettled : (b : Bool) (s : System) → IsSettled n d s → IsSettled n d (resolve b s).1
    unfolding resolve decide
    resolve-IsSettled b s h = grind (arith, decide-IsSettled)

    time_out-IsSettled :
        (e : PendingEnrollment) (s : System) → IsSettled n d s → IsSettled n d (time_out e s)
    unfolding time_out decide
    time_out-IsSettled e s h = elim (Bool-cases (is_decided (s.manager.decisions e.ticket))) [
      | inl over ↦ rw over h
      | inr open_future ↦
          rw open_future (decide-IsSettled e.ticket timed_out s.manager.decisions open_future h)
    ]

    on_parked-IsSettled :
        (o : Option PendingEnrollment) (f : PendingEnrollment → System → System) (s : System)
        → ((e : PendingEnrollment) → IsSettled n d (f e s))
        → IsSettled n d s
        → IsSettled n d (on_parked o f s)
    on_parked-IsSettled none f s k h = h
    on_parked-IsSettled (some e) f s k h = k e

    go_on-IsSettled :
        (a : Decision) (e : PendingEnrollment) (wall : ℕ) (s : System)
        → IsSettled n d s
        → IsSettled n d (go_on a e wall s).1
    unfolding close
    go_on-IsSettled undecided e wall s h = h
    go_on-IsSettled timed_out e wall s h = release-IsSettled s.manager.pending s.manager.decisions h
    go_on-IsSettled (decided true) e wall s h = finish-IsSettled e wall (unpark e.ticket s) h
    go_on-IsSettled (decided false) e wall s h =
        release-IsSettled s.manager.pending s.manager.decisions h

    step-IsSettled : (o : Op) (s : System) → IsSettled n d s → IsSettled n d (step u p cfg o s)
    unfolding step resume cancel shut_down close
    step-IsSettled (do_begin window_s code now wall) s h =
        rw (begin-decisions window_s code now wall s) h
    step-IsSettled (do_submit a now wall) s h =
        submit-keeps u p cfg (IsSettled n d) IsSettled-Keeps a now wall s h
    step-IsSettled (do_resolve b) s h = resolve-IsSettled b s h
    step-IsSettled do_cancel s h = release-IsSettled s.manager.pending s.manager.decisions h
    step-IsSettled do_shutdown s h = elim (Bool-cases (is_idle s.manager.state)) [
      | inl quiet ↦ rw quiet h
      | inr busy ↦ rw busy (release-IsSettled s.manager.pending s.manager.decisions h)
    ]
    step-IsSettled (do_expire now) s h = expire-IsSettled now s h
    step-IsSettled (do_resume m wall) s h =
        on_parked-IsSettled (find (with_ticket m) s.parked) _ s (λ e. go_on-IsSettled _ e wall s h)
          h
    step-IsSettled (do_time_out m) s h =
        on_parked-IsSettled (find (with_ticket m) s.parked) time_out s
          (λ e. time_out-IsSettled e s h) h

    pub steps-IsSettled :
        (ops : List Op) (s : System) → IsSettled n d s → IsSettled n d (steps u p cfg ops s)
    unfolding steps
    steps-IsSettled [] s h = h
    steps-IsSettled (o ∷ ops) s h = steps-IsSettled ops (step u p cfg o s) (step-IsSettled o s h)

pub found_ticket :
    (n : ℕ) (es : List PendingEnrollment) (e : PendingEnrollment)
    → find (with_ticket n) es ≡ some e
    → e.ticket ≡ n
found_ticket n [] e h = cc
found_ticket n (x ∷ es) e h = ground (arith, found_ticket n es e)
