-- ===== src/Pairing/Enrollment/Trusted.antt =====
-- Where approval is required, the store changes only when an approved enrollment resumes.
use pc_helper_ios.Prelude.{
  ℕ, ◌-◌, ◌≡◌, refl, sym, ◌≢◌, inl, inr, true, false, Option, none, some, arith, leb, Bool-cases,
  find,
}
use pc_helper_ios.Unicode.{Unicode}
use pc_helper_ios.Crypto.Verify.{Primitives}
use pc_helper_ios.Store.{Store}
use pc_helper_ios.Pairing.Manager.{
  Decision, undecided, timed_out, decided, PendingEnrollment, Settings, System, begin, expire,
  resolve,
}
use pc_helper_ios.Pairing.Submit.{
  wrong_code, park, go_on, resume, time_out, cancel, shut_down, Op, do_begin, do_submit, do_resolve,
  do_cancel, do_shutdown, do_expire, do_resume, do_time_out, with_ticket, on_parked, step,
}
use pc_helper_ios.Pairing.Settled.{found_ticket}
use pc_helper_ios.Pairing.Enrollment.{Keeps, submit-keeps}

-- the operation does not resume an enrollment that was approved
abbrev pub IsUnapproved : System → Op → Type 0
IsUnapproved s (do_resume n wall) = s.manager.decisions n ≢ decided true
IsUnapproved s _ = Unit

module _ (u : Unicode) (p : Primitives) (cfg : Settings) (asked : cfg.require_approval ≡ true) where
  same_store-Keeps : (store : Store) → Keeps u p cfg (λ s. s.store ≡ store)
  unfolding wrong_code park
  same_store-Keeps store = record {
    on_close = λ r s h. h;
    on_wrong = λ w s h. elim (Bool-cases (leb (w.attempts_left - 1) 0)) [
      | inl last ↦ rw last h
      | inr more ↦ rw more h
    ];
    on_park = λ e s v required h. h;
    on_finish = λ e wall s v unasked h. cc (asked, unasked);
  }

  go_on-store :
      (d : Decision) (e : PendingEnrollment) (wall : ℕ) (s : System)
      → d ≢ decided true
      → (go_on d e wall s).1.store ≡ s.store
  go_on-store undecided e wall s h = refl
  go_on-store timed_out e wall s h = refl
  go_on-store (decided true) e wall s h = absurd (h refl)
  go_on-store (decided false) e wall s h = refl

  resumed-store :
      (n wall : ℕ) (o : Option PendingEnrollment) (s : System)
      → o ≡ find (with_ticket n) s.parked
      → s.manager.decisions n ≢ decided true
      → (on_parked o (λ e t. (resume e wall t).1) s).store ≡ s.store
  unfolding resume
  resumed-store n wall none s f h = refl
  resumed-store n wall (some e) s f h =
      let t = found_ticket n s.parked e (sym f) in go_on-store _ e wall s (rw t h)

  -- Where approval is required, no operation changes the store, but the resumption of a submission
  -- whose decision is an approval.
  pub step-store : (o : Op) (s : System) → IsUnapproved s o → (step u p cfg o s).store ≡ s.store
  unfolding step cancel shut_down begin expire resolve time_out
  step-store (do_begin window_s code now wall) s h = ground arith
  step-store (do_submit a now wall) s h =
      submit-keeps u p cfg (λ t. t.store ≡ s.store) (same_store-Keeps s.store) a now wall s refl
  step-store (do_resolve b) s h = ground arith
  step-store do_cancel s h = refl
  step-store do_shutdown s h = ground arith
  step-store (do_expire now) s h = ground arith
  step-store (do_resume n wall) s h = resumed-store n wall _ s refl h
  step-store (do_time_out n) s h = ground arith
