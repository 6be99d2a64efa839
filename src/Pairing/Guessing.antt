-- ===== src/Pairing/Guessing.antt =====
-- Wrong codes, and submissions that outlive their window.
use pc_helper_ios.Prelude.{
  ℕ, ◌-◌, ◌≤◌, ◌<◌, ◌≡◌, refl, sym, ap, ◌∙◌, subst, inl, inr, true, false, Option, none, some, List,
  [], ◌∷◌, arith, leb, ◌==◌, if◌then◌else◌, ==_iff, Bool-cases, length, find, All, Text, text_eq,
}
use pc_helper_ios.Errors.{ok, bad_request}
use pc_helper_ios.Unicode.{Unicode}
use pc_helper_ios.Crypto.Base64.{b64u_decode}
use pc_helper_ios.Crypto.Canonical.{pubkey_bytes, signature_bytes}
use pc_helper_ios.Crypto.Verify.{Primitives, or_raise}
use pc_helper_ios.Pairing.Code.{normalize_code, hash_code}
use pc_helper_ios.Pairing.Manager.{
  idle, opened, Decision, undecided, timed_out, decided, PendingEnrollment, OpenWindow, Reason,
  Settings, System, begin, close, close_in, decide, or_default,
}
use pc_helper_ios.Pairing.Submit.{
  Attempt, wrong_code, attempt_in, locked, submit, go_on, resume, cancel, do_begin, do_cancel,
  do_resume, with_ticket, on_parked, steps,
}

module _ (u : Unicode) (p : Primitives) (cfg : Settings) where
  -- a well-formed submission whose code is not the window's
  pub record IsGuess (code_hash : Text) (a : Attempt) : Type 0 where
    pub pubkey : Text
    pub proof : Text
    pub key_decodes :
        or_raise bad_request (b64u_decode a.device_pubkey (some pubkey_bytes)) ≡ ok pubkey
    pub proof_decodes : or_raise bad_request (b64u_decode a.proof (some signature_bytes)) ≡ ok proof
    pub wrong : text_eq (hash_code p.sha256 (normalize_code u a.code)) code_hash ≡ false

  -- the submissions one after the other, each with its clocks
  pub guesses : List (Attempt × ℕ × ℕ) → System → System
  guesses [] s = s
  guesses ((a, now, wall) ∷ more) s = guesses more (submit u p cfg a now wall s).1

  guess_idle :
      (h : Text) (a : Attempt) (now wall : ℕ) (s : System)
      → IsGuess h a
      → s.manager.state ≡ idle
      → (submit u p cfg a now wall s).1 ≡ s
  unfolding submit locked
  guess_idle h a now wall s g e = rw (g.key_decodes, g.proof_decodes, e)

  guess_opened :
      (w : OpenWindow) (a : Attempt) (now wall : ℕ) (s : System)
      → IsGuess w.code_hash a
      → s.manager.state ≡ opened
      → s.manager.window ≡ some w
      → (submit u p cfg a now wall s).1
        ≡ (if leb w.deadline_monotonic now then close_in Reason.expired s else (wrong_code w s).1)
  unfolding submit locked attempt_in
  guess_opened w a now wall s g e f =
      rw (g.key_decodes, g.proof_decodes, e, f)
        (elim (Bool-cases (leb w.deadline_monotonic now)) [
          | inl late ↦ rw late
          | inr early ↦ rw (early, g.wrong)
        ])

  guesses_idle :
      (h : Text) (gs : List (Attempt × ℕ × ℕ)) (s : System)
      → All (λ g. IsGuess h g.0) gs
      → s.manager.state ≡ idle
      → (guesses gs s).manager.state ≡ idle
  unfolding guesses
  guesses_idle h [] s k e = e
  guesses_idle h ((a, now, wall) ∷ gs) s k e =
      subst (λ t. (guesses gs t).manager.state ≡ idle) (sym (guess_idle h a now wall s k.0 e))
        (guesses_idle h gs s k.1 e)

  -- As many submissions with a well-formed key and proof but a wrong code as an open window has
  -- attempts left, at whatever times, leave the manager idle.
  pub guesses_close :
      (gs : List (Attempt × ℕ × ℕ)) (w : OpenWindow) (s : System)
      → s.manager.state ≡ opened
      → s.manager.window ≡ some w
      → 0 < w.attempts_left
      → w.attempts_left ≤ length gs
      → All (λ g. IsGuess w.code_hash g.0) gs
      → (guesses gs s).manager.state ≡ idle
  unfolding guesses wrong_code close
  guesses_close [] w s e f some_left enough k = absurd (omega arith)
  guesses_close ((a, now, wall) ∷ gs) w s e f some_left enough k =
      subst (λ t. (guesses gs t).manager.state ≡ idle) (sym (guess_opened w a now wall s k.0 e f))
        (elim (Bool-cases (leb w.deadline_monotonic now)) [
          | inl late ↦ rw late (guesses_idle w.code_hash gs _ k.1 refl)
          | inr early ↦ rw early (elim (Bool-cases (leb (w.attempts_left - 1) 0)) [
            | inl last ↦ rw last (guesses_idle w.code_hash gs _ k.1 refl)
            | inr more ↦ rw more (
                guesses_close gs (record w { attempts_left = w.attempts_left - 1 }) _ e refl
                  (ground arith) (omega arith) k.1)
          ])
        ])

  begin_opens :
      (window_s : Option ℕ) (code : Text) (now wall : ℕ) (s : System)
      → s.manager.state ≡ idle
      → 15 ≤ or_default window_s cfg.window_s
      → or_default window_s cfg.window_s ≤ 600
      → ((begin p cfg window_s code now wall s).1.manager.state ≡ opened)
        × ((begin p cfg window_s code now wall s).1.parked ≡ s.parked)
        × ((begin p cfg window_s code now wall s).1.manager.decisions ≡ s.manager.decisions)
  unfolding begin
  begin_opens window_s code now wall s e lo hi = ground arith

  go_on_denied :
      (d : Decision) (e : PendingEnrollment) (wall : ℕ) (s : System)
      → d ≡ decided false
      → (go_on d e wall s).1.manager.state ≡ idle
  unfolding close
  go_on_denied undecided e wall s h = cc
  go_on_denied timed_out e wall s h = refl
  go_on_denied (decided true) e wall s h = cc
  go_on_denied (decided false) e wall s h = refl

  resume_denied :
      (n wall : ℕ) (o : Option PendingEnrollment) (e : PendingEnrollment) (s : System)
      → o ≡ some e
      → s.manager.decisions e.ticket ≡ decided false
      → (on_parked o (λ x t. (resume x wall t).1) s).manager.state ≡ idle
  unfolding resume close
  resume_denied n wall none e s f d = cc
  resume_denied n wall (some x) e s f d =
      let same : x ≡ e = cc in
      go_on_denied (s.manager.decisions x.ticket) x wall s
        (ap (λ (y : PendingEnrollment). s.manager.decisions y.ticket) same ∙ d)

  -- If a pending enrollment is undecided and parked, then a cancel and a begin with a window of 15
  -- to 600 seconds open a window, and the resumption of that enrollment closes it.
  pub resume_closes_newer :
      (s : System) (e : PendingEnrollment) (window_s : Option ℕ) (code : Text) (now wall later : ℕ)
      → s.manager.pending ≡ some e
      → s.manager.decisions e.ticket ≡ undecided
      → find (with_ticket e.ticket) s.parked ≡ some e
      → 15 ≤ or_default window_s cfg.window_s
      → or_default window_s cfg.window_s ≤ 600
      → ((steps u p cfg (do_cancel ∷ do_begin window_s code now wall ∷ []) s).manager.state
          ≡ opened)
        × ((steps u p cfg
              (do_cancel ∷ do_begin window_s code now wall ∷ do_resume e.ticket later ∷ [])
              s).manager.state
            ≡ idle)
  unfolding steps cancel close decide
  resume_closes_newer s e window_s code now wall later a b c lo hi =
      let closed : System = close_in Reason.cancelled s in
      let (up, kept, same) = begin_opens window_s code now wall closed refl lo hi in
      let self : (e.ticket == e.ticket) ≡ true = (==_iff e.ticket e.ticket).1 refl in
      (
        up,
        resume_denied e.ticket later _ e (begin p cfg window_s code now wall closed).1
            (ap (find (with_ticket e.ticket)) kept ∙ c)
            (ap (λ (f : ℕ → Decision). f e.ticket) same ∙ rw a (rw b (rw self))),
      )
