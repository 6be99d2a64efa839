-- ===== src/Pairing/Phases/Refined.antt =====
-- `PairingManager` keeps to the promised phases.
use pc_helper_ios.Prelude.{
  ℕ, ◌-◌, ◌≡◌, refl, sym, ap, subst, inl, inr, Bool, true, false, ◌&&◌, Option, none, some, arith,
  ltb, leb, if◌then◌else◌, Bool-cases, find, Text, text_eq,
}
use pc_helper_ios.Unicode.{Unicode}
use pc_helper_ios.Errors.{Result, ok, err}
use pc_helper_ios.Crypto.Verify.{Primitives}
use pc_helper_ios.Store.{Store, call}
use pc_helper_ios.Store.Statements.{Device, upsert_device}
use pc_helper_ios.Pairing.Code.{hash_code, normalize_code}
use pc_helper_ios.Pairing.Manager.{
  PairingState, idle, opened, awaiting_approval, PendingEnrollment, OpenWindow, Settings, System,
  begin, expire, resolve, finished, finish, close, close_in, is_idle, is_opened, or_default,
  expired, Decision, undecided, timed_out, decided,
}
use pc_helper_ios.Pairing.Submit.{
  Attempt, outcome, enrollment, admitted, proven, wrong_code, park, attempt_in, locked, decoded,
  submit, go_on, resume, time_out, cancel, shut_down, Op, do_begin, do_submit, do_resolve,
  do_cancel, do_shutdown, do_expire, do_resume, do_time_out, with_ticket, on_parked, unpark, step,
}
use pc_helper_ios.Pairing.Phases.{
  Phase, closed, guessing, Move, stays, opens, misses, asks, ends, phase_in, phase,
}

abbrev Moves : System → System → Type 0
Moves s t = Move (phase s) (phase t)

from_phase : {p q : Phase} (s : System) → phase s ≡ p → Move p q → Move (phase s) q
from_phase {p} {q} s e m = subst (λ r. Move r q) (sym e) m

if-Moves :
    {A : Type 0} (s : System) (b : Bool) (x y : A × System)
    → (b ≡ true → Moves s x.1)
    → (b ≡ false → Moves s y.1)
    → Moves s (if b then x else y).1
if-Moves s true x y h k = h refl
if-Moves s false x y h k = k refl

idle_phase : (s : System) → is_idle s.manager.state ≡ true → phase s ≡ closed
idle_phase s h = go s.manager.state h
  where
    go :
        (st : PairingState)
        → is_idle st ≡ true
        → phase_in st s.manager.window s.manager.pending ≡ closed
    go idle k = refl
    go opened k = cc
    go awaiting_approval k = cc

missed : (h : Text) (n : ℕ) → leb (n - 1) 0 ≡ false → Move (guessing h n) (guessing h (n - 1))
missed h n k = misses h n (ground arith)

begin-Moves :
    (p : Primitives) (cfg : Settings) (window_s : Option ℕ) (code : Text) (now wall : ℕ)
    (s : System)
    → Moves s (begin p cfg window_s code now wall s).1
unfolding begin
begin-Moves p cfg window_s code now wall s = elim (Bool-cases (is_idle s.manager.state)) [
  | inr busy ↦ rw busy (stays _)
  | inl quiet ↦
      let w = or_default window_s cfg.window_s in
      elim (Bool-cases (leb 15 w && leb w 600)) [
        | inr out ↦ rw (quiet, out) (stays _)
        | inl within ↦
            rw (quiet, within)
              (from_phase s (idle_phase s quiet) (opens (hash_code p.sha256 code) cfg.max_attempts))
      ]
]

expire-Moves : (now : ℕ) (s : System) → Moves s (expire now s)
unfolding expire close
expire-Moves now s = go s.manager.expiry
  where
    go :
        (o : Option ℕ)
        → Moves s (elim o [
          | none ↦ s
          | some t ↦
              if ltb now t
              then s
              else if is_opened s.manager.state
              then close_in expired s
              else record s { manager = record s.manager { expiry = none } }
        ])
    go none = stays _
    go (some t) = elim (Bool-cases (ltb now t)) [
      | inl early ↦ rw early (stays _)
      | inr due ↦ elim (Bool-cases (is_opened s.manager.state)) [
        | inl waiting ↦ rw (due, waiting) (ends _)
        | inr other ↦ rw (due, other) (stays _)
      ]
    ]

same_phase :
    (s t : System)
    → t.manager.state ≡ s.manager.state
    → t.manager.window ≡ s.manager.window
    → t.manager.pending ≡ s.manager.pending
    → Moves s t
same_phase s t a b c = rw (a, b, c) (stays _)

resolve-Moves : (b : Bool) (s : System) → Moves s (resolve b s).1
unfolding resolve
resolve-Moves b s = same_phase s (resolve b s).1 (ground arith) (ground arith) (ground arith)

finish-Moves :
    (e : PendingEnrollment) (wall : ℕ) (s : System) → Moves s (outcome (finish e wall s)).1
unfolding finish close
finish-Moves e wall s =
    go (call (upsert_device e.device_id e.pubkey e.device_name e.platform wall) s.store)
  where
    go : (r : Result Device × Store) → Moves s (outcome (finished e wall r s)).1
    go (err x, t) = stays _
    go (ok d, t) = ends _

-- within an open window
module _ (u : Unicode) (p : Primitives) (cfg : Settings) (w : OpenWindow) (s : System)
    (is_open : s.manager.state ≡ opened) (its : s.manager.window ≡ some w) where
  open_phase : phase s ≡ guessing w.code_hash w.attempts_left
  open_phase = rw (is_open, its) refl

  wrong_code-Moves : Moves s (wrong_code w s).1
  unfolding wrong_code close
  wrong_code-Moves =
      if-Moves s (leb (w.attempts_left - 1) 0) _ _ (λ last. ends _)
        (λ more. rw is_open (
          subst (λ r. Move r (guessing w.code_hash (w.attempts_left - 1)))
            (sym (ap (λ o. phase_in opened o s.manager.pending) its))
            (missed w.code_hash w.attempts_left more)))

  admitted-Moves : (r : Result PendingEnrollment) (wall : ℕ) → Moves s (admitted u p cfg r wall s).1
  unfolding park
  admitted-Moves (err x) wall = stays _
  admitted-Moves (ok e) wall =
      if-Moves s cfg.require_approval (park e s) (outcome (finish e wall s))
        (λ asked. from_phase s open_phase (asks _ _ _)) (λ unasked. finish-Moves e wall s)

  proven-Moves :
      (r : Result Text) (a : Attempt) (pubkey proof : Text) (wall : ℕ)
      → Moves s (proven u p cfg r a pubkey proof wall s).1
  unfolding close
  proven-Moves (err x) a pubkey proof wall = stays _
  proven-Moves (ok message) a pubkey proof wall =
      if-Moves s (p.verifies pubkey proof message) _ _
        (λ good. admitted-Moves (enrollment u p cfg a pubkey wall s) wall) (λ bad. ends _)

  attempt_in-Moves :
      (a : Attempt) (pubkey proof : Text) (now wall : ℕ)
      → Moves s (attempt_in u p cfg w a pubkey proof now wall s).1
  unfolding attempt_in close
  attempt_in-Moves a pubkey proof now wall = elim (Bool-cases (leb w.deadline_monotonic now)) [
    | inl late ↦ rw late (ends _)
    | inr early ↦
        elim (Bool-cases (text_eq (hash_code p.sha256 (normalize_code u a.code)) w.code_hash)) [
          | inl right ↦ rw (early, right) (proven-Moves _ a pubkey proof wall)
          | inr wrong ↦ rw (early, wrong) wrong_code-Moves
        ]
  ]

module _ (u : Unicode) (p : Primitives) (cfg : Settings) where
  locked-Moves :
      (st : PairingState) (w : Option OpenWindow) (a : Attempt) (pubkey proof : Text) (now wall : ℕ)
      (s : System)
      → s.manager.state ≡ st
      → s.manager.window ≡ w
      → Moves s (locked u p cfg st w a pubkey proof now wall s).1
  unfolding locked
  locked-Moves awaiting_approval w a pubkey proof now wall s h k = stays _
  locked-Moves idle w a pubkey proof now wall s h k = stays _
  locked-Moves opened none a pubkey proof now wall s h k = stays _
  locked-Moves opened (some w) a pubkey proof now wall s h k =
      attempt_in-Moves u p cfg w s h k a pubkey proof now wall

  decoded-Moves :
      (r q : Result Text) (a : Attempt) (now wall : ℕ) (s : System)
      → Moves s (decoded u p cfg r q a now wall s).1
  decoded-Moves (err x) q a now wall s = stays _
  decoded-Moves (ok pubkey) (err x) a now wall s = stays _
  decoded-Moves (ok pubkey) (ok proof) a now wall s =
      locked-Moves s.manager.state s.manager.window a pubkey proof now wall s refl refl

go_on-Moves :
    (d : Decision) (e : PendingEnrollment) (wall : ℕ) (s : System) → Moves s (go_on d e wall s).1
unfolding close
go_on-Moves undecided e wall s = stays _
go_on-Moves timed_out e wall s = ends _
go_on-Moves (decided true) e wall s = finish-Moves e wall (unpark e.ticket s)
go_on-Moves (decided false) e wall s = ends _

time_out-Moves : (e : PendingEnrollment) (s : System) → Moves s (time_out e s)
unfolding time_out
time_out-Moves e s = same_phase s (time_out e s) (ground arith) (ground arith) (ground arith)

on_parked-Moves :
    (o : Option PendingEnrollment) (f : PendingEnrollment → System → System) (s : System)
    → ((e : PendingEnrollment) → Moves s (f e s))
    → Moves s (on_parked o f s)
on_parked-Moves none f s h = stays _
on_parked-Moves (some e) f s h = h e

-- Every operation is a move of the promised window: it stays as it is, opens where none was open,
-- loses one of at least two guesses under the same code, leaves the guessing for one submission
-- that the operator is asked about, or closes. So a window is never opened over another, and what
-- the operator is asked about never gets replaced or guessed at again.
pub step-Move :
    (u : Unicode) (p : Primitives) (cfg : Settings) (o : Op) (s : System)
    → Move (phase s) (phase (step u p cfg o s))
unfolding step submit cancel shut_down close resume
step-Move u p cfg (do_begin window_s code now wall) s = begin-Moves p cfg window_s code now wall s
step-Move u p cfg (do_submit a now wall) s = decoded-Moves u p cfg _ _ a now wall s
step-Move u p cfg (do_resolve b) s = resolve-Moves b s
step-Move u p cfg do_cancel s = ends _
step-Move u p cfg do_shutdown s = elim (Bool-cases (is_idle s.manager.state)) [
  | inl quiet ↦ rw quiet (stays _)
  | inr busy ↦ rw busy (ends _)
]
step-Move u p cfg (do_expire now) s = expire-Moves now s
step-Move u p cfg (do_resume n wall) s =
    on_parked-Moves (find (with_ticket n) s.parked) _ s (λ e. go_on-Moves _ e wall s)
step-Move u p cfg (do_time_out n) s =
    on_parked-Moves (find (with_ticket n) s.parked) time_out s (λ e. time_out-Moves e s)
