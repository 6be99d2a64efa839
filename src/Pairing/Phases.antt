-- ===== src/Pairing/Phases.antt =====
-- What the pairing promises its operator: a window is opened, guessed at a bounded number of times,
-- decided on, and closed. The module says it apart from how `PairingManager` keeps it.
pub mod Refined
use pc_helper_ios.Prelude.{
  ℕ, zero, suc, ◌+◌, ◌-◌, ◌*◌, ◌/◌, ◌%◌, ◌^◌, ◌≤◌, ◌<◌, min, max, String, ◌≡◌, refl, sym, ap, ◌∙◌,
  subst, fun_ext, ◌≢◌, ◌↔◌, ◌⊎◌, inl, inr, Bool, true, false, ◌&&◌, ◌||◌, not, Option, none, some,
  List, [], ◌∷◌, ◌++◌, map, reverse, arith, ltb, leb, ◌==◌, if◌then◌else◌, ltb→lt, lt→ltb, leb→le,
  le→leb, ==_iff, Bool-cases, Option-cases, is_some, length, take, drop, keep, any, all, find,
  length-append, length-keep-le, length-drop, insert_by, sort_by, length-sort_by, All, All-append,
  All-keep, Text, codes, text_eq, text_eq_refl, text_eq_iff,
}
use pc_helper_ios.Unicode.{Unicode}
use pc_helper_ios.Errors.{Result, ok, err}
use pc_helper_ios.Crypto.Verify.{Primitives}
use pc_helper_ios.Store.{Store, call}
use pc_helper_ios.Store.Statements.{Device, upsert_device}
use pc_helper_ios.Pairing.Code.{hash_code, normalize_code}
use pc_helper_ios.Pairing.Manager.{
  PairingState, idle, opened, awaiting_approval, PendingEnrollment, OpenWindow, Settings, System,
  begin, expire, resolve, finished, finish, close, close_in, is_idle, is_opened, or_default,
  expired, Decision, undecided, timed_out, decided,
}
use pc_helper_ios.Pairing.Submit.{
  Attempt, outcome, enrollment, admitted, proven, wrong_code, park, attempt_in, locked, decoded,
  submit, go_on, resume, time_out, cancel, shut_down, Op, do_begin, do_submit, do_resolve,
  do_cancel, do_shutdown, do_expire, do_resume, do_time_out, with_ticket, on_parked, unpark, step,
}

pub data Phase : Type 0 where
  closed : Phase
  guessing : (code_hash : Text) (attempts : ℕ) → Phase
  asking : (ticket : ℕ) → Phase

pub data Move : Phase → Phase → Type 0 where
  stays : (p : Phase) → Move p p
  opens : (code_hash : Text) (attempts : ℕ) → Move closed (guessing code_hash attempts)
  misses :
      (code_hash : Text) (attempts : ℕ)
      → 2 ≤ attempts
      → Move (guessing code_hash attempts) (guessing code_hash (attempts - 1))
  asks :
      (code_hash : Text) (attempts ticket : ℕ) → Move (guessing code_hash attempts) (asking ticket)
  ends : (p : Phase) → Move p closed

abbrev pub phase_in : PairingState → Option OpenWindow → Option PendingEnrollment → Phase
phase_in opened (some w) e = guessing w.code_hash w.attempts_left
phase_in awaiting_approval w (some e) = asking e.ticket
phase_in _ _ _ = closed

-- the promised phase that the manager is in
abbrev pub phase : System → Phase
phase s = phase_in s.manager.state s.manager.window s.manager.pending
