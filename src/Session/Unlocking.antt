-- ===== src/Session/Unlocking.antt =====
-- pc-service/src/wol_unlock/session.py: the unlocking, and the poll that confirms it.
pub mod Confirmed
use pc_helper_ios.Prelude.{
  ℕ, zero, suc, ◌+◌, ◌*◌, ◌≤◌, ◌<◌, ◌≡◌, refl, ap, ◌∙◌, subst, ◌≢◌, ◌⊎◌, inl, inr, Bool, true,
  false, Option, none, some, List, [], ◌∷◌, arith, leb, ◌==◌, if◌then◌else◌, Bool-cases, Text,
  codes,
}
use pc_helper_ios.Errors.{bad_request, Result, ok, err, runtime_error, unlock_failed}
use pc_helper_ios.Action.{
  continue, Action, pure, require, ◌>>=◌, ◌>>◌, >>=-returned, returned-injective, require_then,
}
use pc_helper_ios.Session.{
  is_session_id, show_command, shown, SessionInfo, UnlockResult, Logind, describe_session,
}
use pc_helper_ios.Session.Target.{IsTarget, find_unlock_target, find_unlock_target-IsTarget}

-- UNLOCK_CONFIRM_TIMEOUT_S and UNLOCK_POLL_INTERVAL_S, in milliseconds
abbrev pub confirm_timeout : ℕ
confirm_timeout = 5000

abbrev pub poll_interval : ℕ
poll_interval = 200

-- the polls that fit
abbrev pub poll_fuel : ℕ
poll_fuel = 26

module _ {S : Type 0} (l : Logind S) where
  -- one poll, and what goes on with it
  abbrev pub polled :
      ℕ
      → (S → Option (Result Bool × S))
      → Result (Option SessionInfo) × S
      → Option (Result Bool × S)
  polled deadline again (err e, s) = some (err e, s)
  polled deadline again (ok none, s) = some (ok false, s)
  polled deadline again (ok (some info), s) =
      let late = leb deadline (l.time s) in
      if info.locked
      then (if late then some (ok false, s) else again (l.sleep s))
      else some (ok true, s)

  unfoldable pub poll : ℕ → ℕ → Text → S → Option (Result Bool × S)
  unfolding describe_session
  poll zero deadline id s = none
  poll (suc n) deadline id s = polled deadline (poll n deadline id) (describe_session l id s)

  abbrev pub in_time : S → Option (Result Bool × S) → Result Bool × S
  in_time s none = (err runtime_error, s)
  in_time s (some r) = r

  -- `await_polls_end` shows that the fuel lasts.
  unfoldable pub await_unlocked : Text → Action S Bool
  unfolding poll
  await_unlocked id s = in_time s (poll poll_fuel (l.time s + confirm_timeout) id s)

  abbrev pub result_of : SessionInfo → Option SessionInfo → UnlockResult
  result_of target none = record { session = target; was_locked = true; unlocked = true }
  result_of target (some final) = record { session = final; was_locked = true; unlocked = true }

  abbrev pub already : SessionInfo → UnlockResult
  already target = record { session = target; was_locked = false; unlocked = true }

  abbrev pub confirm : SessionInfo → Action S UnlockResult
  confirm target = do
    (code, out) ← l.run (codes "unlock-session" ∷ target.id ∷ [])
    require (code == 0) unlock_failed
    confirmed ← await_unlocked target.id
    require confirmed unlock_failed
    final ← describe_session l target.id
    pure (result_of target final)

  unfoldable pub unlock_session : Option Text → Action S UnlockResult
  unfolding find_unlock_target await_unlocked
  unlock_session id = do
    target ← find_unlock_target l id
    if target.locked then confirm target else pure (already target)

  -- the clock goes on, and a sleep lasts as long as it was asked to
  pub record IsClock : Type 0 where
    pub runs : (args : List Text) (s : S) → l.time s ≤ l.time (l.run args s).1
    pub sleeps : (s : S) → l.time s + poll_interval ≤ l.time (l.sleep s)

  module _ (clock : IsClock) where
    guarded_forward :
        {A : Type 0} (b : Bool) (k : Action S A) (s : S)
        → l.time s ≤ l.time (k s).1
        → l.time s ≤ l.time ((require b bad_request >> k) s).1
    guarded_forward true k s h = h
    guarded_forward false k s h = omega arith

    continued_forward :
        {A B : Type 0} (before : ℕ) (r : Result A × S) (g : A → B)
        → before ≤ l.time r.1
        → before ≤ l.time (continue r (λ a. pure (g a))).1
    continued_forward before (ok a, s) g h = h
    continued_forward before (err x, s) g h = h

    describe_session_forward : (id : Text) (s : S) → l.time s ≤ l.time (describe_session l id s).1
    unfolding describe_session
    describe_session_forward id s = guarded_forward (is_session_id id) _ s (
        continued_forward (l.time s) (l.run (show_command l id) s) (shown l id)
          (clock.runs (show_command l id) s))

    polled_ends :
        (deadline : ℕ) (again : S → Option (Result Bool × S)) (r : Result (Option SessionInfo) × S)
        → (l.time r.1 < deadline → again (l.sleep r.1) ≢ none)
        → polled deadline again r ≢ none
    polled_ends deadline again (err x, s) ends h = cc
    polled_ends deadline again (ok none, s) ends h = cc
    polled_ends deadline again (ok (some info), s) ends h = elim (Bool-cases info.locked) [
      | inr free ↦ absurd (cc (free, h))
      | inl locked ↦ elim (Bool-cases (leb deadline (l.time s))) [
        | inl late ↦ absurd (cc (locked, late, h))
        | inr early ↦ ends (ground arith) (rw early at rw locked at h)
      ]
    ]

    poll_fuel-enough :
        (n deadline : ℕ) (id : Text) (s : S)
        → deadline ≤ l.time s + n * poll_interval
        → poll (suc n) deadline id s ≢ none
    unfolding poll
    poll_fuel-enough zero deadline id s enough =
        let forward = describe_session_forward id s in
        polled_ends deadline (poll zero deadline id) (describe_session l id s)
          (λ early. absurd (omega arith))
    poll_fuel-enough (suc n) deadline id s enough =
        let forward = describe_session_forward id s in
        polled_ends deadline (poll (suc n) deadline id) (describe_session l id s) (λ early.
          let next = (describe_session l id s).1 in
          poll_fuel-enough n deadline id (l.sleep next) (omega (arith, clock.sleeps next)))

    -- If a sleep lasts as long as it was asked to and no command turns the clock back, then the
    -- wait for the unlocking ends within its 26 polls, whatever logind answers.
    pub await_polls_end :
        (id : Text) (s : S) → poll poll_fuel (l.time s + confirm_timeout) id s ≢ none
    await_polls_end id s = poll_fuel-enough 25 (l.time s + confirm_timeout) id s (omega arith)
