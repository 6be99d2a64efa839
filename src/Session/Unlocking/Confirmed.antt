-- ===== src/Session/Unlocking/Confirmed.antt =====
-- pc-service/src/wol_unlock/session.py: what an answer of success from the unlocking says.
use pc_helper_ios.Prelude.{
  ℕ, zero, suc, ◌+◌, ◌≡◌, refl, ap, ◌∙◌, subst, inl, inr, Bool, true, false, Option, none, some, [],
  ◌∷◌, leb, ◌==◌, Bool-cases, Text, codes,
}
use pc_helper_ios.Errors.{Result, ok, err, unlock_failed}
use pc_helper_ios.Action.{>>=-returned, returned-injective, require_then}
use pc_helper_ios.Session.{SessionInfo, UnlockResult, Logind, describe_session}
use pc_helper_ios.Session.Target.{IsTarget, find_unlock_target, find_unlock_target-IsTarget}
use pc_helper_ios.Session.Unlocking.{
  polled, poll, in_time, poll_fuel, confirm_timeout, await_unlocked, result_of, confirm,
  unlock_session,
}

module _ {S : Type 0} (l : Logind S) where
  -- from this state on, the session is read, with sleeps in between, until it is not locked
  pub data WasSeen (id : Text) : S → Type 0 where
    open_now :
        (s t : S) (info : SessionInfo)
        → describe_session l id s ≡ (ok (some info), t)
        → info.locked ≡ false
        → WasSeen id s
    later :
        (s t : S) (info : SessionInfo)
        → describe_session l id s ≡ (ok (some info), t)
        → info.locked ≡ true
        → WasSeen id (l.sleep t)
        → WasSeen id s

  polled_seen :
      (id : Text) (deadline : ℕ) (again : S → Option (Result Bool × S)) (s : S)
      (r : Result (Option SessionInfo) × S) {t : S}
      → describe_session l id s ≡ r
      → ((s' : S) → again s' ≡ some (ok true, t) → WasSeen id s')
      → polled l deadline again r ≡ some (ok true, t)
      → WasSeen id s
  polled_seen id deadline again s (err x, s') e seen h = cc
  polled_seen id deadline again s (ok none, s') e seen h = cc
  polled_seen id deadline again s (ok (some info), s') e seen h = elim (Bool-cases info.locked) [
    | inr unlocked ↦ open_now s s' info e unlocked
    | inl locked ↦ elim (Bool-cases (leb deadline (l.time s'))) [
      | inl late ↦ absurd (cc (locked, late, h))
      | inr early ↦ later s s' info e locked (seen (l.sleep s') (rw early at rw locked at h))
    ]
  ]

  poll_seen :
      (n deadline : ℕ) (id : Text) (s : S) {t : S}
      → poll l n deadline id s ≡ some (ok true, t)
      → WasSeen id s
  unfolding poll
  poll_seen zero deadline id s h = cc
  poll_seen (suc n) deadline id s h =
      polled_seen id deadline (poll l n deadline id) s (describe_session l id s) refl
        (λ s'. poll_seen n deadline id s') h

  in_time_ok :
      (s : S) (r : Option (Result Bool × S)) {b : Bool} {t : S}
      → in_time l s r ≡ (ok b, t)
      → r ≡ some (ok b, t)
  in_time_ok s none h = cc
  in_time_ok s (some r) h = ap some h

  -- the command that was run, and what was read after it
  pub record WasUnlocked (target : SessionInfo) (s : S) : Type 0 where
    pub out : Text
    pub after : S
    pub code : ℕ
    pub succeeded : (code == 0) ≡ true
    pub ran : l.run (codes "unlock-session" ∷ target.id ∷ []) s ≡ (ok (code, out), after)
    pub seen : WasSeen target.id after

  result_unlocked :
      (target : SessionInfo) (final : Option SessionInfo)
      → ((result_of l target final).unlocked ≡ true)
        × ((result_of l target final).was_locked ≡ true)
  result_unlocked target none = (refl, refl)
  result_unlocked target (some final) = (refl, refl)

  confirm_seen :
      (target : SessionInfo) (s : S) {r : UnlockResult} {t : S}
      → confirm l target s ≡ (ok r, t)
      → (r.unlocked ≡ true) × (r.was_locked ≡ true) × WasUnlocked target s
  unfolding await_unlocked
  confirm_seen target s h =
      let ((code, out), s1, ran, h1) = >>=-returned (l.run _) _ s h in
      let (accepted, h2) = require_then (code == 0) unlock_failed _ s1 h1 in
      let (confirmed, s2, e, h3) = >>=-returned (await_unlocked l target.id) _ s1 h2 in
      let (released, h4) = require_then confirmed unlock_failed _ s2 h3 in
      let (final, s3, _, h5) = >>=-returned (describe_session l target.id) _ s2 h4 in
      let made = (returned-injective h5).0 in
      let polls = in_time_ok s1 (poll l poll_fuel (l.time s1 + confirm_timeout) target.id s1) e in
      (
        subst (λ x. x.unlocked ≡ true) made (result_unlocked target final).0,
        subst (λ x. x.was_locked ≡ true) made (result_unlocked target final).1,
        record {
          out = out;
          after = s1;
          code = code;
          succeeded = accepted;
          ran = ran;
          seen =
              poll_seen poll_fuel (l.time s1 + confirm_timeout) target.id s1
                (polls ∙ ap (λ b. some (ok b, s2)) released);
        },
      )

  -- What an answer of success says: the session that was found was not locked, or it was and the
  -- unlock command succeeded and a later read of logind called it unlocked.
  pub data IsConfirmed (id : Option Text) (s : S) (r : UnlockResult) : Type 0 where
    was_open :
        (t : S)
        → find_unlock_target l id s ≡ (ok r.session, t)
        → r.session.locked ≡ false
        → r.was_locked ≡ false
        → r.unlocked ≡ true
        → IsConfirmed id s r
    was_closed :
        (target : SessionInfo) (t : S)
        → find_unlock_target l id s ≡ (ok target, t)
        → target.locked ≡ true
        → IsTarget l target
        → WasUnlocked target t
        → r.was_locked ≡ true
        → r.unlocked ≡ true
        → IsConfirmed id s r

  -- If unlocking answers, then it answers success, and the session that was found was not locked,
  -- or it was a graphical session of the own user for which the unlock command succeeded and which
  -- logind, read again after that command, called unlocked.
  pub unlock_session-IsConfirmed :
      (id : Option Text) (s : S) {r : UnlockResult} {t : S}
      → unlock_session l id s ≡ (ok r, t)
      → IsConfirmed id s r
  unfolding unlock_session
  unlock_session-IsConfirmed id s {r} {t} h =
      let (target, s1, e, h1) = >>=-returned (find_unlock_target l id) _ s h in
      elim (Bool-cases target.locked) [
        | inl locked ↦
            let (unlocked, was_locked, done) = confirm_seen target s1 (rw locked at h1) in
            was_closed target s1 e locked (find_unlock_target-IsTarget l id s e) done was_locked
              unlocked
        | inr free ↦
            let made = (returned-injective (rw free at h1)).0 in
            subst (IsConfirmed id s) made (was_open s1 e free refl refl)
      ]
