-- ===== src/Session/Target.antt =====
-- pc-service/src/wol_unlock/session.py: which session is unlocked.
use pc_helper_ios.Prelude.{
  ℕ, ◌≡◌, subst, inl, inr, Bool, true, false, ◌&&◌, ◌||◌, Option, none, some, List, [], ◌∷◌, ltb,
  leb, ◌==◌, if◌then◌else◌, Bool-cases, keep, all, sort_by, All, All-if, All-sort_by, Text, codes,
  text_eq,
}
use pc_helper_ios.Errors.{Result, ok, err, api, bad_request, no_session}
use pc_helper_ios.Action.{
  Action, pure, fail, require, ◌>>=◌, ◌>>◌, >>=-returned, returned-injective, require_then,
}
use pc_helper_ios.Unicode.{is_digits}
use pc_helper_ios.Session.{SessionInfo, Logind, is_session_id, is_graphical, describe_session}

abbrev is_uid : ℕ → Option ℕ → Bool
is_uid own none = false
is_uid own (some uid) = uid == own

abbrev is_user_class : Text → Bool
is_user_class [] = true
is_user_class (c ∷ s) = text_eq (c ∷ s) (codes "user")

-- the order of the pairs of numbers, and of the sort keys
unfoldable pub rank_le : ℕ × ℕ × ℕ → ℕ × ℕ × ℕ → Bool
rank_le (a, b, c) (a', b', c') = ltb a a' || a == a' && (ltb b b' || b == b' && leb c c')

module _ {S : Type 0} (l : Logind S) where
  abbrev own_session : Option SessionInfo → List SessionInfo → List SessionInfo
  own_session none rest = rest
  own_session (some info) rest = if is_uid l.uid info.uid then info ∷ rest else rest

  unfoldable pub describe_own : List (Text × Option ℕ × Text) → Action S (List SessionInfo)
  unfolding describe_session
  describe_own [] = pure []
  describe_own ((id, uid, klass) ∷ rows) =
      if is_uid l.uid uid && is_user_class klass
      then (do info ← describe_session l id; rest ← describe_own rows; pure (own_session info rest))
      else describe_own rows

  unfoldable pub list_own_sessions : Action S (List SessionInfo)
  unfolding describe_own
  list_own_sessions = do rows ← l.session_ids; describe_own rows

  -- `int(session.id) if session.id.isdigit() else 1_000_000`; digits that `int` refuses, a
  -- ValueError in Python, rank last here
  abbrev numeric_or : Option ℕ → ℕ
  numeric_or none = 1000000
  numeric_or (some n) = n

  unfoldable pub rank : SessionInfo → ℕ × ℕ × ℕ
  unfolding is_digits
  rank s = (
    (if s.locked then 0 else 1),
    (if s.active then 0 else 1),
    (if is_digits l.unicode s.id then numeric_or (l.int s.id) else 1000000),
  )

  abbrev first_of : List SessionInfo → Action S SessionInfo
  first_of [] = fail no_session
  first_of (s ∷ rest) = pure s

  abbrev checked : Option SessionInfo → Action S SessionInfo
  checked none = fail no_session
  checked (some info) = do
    require (is_uid l.uid info.uid) no_session
    require (is_graphical info) no_session
    pure info

  unfoldable pub find_unlock_target : Option Text → Action S SessionInfo
  unfolding describe_session list_own_sessions rank rank_le sort_by is_graphical is_session_id
  find_unlock_target (some id) = do
    require (is_session_id id) bad_request
    info ← describe_session l id
    checked info
  find_unlock_target none = do
    own ← list_own_sessions
    first_of (sort_by (λ s t. rank_le (rank s) (rank t)) (keep is_graphical own))

  -- `current_session`: an ApiError is no session
  abbrev without_error : Result SessionInfo × S → Result (Option SessionInfo) × S
  without_error (ok info, s) = (ok (some info), s)
  without_error (err (api e), s) = (ok none, s)
  without_error (err x, s) = (err x, s)

  unfoldable pub current_session : Action S (Option SessionInfo)
  unfolding find_unlock_target
  current_session s = without_error (find_unlock_target none s)

  -- a graphical session of the service's own user
  abbrev pub IsTarget : SessionInfo → Type 0
  IsTarget s = (is_uid l.uid s.uid ≡ true) × (is_graphical s ≡ true)

  abbrev IsOwn : SessionInfo → Type 0
  IsOwn s = is_uid l.uid s.uid ≡ true

  own_session-IsOwn :
      (info : Option SessionInfo) (rest : List SessionInfo)
      → All IsOwn rest
      → All IsOwn (own_session info rest)
  own_session-IsOwn none rest h = h
  own_session-IsOwn (some info) rest h =
      All-if IsOwn (is_uid l.uid info.uid) (info ∷ rest) rest (λ own. (own, h)) (λ e. h)

  describe_own-IsOwn :
      (rows : List (Text × Option ℕ × Text)) (s : S) {found : List SessionInfo} {t : S}
      → describe_own rows s ≡ (ok found, t)
      → All IsOwn found
  unfolding describe_own
  describe_own-IsOwn [] s h = subst (All IsOwn) (returned-injective h).0 tt
  describe_own-IsOwn ((id, uid, klass) ∷ rows) s h =
      elim (Bool-cases (is_uid l.uid uid && is_user_class klass)) [
        | inl listed ↦
            let (info, s1, _, h1) = >>=-returned (describe_session l id) _ s (rw listed at h) in
            let (rest, s2, e, h2) = >>=-returned (describe_own rows) _ s1 h1 in
            subst (All IsOwn) (returned-injective h2).0
              (own_session-IsOwn info rest (describe_own-IsOwn rows s1 e))
        | inr skipped ↦ describe_own-IsOwn rows s (rw skipped at h)
      ]

  IsTarget-keep : (ss : List SessionInfo) → All IsOwn ss → All IsTarget (keep is_graphical ss)
  IsTarget-keep [] h = tt
  IsTarget-keep (s ∷ ss) (own, h) =
      let ih = IsTarget-keep ss h in
      All-if IsTarget (is_graphical s) (s ∷ keep is_graphical ss) (keep is_graphical ss)
        (λ e. ((own, e), ih)) (λ e. ih)

  first_of-IsTarget :
      (ss : List SessionInfo) (s : S) {found : SessionInfo} {t : S}
      → All IsTarget ss
      → first_of ss s ≡ (ok found, t)
      → IsTarget found
  first_of-IsTarget [] s all h = cc
  first_of-IsTarget (x ∷ ss) s all h = subst IsTarget (returned-injective h).0 all.0

  checked-IsTarget :
      (info : Option SessionInfo) (s : S) {found : SessionInfo} {t : S}
      → checked info s ≡ (ok found, t)
      → IsTarget found
  checked-IsTarget none s h = cc
  checked-IsTarget (some info) s h =
      let (own, h1) = require_then (is_uid l.uid info.uid) no_session _ s h in
      let (graphical, h2) = require_then (is_graphical info) no_session _ s h1 in
      subst IsTarget (returned-injective h2).0 (own, graphical)

  -- A session that is found for unlocking, with or without an id in the request, is graphical and
  -- belongs to the user that the service runs as.
  pub find_unlock_target-IsTarget :
      (id : Option Text) (s : S) {found : SessionInfo} {t : S}
      → find_unlock_target id s ≡ (ok found, t)
      → IsTarget found
  unfolding find_unlock_target list_own_sessions
  find_unlock_target-IsTarget (some id) s h =
      let (valid, h1) = require_then (is_session_id id) bad_request _ s h in
      let (info, s1, _, h2) = >>=-returned (describe_session l id) _ s h1 in
      checked-IsTarget info s1 h2
  find_unlock_target-IsTarget none s h =
      let (own, s1, e, h1) = >>=-returned list_own_sessions _ s h in
      let (rows, s2, _, e1) = >>=-returned l.session_ids _ s e in
      first_of-IsTarget _ s1
        (All-sort_by IsTarget _ (keep is_graphical own)
          (IsTarget-keep own (describe_own-IsOwn rows s2 e1)))
        h1
