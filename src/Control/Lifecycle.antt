-- ===== src/Control/Lifecycle.antt =====
-- pc-service/src/wol_unlock/control/server.py: the socket file, and the start and stop of a server.
use pc_helper_ios.Prelude.{
  ℕ, ◌≡◌, refl, subst, inl, inr, Bool, true, false, Option, none, some, arith, ltb, ◌==◌,
  if◌then◌else◌, Bool-cases,
}
use pc_helper_ios.Errors.{Exc, Result, ok, err, runtime_error}
use pc_helper_ios.Action
use pc_helper_ios.Action.{Action, lift, ◌>>◌, >>=-returned, returned-injective}

-- The socket at the path is that of the server with this number, if there is a file; a connection
-- succeeds while that server listens.
pub record Sockets : Type 0 where
  pub entry : Option ℕ
  pub listening : ℕ → Bool

abbrev pub set : ℕ → Bool → (ℕ → Bool) → ℕ → Bool
set n b f k = if k == n then b else f k

abbrev pub max_socket_path : ℕ
max_socket_path = 107

abbrev unlink : Sockets → Sockets
unlink s = record s { entry = none }

-- the probe of a socket file that is there
abbrev probed : (answers : Bool) → Action Sockets (Unit {0})
probed true s = (err runtime_error, s)
probed false s = (ok tt, unlink s)

abbrev unlink_entry : Option ℕ → Action Sockets (Unit {0})
unlink_entry none s = (ok tt, s)
unlink_entry (some n) s = probed (s.listening n) s

-- `_unlink_stale`
unfoldable pub unlink_stale : Action Sockets (Unit {0})
unlink_stale s = unlink_entry s.entry s

-- the socket of server `n`, once `start_unix_server` has bound it
abbrev pub bound : ℕ → Sockets → Sockets
bound n s = record { entry = some n; listening = set n true s.listening }

abbrev bind_socket : ℕ → Result (Unit {0}) → Action Sockets (Unit {0})
bind_socket n (err x) s = (err x, s)
bind_socket n (ok done) s = (ok done, bound n s)

-- `start` of server `n`, at a path of this many bytes; `bind` is how `start_unix_server` ends. The
-- directory and the mode of the file are left out.
unfoldable pub start : (n path_bytes : ℕ) → (bind : Result (Unit {0})) → Action Sockets (Unit {0})
unfolding unlink_stale
start n path_bytes bind =
    if ltb max_socket_path path_bytes
    then lift (err runtime_error)
    else (do unlink_stale; bind_socket n bind)

-- `stop`, where `started` is whether the server was made; the file goes either way
unfoldable pub stop : (n : ℕ) → (started : Bool) → Sockets → Sockets
stop n started s = record {
  entry = none;
  listening = if started then set n false s.listening else s.listening;
}

-- whether a client that connects to the path is answered
abbrev reaches : Option ℕ → (ℕ → Bool) → Bool
reaches none listening = false
reaches (some n) listening = listening n

abbrev pub is_reachable : Sockets → Bool
is_reachable s = reaches s.entry s.listening

unlink_stale-listening : (s : Sockets) → (unlink_stale s).1.listening ≡ s.listening
unfolding unlink_stale
unlink_stale-listening s = go s.entry
  where
    probe : (b : Bool) → (probed b s).1.listening ≡ s.listening
    probe true = refl
    probe false = refl

    go : (o : Option ℕ) → (unlink_entry o s).1.listening ≡ s.listening
    go none = refl
    go (some n) = probe (s.listening n)

-- A start that raised has left every server as it was.
pub start_failed-listening :
    (n path_bytes : ℕ) (bind : Result (Unit {0})) (s t : Sockets) {x : Exc}
    → start n path_bytes bind s ≡ (err x, t)
    → t.listening ≡ s.listening
unfolding start
start_failed-listening n path_bytes bind s t {x} h =
    elim (Bool-cases (ltb max_socket_path path_bytes)) [
      | inl long ↦ cc (rw long at h)
      | inr fits ↦ unlinked (unlink_stale s) (unlink_stale-listening s) (rw fits at h)
    ]
  where
    unlinked :
        (r : Result (Unit {0}) × Sockets)
        → r.1.listening ≡ s.listening
        → Action.continue r (λ _. bind_socket n bind) ≡ (err x, t)
        → t.listening ≡ s.listening
    unlinked (err y, v) e k = cc
    unlinked (ok done, v) e k = bound_or_not bind e k
      where
        bound_or_not :
            (b : Result (Unit {0}))
            → v.listening ≡ s.listening
            → bind_socket n b v ≡ (err x, t)
            → t.listening ≡ s.listening
        bound_or_not (err y) e k = cc
        bound_or_not (ok done) e k = cc

-- A start at a path where a server answers raises, and leaves that server's socket as it is.
pub start-taken :
    (n path_bytes : ℕ) (bind : Result (Unit {0})) (s : Sockets)
    → is_reachable s ≡ true
    → start n path_bytes bind s ≡ (err runtime_error, s)
unfolding start unlink_stale
start-taken n path_bytes bind s h = go s.entry refl h
  where
    go :
        (o : Option ℕ)
        → s.entry ≡ o
        → reaches o s.listening ≡ true
        → start n path_bytes bind s ≡ (err runtime_error, s)
    go none e k = cc
    go (some m) e k = rw e (elim (Bool-cases (ltb max_socket_path path_bytes)) [
      | inl long ↦ rw long refl
      | inr fits ↦ rw (fits, k) refl
    ])

-- A start that returned has a socket by which the server is reached.
pub start-is_reachable :
    (n path_bytes : ℕ) (bind : Result (Unit {0})) (s t : Sockets)
    → start n path_bytes bind s ≡ (ok tt, t)
    → is_reachable t ≡ true
unfolding start unlink_stale
start-is_reachable n path_bytes bind s t h = elim (Bool-cases (ltb max_socket_path path_bytes)) [
  | inl long ↦ cc (rw long at h)
  | inr fits ↦
      let (done, s1, _, h1) =
        >>=-returned (unlink_stale) (λ _. bind_socket n bind) s (rw fits at h) in
      bound_reachable bind s1 h1
]
  where
    bound_reachable :
        (b : Result (Unit {0})) (v : Sockets)
        → bind_socket n b v ≡ (ok tt, t)
        → is_reachable t ≡ true
    bound_reachable (err x) v k = cc
    bound_reachable (ok done) v k =
        subst (λ (w : Sockets). is_reachable w ≡ true) (returned-injective k).1 (ground arith)

-- If a server answers at the path, then a second one that is started there, and stopped because
-- its start raised, removes the file: the first server still listens, and nobody reaches it.
pub stop_after_failed_start :
    (n m path_bytes : ℕ) (bind : Result (Unit {0})) (s : Sockets)
    → s.entry ≡ some n
    → s.listening n ≡ true
    → let t = stop m false (start m path_bytes bind s).1 in
      (t.listening n ≡ true) × (is_reachable t ≡ false)
unfolding stop
stop_after_failed_start n m path_bytes bind s e h =
    let same = start-taken m path_bytes bind s (rw e h) in (rw same h, refl)
