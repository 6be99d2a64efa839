-- ===== src/Service/Stopped.antt =====
-- What is left of a service that was stopped.
use pc_helper_ios.Prelude.{ℕ, ◌≡◌, refl, subst, ◌⊎◌, inl, inr, Bool, true, false, arith, Bool-cases}
use pc_helper_ios.Errors.{Result, ok, err}
use pc_helper_ios.Store.{close_store}
use pc_helper_ios.Store.Statements.{Tables}
use pc_helper_ios.Pairing.Manager.{System, is_idle, close}
use pc_helper_ios.Pairing.Submit.{shut_down}
use pc_helper_ios.Control.Lifecycle
use pc_helper_ios.Control.Lifecycle.{start_failed-listening, Sockets}
use pc_helper_ios.Service.{
  Service, Startup, Stopping, settled, when, closed_if, service, start, stop, ended, run,
}
use pc_helper_ios.Service.Ready.{start-IsReady}
use pc_helper_ios.Service.Owned.{IsOwned, is_ok, service-IsOwned, start-KeepsOwned, served-IsOwned}

-- The store is closed, no window is open, and neither the sockets nor the sweep are left; nor is the
-- HTTP runner, if the site could listen.
pub record IsStopped (listened : Bool) (s : Service) : Type 0 where
  pub store : s.system.store.connected ≡ false
  pub window : is_idle s.system.manager.state ≡ true
  pub socket : s.sockets.listening s.number ≡ false
  pub runner : s.parts.runner ≡ false
  pub set_up : (s.parts.set_up ≡ false) ⊎ (listened ≡ false)
  pub sweeper : s.parts.sweeper ≡ false

abbrev pub exit_code : Result (Unit {0}) → ℕ
exit_code (ok done) = 0
exit_code (err x) = 1

pub shut_down-is_idle : (s : System) → is_idle (shut_down s).manager.state ≡ true
unfolding shut_down close
shut_down-is_idle s = elim (Bool-cases (is_idle s.manager.state)) [
  | inl quiet ↦ rw quiet quiet
  | inr busy ↦ rw busy refl
]

-- a stop whose cleanup does not raise
abbrev pub cleanly : (meanwhile : System → System) → Stopping
cleanly meanwhile = record { cleanup = ok tt; meanwhile = meanwhile }

-- an idle manager is idle after what is served
abbrev pub IsQuiet : (System → System) → Type 0
IsQuiet f = (t : System) → is_idle t.manager.state ≡ true → is_idle (f t).manager.state ≡ true

when-is_idle :
    (b : Bool) (x : Stopping) (s : System)
    → IsQuiet x.meanwhile
    → (b ≡ true) ⊎ (is_idle s.manager.state ≡ true)
    → is_idle (when b (settled x) s).manager.state ≡ true
when-is_idle true x s quiet h = quiet (shut_down s) (shut_down-is_idle s)
when-is_idle false x s quiet (inl h) = cc
when-is_idle false x s quiet (inr h) = h

closed_if-manager : (b : Bool) (s : System) → (closed_if b s).manager ≡ s.manager
closed_if-manager true s = refl
closed_if-manager false s = refl

store_closed :
    (store context : Bool) (f : System → System) (s : System)
    → (store ≡ true) ⊎ (context ≡ false)
    → (store ≡ true) ⊎ (s.store.connected ≡ false)
    → (closed_if store (when context f s)).store.connected ≡ false
unfolding close_store
store_closed true context f s h k = refl
store_closed false true f s (inl h) k = cc
store_closed false true f s (inr h) k = cc
store_closed false false f s h (inl k) = cc
store_closed false false f s h (inr k) = k

socket_closed :
    (control server : Bool) (n : ℕ) (s : Sockets)
    → (control ≡ true) ⊎ (server ≡ false)
    → (server ≡ true) ⊎ (s.listening n ≡ false)
    → (when control (Lifecycle.stop n server) s).listening n ≡ false
unfolding Lifecycle.stop
socket_closed control server n s h k = ground arith

abbrev Kept : (listened : Bool) → Service → Type 0
Kept listened s =
    ((s.parts.http ≡ true) × (s.parts.runner ≡ true))
    ⊎ ((s.parts.set_up ≡ false) ⊎ (listened ≡ false))

cleaned_up :
    (listened : Bool) (meanwhile : System → System) (s : Service)
    → Kept listened s
    → ((stop (cleanly meanwhile) s).parts.set_up ≡ false) ⊎ (listened ≡ false)
unfolding stop
cleaned_up listened meanwhile s (inl (served, kept)) = inl (rw (served, kept) refl)
cleaned_up listened meanwhile s (inr (inl none_left)) = inl (ground (arith, none_left))
cleaned_up listened meanwhile s (inr (inr refused)) = inr refused

stop-IsStopped :
    (b : Bool) (meanwhile : System → System) (s : Service)
    → IsQuiet meanwhile
    → IsOwned b s
    → IsStopped b (stop (cleanly meanwhile) s)
unfolding stop
stop-IsStopped b meanwhile s quiet o =
    let x : Stopping = cleanly meanwhile in
    record {
      store = store_closed s.parts.store s.parts.context (settled x) s.system o.opened o.store;
      window =
          rw (closed_if-manager s.parts.store (when s.parts.context (settled x) s.system))
            (when-is_idle s.parts.context x s.system quiet o.window);
      socket = socket_closed s.parts.control s.parts.server s.number s.sockets o.control o.socket;
      runner = ground (arith, o.runner);
      set_up = cleaned_up b meanwhile s o.set_up;
      sweeper = refl;
    }

-- If what the control socket still serves while the components stop leaves an idle manager idle, and
-- the cleanup of an HTTP runner does not raise, then a service that was started where its number had
-- no socket, and that ended, be it because a stage of the start raised or because it was asked to
-- stop after any pairing and store operations, has its store closed, no window open, its control
-- socket closed, no HTTP runner that it knows of and no sweep left; and no runner was left set up,
-- if the site could listen. Its exit code is 0 if the start returned, and else 1.
pub run-IsStopped :
    (o : Startup) (serving meanwhile : System → System) (n : ℕ) (t : Tables) (s : Sockets)
    → s.listening n ≡ false
    → IsQuiet meanwhile
    → IsStopped (is_ok o.listen) (run o serving (cleanly meanwhile) (service n t s)).1
      × ((run o serving (cleanly meanwhile) (service n t s)).0
          ≡ exit_code (start o (service n t s)).0)
unfolding run
run-IsStopped o serving meanwhile n t s h quiet = go (start o (service n t s)) refl
  where
    b : Bool
    b = is_ok o.listen

    x : Stopping
    x = cleanly meanwhile

    owned : IsOwned b (start o (service n t s)).1
    owned = start-KeepsOwned o (service n t s) (service-IsOwned b n t s h)

    go :
        (r : Result (Unit {0}) × Service)
        → start o (service n t s) ≡ r
        → IsStopped b (ended serving x r).1 × ((ended serving x r).0 ≡ exit_code r.0)
    go (err y, v) e = (
      stop-IsStopped b meanwhile v quiet
          (subst (λ (r : Result (Unit {0}) × Service). IsOwned b r.1) e owned),
      refl,
    )
    go (ok done, v) e = (
      stop-IsStopped b meanwhile _ quiet (
          served-IsOwned b serving v (start-IsReady o _ v e)
            (subst (λ (r : Result (Unit {0}) × Service). IsOwned b r.1) e owned)),
      refl,
    )
