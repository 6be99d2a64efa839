-- ===== src/Service/Owned.antt =====
-- What runs is known to the service that has to stop it.
use pc_helper_ios.Prelude.{ℕ, ◌≡◌, refl, ap, ◌⊎◌, inl, inr, Bool, true, false, Bool-cases}
use pc_helper_ios.Errors.{Result, ok, err}
use pc_helper_ios.Action.{Action, ◌>>◌, lift}
use pc_helper_ios.Store.{close_store}
use pc_helper_ios.Store.Statements.{Tables}
use pc_helper_ios.Pairing.Manager.{System, is_idle}
use pc_helper_ios.Control.Lifecycle
use pc_helper_ios.Control.Lifecycle.{start_failed-listening, Sockets}
use pc_helper_ios.Service.{
  Service, Startup, service, open_stage, control_stage, control_started, http_stage, mdns_stage,
  sweeper_stage, count_stage, start,
}
use pc_helper_ios.Service.Stages.{Keeps, >>-Keeps, rest, rest-Keeps}
use pc_helper_ios.Service.Ready.{IsReady}

-- What runs is known to the service: a store that is open, a window, a socket, a runner; but not the
-- runner of a site that could not listen.
pub record IsOwned (listened : Bool) (s : Service) : Type 0 where
  pub opened : (s.parts.store ≡ true) ⊎ (s.parts.context ≡ false)
  pub set_up :
      ((s.parts.http ≡ true) × (s.parts.runner ≡ true))
      ⊎ ((s.parts.set_up ≡ false) ⊎ (listened ≡ false))
  pub store : (s.parts.store ≡ true) ⊎ (s.system.store.connected ≡ false)
  pub window : (s.parts.context ≡ true) ⊎ (is_idle s.system.manager.state ≡ true)
  pub control : (s.parts.control ≡ true) ⊎ (s.parts.server ≡ false)
  pub socket : (s.parts.server ≡ true) ⊎ (s.sockets.listening s.number ≡ false)
  pub runner : (s.parts.http ≡ true) ⊎ (s.parts.runner ≡ false)

pub service-IsOwned :
    (b : Bool) (n : ℕ) (t : Tables) (s : Sockets)
    → s.listening n ≡ false
    → IsOwned b (service n t s)
unfolding close_store
service-IsOwned b n t s h = record {
  opened = inr refl;
  set_up = inr (inl refl);
  store = inr refl;
  window = inr refl;
  control = inr refl;
  socket = inr h;
  runner = inr refl;
}

abbrev KeepsOwned : Bool → Action Service (Unit {0}) → Type 0
KeepsOwned b = Keeps (IsOwned b)

lift-KeepsOwned : (b : Bool) (r : Result (Unit {0})) → KeepsOwned b (lift r)
lift-KeepsOwned b r s o = o

open-KeepsOwned : (b : Bool) (r : Result (Unit {0})) → KeepsOwned b (open_stage r)
open-KeepsOwned b (err x) s o = o
open-KeepsOwned b (ok done) s o = record {
  opened = inl refl;
  set_up = o.set_up;
  store = inl refl;
  window = inl refl;
  control = o.control;
  socket = o.socket;
  runner = o.runner;
}

abbrev pub is_ok : Result (Unit {0}) → Bool
is_ok (ok done) = true
is_ok (err x) = false

http-KeepsOwned : (q r : Result (Unit {0})) → KeepsOwned (is_ok r) (http_stage q r)
http-KeepsOwned (err x) r s o = record {
  opened = o.opened;
  set_up = elim o.set_up [ inl (served, kept) ↦ inl (refl, kept) | inr other ↦ inr other ];
  store = o.store;
  window = o.window;
  control = o.control;
  socket = o.socket;
  runner = inl refl;
}
http-KeepsOwned (ok done) (err x) s o = record {
  opened = o.opened;
  set_up = inr (inr refl);
  store = o.store;
  window = o.window;
  control = o.control;
  socket = o.socket;
  runner = inl refl;
}
http-KeepsOwned (ok done) (ok listening) s o = record {
  opened = o.opened;
  set_up = inl (refl, refl);
  store = o.store;
  window = o.window;
  control = o.control;
  socket = o.socket;
  runner = inl refl;
}

control-KeepsOwned :
    (b : Bool) (path_bytes : ℕ) (bind : Result (Unit {0}))
    → KeepsOwned b (control_stage path_bytes bind)
control-KeepsOwned b path_bytes bind s o =
    go (Lifecycle.start s.number path_bytes bind s.sockets) refl
  where
    go :
        (r : Result (Unit {0}) × Sockets)
        → Lifecycle.start s.number path_bytes bind s.sockets ≡ r
        → IsOwned b (control_started s r).1
    go (ok done, t) e = record {
      opened = o.opened;
      set_up = o.set_up;
      store = o.store;
      window = o.window;
      control = inl refl;
      socket = inl refl;
      runner = o.runner;
    }
    go (err x, t) e = record {
      opened = o.opened;
      set_up = o.set_up;
      store = o.store;
      window = o.window;
      control = inl refl;
      socket =
          rw (ap (λ f. f s.number) (start_failed-listening s.number path_bytes bind s.sockets t e))
            o.socket;
      runner = o.runner;
    }

mdns-KeepsOwned : (l b c : Bool) (r : Result (Unit {0})) → KeepsOwned l (mdns_stage b c r)
mdns-KeepsOwned l false c r s o = o
mdns-KeepsOwned l true false r s o = record {
  opened = o.opened;
  set_up = o.set_up;
  store = o.store;
  window = o.window;
  control = o.control;
  socket = o.socket;
  runner = o.runner;
}
mdns-KeepsOwned l true true (ok done) s o = record {
  opened = o.opened;
  set_up = o.set_up;
  store = o.store;
  window = o.window;
  control = o.control;
  socket = o.socket;
  runner = o.runner;
}
mdns-KeepsOwned l true true (err x) s o = record {
  opened = o.opened;
  set_up = o.set_up;
  store = o.store;
  window = o.window;
  control = o.control;
  socket = o.socket;
  runner = o.runner;
}

sweeper-KeepsOwned : (b : Bool) → KeepsOwned b sweeper_stage
sweeper-KeepsOwned b s o = record {
  opened = o.opened;
  set_up = o.set_up;
  store = o.store;
  window = o.window;
  control = o.control;
  socket = o.socket;
  runner = o.runner;
}

count-KeepsOwned : (b : Bool) → KeepsOwned b count_stage
count-KeepsOwned b s o = elim (Bool-cases s.system.store.connected) [
  | inl up ↦ rw up (record {
    opened = o.opened;
    set_up = o.set_up;
    store = elim o.store [ inl known ↦ inl known | inr down ↦ cc ];
    window = o.window;
    control = o.control;
    socket = o.socket;
    runner = o.runner;
  })
  | inr down ↦ rw down (record {
    opened = o.opened;
    set_up = o.set_up;
    store = inr refl;
    window = o.window;
    control = o.control;
    socket = o.socket;
    runner = o.runner;
  })
]

rest-KeepsOwned : (o : Startup) → KeepsOwned (is_ok o.listen) (rest o)
rest-KeepsOwned o =
    let b = is_ok o.listen in
    rest-Keeps (IsOwned b) o (control-KeepsOwned b o.path_bytes o.bind)
      (http-KeepsOwned o.setup o.listen)
      (mdns-KeepsOwned b o.mdns_enabled o.has_addresses o.register) (sweeper-KeepsOwned b)
      (count-KeepsOwned b)

pub start-KeepsOwned : (o : Startup) → KeepsOwned (is_ok o.listen) (start o)
unfolding start
start-KeepsOwned o =
    let b = is_ok o.listen in
    >>-Keeps (IsOwned b) (lift o.identity) (open_stage o.database >> rest o)
      (lift-KeepsOwned b o.identity)
      (>>-Keeps (IsOwned b) (open_stage o.database) (rest o) (open-KeepsOwned b o.database)
        (rest-KeepsOwned o))

pub served-IsOwned :
    (b : Bool) (serving : System → System) (s : Service)
    → IsReady s
    → IsOwned b s
    → IsOwned b (record s { system = serving s.system })
served-IsOwned b serving s (open_store, context) o = record {
  opened = inl open_store;
  set_up = o.set_up;
  store = inl open_store;
  window = inl context;
  control = o.control;
  socket = o.socket;
  runner = o.runner;
}
