-- ===== src/Service.antt =====
-- pc-service/src/wol_unlock/service.py: the start and stop of the service, and the sweep;
-- __main__.py: the run of it, with its exit code. How the calls of libraries end is a parameter.
pub mod Stages
pub mod Ready
pub mod Owned
pub mod Stopped
pub mod Reopened
pub mod Sweep
pub mod Main
use pc_helper_ios.Prelude.{
  ℕ, zero, suc, ◌+◌, ◌-◌, ◌*◌, ◌/◌, ◌%◌, ◌^◌, ◌≤◌, ◌<◌, min, max, String, ◌≡◌, refl, sym, ap, ◌∙◌,
  subst, fun_ext, ◌≢◌, ◌↔◌, ◌⊎◌, inl, inr, Bool, true, false, ◌&&◌, ◌||◌, not, Option, none, some,
  List, [], ◌∷◌, ◌++◌, map, reverse, arith, ltb, leb, ◌==◌, if◌then◌else◌, ltb→lt, lt→ltb, leb→le,
  le→leb, ==_iff, Bool-cases, Option-cases, is_some, length, take, drop, keep, any, all, find,
  length-append, length-keep-le, length-drop, insert_by, sort_by, length-sort_by, All, All-append,
  All-keep, Text, codes, text_eq, text_eq_refl, text_eq_iff,
}
use pc_helper_ios.Errors.{Result, ok, err}
use pc_helper_ios.Action.{Action, pure, lift, ◌>>=◌, ◌>>◌}
use pc_helper_ios.Store.{Store, open_store, close_store, call}
use pc_helper_ios.Store.Statements.{Tables, list_devices, sweep_nonces, prune_audit}
use pc_helper_ios.Pairing.Manager
use pc_helper_ios.Pairing.Manager.{System}
use pc_helper_ios.Pairing.Submit.{shut_down}
use pc_helper_ios.Control.Lifecycle
use pc_helper_ios.Control.Lifecycle.{Sockets}

-- Which fields of the service, and of its components, are not None: `server` is `_server` of the
-- control server, `runner` that of the HTTP server, `zeroconf` is `_zc` of the advertiser. `set_up`
-- is whether there is an `AppRunner` that was set up and not cleaned up, known or not.
pub record Parts : Type 0 where
  pub store : Bool
  pub context : Bool
  pub control : Bool
  pub server : Bool
  pub http : Bool
  pub runner : Bool
  pub set_up : Bool
  pub advertiser : Bool
  pub zeroconf : Bool
  pub sweeper : Bool

pub record Service : Type 0 where
  pub number : ℕ
  pub parts : Parts
  pub system : System
  pub sockets : Sockets

-- how the calls of the start end
pub record Startup : Type 0 where
  pub identity : Result (Unit {0})
  pub database : Result (Unit {0})
  pub path_bytes : ℕ
  pub bind : Result (Unit {0})
  pub setup : Result (Unit {0})
  pub listen : Result (Unit {0})
  pub mdns_enabled : Bool
  pub has_addresses : Bool
  pub register : Result (Unit {0})

abbrev pub no_parts : Parts
no_parts = record {
  store = false;
  context = false;
  control = false;
  server = false;
  http = false;
  runner = false;
  set_up = false;
  advertiser = false;
  zeroconf = false;
  sweeper = false;
}

-- `Service(config)`, before the store's file is opened
abbrev pub service : ℕ → Tables → Sockets → Service
service number tables sockets = record {
  number = number;
  parts = no_parts;
  system = Manager.start (close_store (open_store tables));
  sockets = sockets;
}

abbrev Stage : Type 0
Stage = Action Service (Unit {0})

-- `Store.open`, then the pairing manager and the context
abbrev pub open_stage : Result (Unit {0}) → Stage
open_stage (err x) s = (err x, s)
open_stage (ok done) s = (
  ok tt,
  record s {
    parts = record s.parts { store = true; context = true };
    system = Manager.start (open_store s.system.store.tables);
  },
)

abbrev control_started : Service → Result (Unit {0}) × Sockets → Result (Unit {0}) × Service
control_started s (err x, sockets) =
    (err x, record s { parts = record s.parts { control = true }; sockets = sockets })
control_started s (ok done, sockets) = (
  ok tt,
  record s { parts = record s.parts { control = true; server = true }; sockets = sockets },
)

abbrev pub control_stage : ℕ → Result (Unit {0}) → Stage
control_stage path_bytes bind s =
    control_started s (Lifecycle.start s.number path_bytes bind s.sockets)

-- `HttpServer.start`: the runner is set up, and kept in `_runner` only once the site listens
abbrev pub http_stage : (setup listen : Result (Unit {0})) → Stage
http_stage (err x) listen s = (err x, record s { parts = record s.parts { http = true } })
http_stage (ok done) (err x) s =
    (err x, record s { parts = record s.parts { http = true; set_up = true } })
http_stage (ok done) (ok listening) s =
    (ok tt, record s { parts = record s.parts { http = true; runner = true; set_up = true } })

-- An advertiser whose start raises is given up, with its `_zc`.
abbrev advertised : (has_addresses : Bool) → Result (Unit {0}) → Parts → Parts
advertised false r p = record p { advertiser = true }
advertised true (ok done) p = record p { advertiser = true; zeroconf = true }
advertised true (err x) p = record p { zeroconf = true }

abbrev pub mdns_stage : (mdns_enabled has_addresses : Bool) → Result (Unit {0}) → Stage
mdns_stage false a r s = (ok tt, s)
mdns_stage true a r s = (ok tt, record s { parts = advertised a r s.parts })

abbrev pub sweeper_stage : Stage
sweeper_stage s = (ok tt, record s { parts = record s.parts { sweeper = true } })

-- the count of devices for the log
abbrev counted : {A : Type 0} → Service → Result A × Store → Result (Unit {0}) × Service
counted s (err x, t) = (err x, record s { system = record s.system { store = t } })
counted s (ok ds, t) = (ok tt, record s { system = record s.system { store = t } })

abbrev pub count_stage : Stage
count_stage s = counted s (call (λ t. (ok (list_devices false t), t)) s.system.store)

unfoldable pub start : Startup → Stage
start o = do
  lift o.identity
  open_stage o.database
  control_stage o.path_bytes o.bind
  http_stage o.setup o.listen
  mdns_stage o.mdns_enabled o.has_addresses o.register
  sweeper_stage
  count_stage

abbrev pub when {ℓ} : {A : Type ℓ} → Bool → (A → A) → A → A
when b f a = if b then f a else a

abbrev pub closed_if : Bool → System → System
closed_if b t = when b (λ (x : System). record x { store = close_store x.store }) t

-- What happens while the components stop: how `AppRunner.cleanup` ends, and what the commands that
-- the control socket still serves between the shutdown of the pairing and the end of the store do
-- to both.
pub record Stopping : Type 0 where
  pub cleanup : Result (Unit {0})
  pub meanwhile : System → System

-- whether the runner is gone: it was kept, and its cleanup did not raise
abbrev pub cleaned : Result (Unit {0}) → Parts → Bool
cleaned (err x) p = false
cleaned (ok done) p = p.http && p.runner

abbrev pub settled : Stopping → System → System
settled x t = x.meanwhile (shut_down t)

-- Each component that is there is stopped, whatever the others do. The stop of the control server
-- can raise only at the end of it, when it removes the file.
unfoldable pub stop : Stopping → Service → Service
stop x s =
    let p = s.parts in
    record s {
      parts = record p {
        store = false;
        control = false;
        server = if p.control then false else p.server;
        http = false;
        runner = if cleaned x.cleanup p then false else p.runner;
        set_up = if cleaned x.cleanup p then false else p.set_up;
        advertiser = false;
        zeroconf = if p.advertiser then false else p.zeroconf;
        sweeper = false;
      };
      system = closed_if p.store (when p.context (settled x) s.system);
      sockets = when p.control (Lifecycle.stop s.number p.server) s.sockets;
    }

-- `_run`: a start that raised is stopped, with exit code 1; else the service runs, `serving`, until
-- it is asked to stop. `serving` is what that does to the pairing and the store.
abbrev pub ended : (System → System) → Stopping → Result (Unit {0}) × Service → ℕ × Service
ended serving x (err e, s) = (1, stop x s)
ended serving x (ok done, s) = (0, stop x (record s { system = serving s.system }))

unfoldable pub run : Startup → (serving : System → System) → Stopping → Service → ℕ × Service
unfolding start stop
run o serving x s = ended serving x (start o s)
