-- ===== src/Service/Stages.antt =====
-- The stages of a start, and what they all keep.
use pc_helper_ios.Errors.{Result, ok, err}
use pc_helper_ios.Action
use pc_helper_ios.Action.{Action, ◌>>◌, lift, >>=-returned, returned-injective}
use pc_helper_ios.Service.{
  Service, Startup, control_stage, http_stage, mdns_stage, sweeper_stage, count_stage,
}

-- a stage after which a property of the service holds as before
abbrev pub Keeps : (Service → Type 0) → Action Service (Unit {0}) → Type 0
Keeps P m = (s : Service) → P s → P (m s).1

pub >>-Keeps :
    (P : Service → Type 0) (m n : Action Service (Unit {0}))
    → Keeps P m
    → Keeps P n
    → Keeps P (m >> n)
>>-Keeps P m n h k s o = go (m s) (h s o)
  where
    go : (r : Result (Unit {0}) × Service) → P r.1 → P (Action.continue r (λ done. n)).1
    go (ok done, t) p = k t p
    go (err x, t) p = p

-- the stages after the store is open
abbrev pub after_http : Startup → Action Service (Unit {0})
after_http o =
    mdns_stage o.mdns_enabled o.has_addresses o.register >> (sweeper_stage >> count_stage)

abbrev pub rest : Startup → Action Service (Unit {0})
rest o = control_stage o.path_bytes o.bind >> (http_stage o.setup o.listen >> after_http o)

pub rest-Keeps :
    (P : Service → Type 0) (o : Startup)
    → Keeps P (control_stage o.path_bytes o.bind)
    → Keeps P (http_stage o.setup o.listen)
    → Keeps P (mdns_stage o.mdns_enabled o.has_addresses o.register)
    → Keeps P sweeper_stage
    → Keeps P count_stage
    → Keeps P (rest o)
rest-Keeps P o control http mdns sweeper count =
    let last = >>-Keeps P sweeper_stage count_stage sweeper count in
    let later =
      >>-Keeps P (mdns_stage o.mdns_enabled o.has_addresses o.register)
        (sweeper_stage >> count_stage) mdns last in
    >>-Keeps P (control_stage o.path_bytes o.bind) (http_stage o.setup o.listen >> after_http o)
      control (>>-Keeps P (http_stage o.setup o.listen) (after_http o) http later)
