-- ===== src/Tests/Service.antt =====
-- Runs of the service: its start and stop, its sweep, and its key.
use pc_helper_ios.Prelude.{
  ◌≤◌, ◌≡◌, refl, ◌⊎◌, true, false, none, some, List, [], ◌∷◌, ltb, length, keep, Text, codes,
}
use pc_helper_ios.Errors.{ok}
use pc_helper_ios.Store.{open_store}
use pc_helper_ios.Store.Statements.{Nonce, empty}
use pc_helper_ios.Control.Lifecycle.{Sockets}
use pc_helper_ios.Service.{Startup, Service, no_parts, service, start, stop, run}
use pc_helper_ios.Service.Owned.{is_ok}
use pc_helper_ios.Service.Stopped.{IsStopped, cleanly, exit_code, run-IsStopped}
use pc_helper_ios.Service.Reopened.{begun, begin_during_stop}
use pc_helper_ios.Pairing.Manager
use pc_helper_ios.Pairing.Manager.{is_opened}
use pc_helper_ios.Tests.Data.{toy}
use pc_helper_ios.Tests.Pairing.{asking}
use pc_helper_ios.Service.Sweep.{sweep_round, sweep_round-writes, audit_keep}
use pc_helper_ios.Identity.{
  Directory, Library, load_or_create, write_private, IsKept, owner_only, load_or_create-IsKept,
}
use pc_helper_ios.Identity.Killed.{killed, write_steps, steps, IsWhole, IsWedged, start_after_kill}
use pc_helper_ios.Store.Statements.Replay.{Write, log, consume, writes}

abbrev startup : Startup
startup = record {
  identity = ok tt;
  database = ok tt;
  path_bytes = 40;
  bind = ok tt;
  setup = ok tt;
  listen = ok tt;
  mdns_enabled = true;
  has_addresses = true;
  register = ok tt;
}

abbrev no_sockets : Sockets
no_sockets = record { entry = none; listening = λ n. false }

run-IsStopped_example :
    IsStopped
      (is_ok startup.listen)
      (run startup (λ s. s) (cleanly (λ s. s)) (service 1 empty no_sockets)).1
    × ((run startup (λ s. s) (cleanly (λ s. s)) (service 1 empty no_sockets)).0
        ≡ exit_code (start startup (service 1 empty no_sockets)).0)
run-IsStopped_example =
    run-IsStopped startup (λ s. s) (λ s. s) 1 empty no_sockets refl (λ t quiet. quiet)

abbrev running : Service
running = record {
  number = 1;
  parts = record no_parts { store = true; context = true; control = true; server = true };
  system = Manager.start (open_store empty);
  sockets = no_sockets;
}

begin_during_stop_example :
    let s = stop (cleanly (begun toy asking none (codes "ABCD2345") 5 1005)) running in
    (is_opened s.system.manager.state ≡ true) × (s.system.store.connected ≡ false)
begin_during_stop_example =
    begin_during_stop toy asking none (codes "ABCD2345") 5 1005 running refl refl refl

abbrev written : List Write
written =
    log 1 (codes "pair") (codes "ok") none none none
    ∷ consume (codes "phone") (codes "n") 7
    ∷ consume (codes "phone") (codes "m") 9
    ∷ []

sweep_round-writes_example :
    ((sweep_round 8 (open_store (writes written empty))).tables.nonces
      ≡ keep (λ (r : Nonce). ltb 8 r.expires_at) (open_store (writes written empty)).tables.nonces)
    × (length (sweep_round 8 (open_store (writes written empty))).tables.audit ≤ audit_keep)
sweep_round-writes_example = sweep_round-writes written 8

-- a key is its own encoding
abbrev keys : Library Text
keys = record { load_pem = ok; to_pem = λ k. k; public_raw = λ k. k }

abbrev no_files : Directory
no_files = record { key = none; tmp = none }

writing : Unit {0}
unfolding load_or_create write_private
writing = tt

load_or_create-IsKept_example :
    IsKept keys (codes "key") (some (record { mode = owner_only; content = codes "key" }))
unfolding writing
load_or_create-IsKept_example =
    load_or_create-IsKept keys (codes "key") (ok tt) (ok tt) no_files {k = codes "key"}
      {after = record {
        key = some (record { mode = owner_only; content = codes "key" });
        tmp = none;
      }}
      refl refl

start_after_kill_example :
    (write_private (codes "key") (ok tt) (ok tt) no_files
      ≡ (ok tt, steps (write_steps (codes "key")) no_files))
    × ((killed (codes "key") 2 no_files ≡ no_files)
        ⊎ (IsWhole (codes "key") (killed (codes "key") 2 no_files)
            ⊎ (((killed (codes "key") 2 no_files).key ≡ none)
                × IsWedged keys (killed (codes "key") 2 no_files))))
start_after_kill_example = start_after_kill keys (codes "key") 2 no_files refl refl
