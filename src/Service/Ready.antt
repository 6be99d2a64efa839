-- ===== src/Service/Ready.antt =====
-- A start that returned has a store and a pairing.
use pc_helper_ios.Prelude.{ℕ, ◌≡◌, refl, subst, inl, inr, Bool, true, false, Bool-cases}
use pc_helper_ios.Errors.{Result, ok, err}
use pc_helper_ios.Action.{◌>>◌, lift, >>=-returned, returned-injective}
use pc_helper_ios.Control.Lifecycle
use pc_helper_ios.Control.Lifecycle.{start_failed-listening, Sockets}
use pc_helper_ios.Service.{
  Service, Startup, open_stage, control_stage, control_started, http_stage, mdns_stage, count_stage,
  start,
}
use pc_helper_ios.Service.Stages.{Keeps, rest, rest-Keeps}

-- the store and the pairing are there
abbrev pub IsReady : Service → Type 0
IsReady s = (s.parts.store ≡ true) × (s.parts.context ≡ true)

control-KeepsReady :
    (path_bytes : ℕ) (bind : Result (Unit {0})) → Keeps IsReady (control_stage path_bytes bind)
control-KeepsReady path_bytes bind s h = go (Lifecycle.start s.number path_bytes bind s.sockets)
  where
    go : (r : Result (Unit {0}) × Sockets) → IsReady (control_started s r).1
    go (ok done, t) = h
    go (err x, t) = h

http-KeepsReady : (q r : Result (Unit {0})) → Keeps IsReady (http_stage q r)
http-KeepsReady (err x) r s h = h
http-KeepsReady (ok done) (err x) s h = h
http-KeepsReady (ok done) (ok listening) s h = h

mdns-KeepsReady : (b c : Bool) (r : Result (Unit {0})) → Keeps IsReady (mdns_stage b c r)
mdns-KeepsReady false c r s h = h
mdns-KeepsReady true false r s h = h
mdns-KeepsReady true true (ok done) s h = h
mdns-KeepsReady true true (err x) s h = h

count-KeepsReady : Keeps IsReady count_stage
count-KeepsReady s h = elim (Bool-cases s.system.store.connected) [
  | inl up ↦ rw up h
  | inr down ↦ rw down h
]

rest-KeepsReady : (o : Startup) → Keeps IsReady (rest o)
rest-KeepsReady o =
    rest-Keeps IsReady o (control-KeepsReady o.path_bytes o.bind) (http-KeepsReady o.setup o.listen)
      (mdns-KeepsReady o.mdns_enabled o.has_addresses o.register) (λ s h. h) count-KeepsReady

-- A start that returned has opened the store.
pub start-IsReady : (o : Startup) (s t : Service) → start o s ≡ (ok tt, t) → IsReady t
unfolding start
start-IsReady o s t h =
    let (a, s1, _, h1) =
      >>=-returned (lift o.identity) (λ _. open_stage o.database >> rest o) s h in
    let (b, s2, opened, h2) = >>=-returned (open_stage o.database) (λ _. rest o) s1 h1 in
    subst (λ (r : Result (Unit {0}) × Service). IsReady r.1) h2
      (rest-KeepsReady o s2 (open_ready o.database s1 s2 opened))
  where
    open_ready :
        (r : Result (Unit {0})) (v w : Service) {a : Unit {0}}
        → open_stage r v ≡ (ok a, w)
        → IsReady w
    open_ready (err x) v w k = cc
    open_ready (ok done) v w k = subst IsReady (returned-injective k).1 (refl, refl)
