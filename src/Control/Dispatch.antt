-- ===== src/Control/Dispatch.antt =====
-- pc-service/src/wol_unlock/control/server.py: what each command of the operator does.
pub mod Changes
use pc_helper_ios.Prelude.{
  ℕ, zero, suc, ◌+◌, ◌-◌, ◌*◌, ◌/◌, ◌%◌, ◌^◌, ◌≤◌, ◌<◌, min, max, String, ◌≡◌, refl, sym, ap, ◌∙◌,
  subst, fun_ext, ◌≢◌, ◌↔◌, ◌⊎◌, inl, inr, Bool, true, false, ◌&&◌, ◌||◌, not, Option, none, some,
  List, [], ◌∷◌, ◌++◌, map, reverse, arith, ltb, leb, ◌==◌, if◌then◌else◌, ltb→lt, lt→ltb, leb→le,
  le→leb, ==_iff, Bool-cases, Option-cases, is_some, length, take, drop, keep, any, all, find,
  length-append, length-keep-le, length-drop, insert_by, sort_by, length-sort_by, All, All-append,
  All-keep, Text, codes, text_eq, text_eq_refl, text_eq_iff,
}
use pc_helper_ios.Errors.{Result, ok, err, bad_request}
use pc_helper_ios.Action.{Action, pure, lift, ◌>>=◌, ◌>>◌}
use pc_helper_ios.Value.{Fields, get}
use pc_helper_ios.Store.{Store, call}
use pc_helper_ios.Store.Statements.{
  Device, Audit, Tables, list_devices, revoke_device, delete_device, add_audit, tail_audit,
}
use pc_helper_ios.Session.Target.{current_session}
use pc_helper_ios.Wake.Targets.{describe_targets}
use pc_helper_ios.Context.{server_info, uptime_s}
use pc_helper_ios.Pairing.Manager.{System, begin, resolve}
use pc_helper_ios.Pairing.Submit.{cancel}
use pc_helper_ios.Pairing.Status.{snapshot}
use pc_helper_ios.Control.Devices.{find_in}
use pc_helper_ios.Control.Commands.{
  Command, status, pair_begin, pair_cancel, pair_approve, pair_deny, devices_list, devices_revoke,
  devices_delete, audit_tail, command_name, Answer, status_data, window_code, pairing_cancelled,
  resolved, device_rows, device_changed, entries, Desk, World, window_of, limit_of, selector_of,
  shown, shown_all,
}

-- a part of the system changed in the world around it
abbrev pub put_system {ℓ} : {A : Type ℓ} {S : Type 0} → World S → A × System → A × World S
put_system w (a, s) = (a, record w { system = s })

abbrev pub put_store {ℓ} : {A : Type ℓ} {S : Type 0} → World S → A × Store → A × World S
put_store w (a, t) = (a, record w { system = record w.system { store = t } })

abbrev pub put_machine {ℓ} : {A : Type ℓ} {S : Type 0} → World S → A × S → A × World S
put_machine w (a, m) = (a, record w { machine = m })

-- a pairing operation that raises nothing
abbrev pub never_raises {ℓ} : {A : Type ℓ} {S : Type 0} → A × S → Result A × S
never_raises (a, s) = (ok a, s)

module _ {S : Type 0} (desk : Desk S) where
  -- a statement of the store
  abbrev pub run : {A : Type 0} → (Tables → Result A × Tables) → Action (World S) A
  run op w = put_store w (call op w.system.store)

  abbrev pub list : Bool → Action (World S) (List Device)
  list include_revoked = run (λ t. (ok (list_devices include_revoked t), t))

  -- the statement of `devices.revoke`, or else that of `devices.delete`
  abbrev pub change : (revokes : Bool) → Text → Tables → Result Bool × Tables
  change true i t = never_raises (revoke_device i desk.wall t)
  change false i t = never_raises (delete_device i t)

  abbrev pub result_text : Bool → Text
  result_text true = codes "ok"
  result_text false = codes "noop"

  abbrev pub log : Text → Bool → Device → Tables → Result (Unit {0}) × Tables
  log action changed d t = (
    ok tt,
    add_audit desk.wall action (result_text changed) (some d.device_id) none (some d.name) t,
  )

  unfoldable pub change_device :
      (revokes : Bool) → (action : Text) → Fields → Action (World S) Answer
  unfolding find_in shown
  change_device revokes action args = do
    selector ← lift (selector_of (get (codes "device") args))
    ds ← list true
    d ← lift (find_in desk.unicode desk.primitives.sha256 selector ds)
    changed ← run (change revokes d.device_id)
    run (log action changed d)
    info ← lift (shown desk.primitives.sha256 d)
    pure (device_changed info changed)

  unfoldable pub read_status : Action (World S) Answer
  unfolding current_session server_info snapshot describe_targets
  read_status w =
      (do
        session ← (λ x. put_machine x (current_session desk.logind x.machine))
        ds ← list false
        pure (
            status_data (record {
              server = server_info desk.config desk.settings.server_fp w.system.manager;
              uptime_s = uptime_s desk.started_at desk.now;
              session = session;
              pairing = snapshot desk.now w.system.manager;
              wake_targets = describe_targets desk.kernel desk.config.wake_targets;
              config = desk.config;
              devices = length ds;
            })))
        w

  -- `_dispatch`
  unfoldable pub dispatch : Command → Fields → Action (World S) Answer
  unfolding read_status begin cancel resolve change_device shown_all tail_audit
  dispatch status args = read_status
  dispatch pair_begin args = do
    window_s ← lift (window_of desk.int (get (codes "window_s") args))
    code ← (λ w.
        put_system w
          (begin desk.primitives desk.settings window_s desk.code desk.now desk.wall w.system))
    pure (window_code code)
  dispatch pair_cancel args = λ w. (ok pairing_cancelled, record w { system = cancel w.system })
  dispatch pair_approve args = do
    b ← (λ w. put_system w (never_raises (resolve true w.system)))
    pure (resolved b)
  dispatch pair_deny args = do
    b ← (λ w. put_system w (never_raises (resolve false w.system)))
    pure (resolved b)
  dispatch devices_list args = do
    ds ← list true
    is ← lift (shown_all desk.primitives.sha256 ds)
    pure (device_rows is)
  dispatch devices_revoke args = change_device true (codes "devices.revoke") args
  dispatch devices_delete args = change_device false (codes "devices.delete") args
  dispatch audit_tail args = do
    rows ← run (λ t. (ok (tail_audit (limit_of (get (codes "limit") args)) t), t))
    pure (entries rows)
