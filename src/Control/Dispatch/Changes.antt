-- ===== src/Control/Dispatch/Changes.antt =====
-- Which device rows the operator's commands change.
use pc_helper_ios.Prelude.{
  ℕ, ◌≡◌, refl, ap, ◌∙◌, ◌⊎◌, inl, inr, Bool, true, false, Option, none, arith, if◌then◌else◌,
  Bool-cases, Text, codes, text_eq,
}
use pc_helper_ios.Errors.{Result, ok, err, ◌>>=◌}
use pc_helper_ios.Action
use pc_helper_ios.Action.{Action, lift, pure}
use pc_helper_ios.Crypto.Verify.{Primitives}
use pc_helper_ios.Session.Target.{current_session}
use pc_helper_ios.Store.{Store}
use pc_helper_ios.Value.{Fields, get}
use pc_helper_ios.Store.Statements.{
  Device, Tables, get_device, add_audit, tail_audit, revoke_row, list_devices,
}
use pc_helper_ios.Store.Statements.Laws.{
  apply_to, get_device-revoke_device, get_device-delete_device,
}
use pc_helper_ios.Pairing.Manager.{Settings, System, begin, resolve}
use pc_helper_ios.Pairing.Submit.{cancel}
use pc_helper_ios.Control.Devices.{resolve_device, find_in}
use pc_helper_ios.Control.Commands.{
  Command, status, pair_begin, pair_cancel, pair_approve, pair_deny, devices_list, devices_revoke,
  devices_delete, audit_tail, Desk, World, Answer, device_changed, device_rows, entries, limit_of,
  selector_of, window_of, shown_all, shown,
}
use pc_helper_ios.Control.Dispatch.{
  run, list, change, log, put_system, put_machine, dispatch, change_device, read_status,
}

Result-cases {ℓ} : {A : Type ℓ} (r : Result A) → ((e : _) × (r ≡ err e)) ⊎ ((a : A) × (r ≡ ok a))
Result-cases (err e) = inl (e, refl)
Result-cases (ok a) = inr (a, refl)

-- the row of `j` after a command that chose a device
abbrev pub changed_row : (revokes : Bool) → ℕ → Text → Result Device → Option Device → Option Device
changed_row revokes wall j (err e) row = row
changed_row true wall j (ok d) row = apply_to (text_eq d.device_id j) (revoke_row wall) row
changed_row false wall j (ok d) row = if text_eq d.device_id j then none else row

abbrev pub row_after : Command → ℕ → Text → Result Device → Option Device → Option Device
row_after devices_revoke wall j d row = changed_row true wall j d row
row_after devices_delete wall j d row = changed_row false wall j d row
row_after _ wall j d row = row

abbrev pub tables_of : {S : Type 0} → World S → Tables
tables_of w = w.system.store.tables

-- an action that leaves the tables as they are
abbrev Leaves : {S A : Type 0} → Action (World S) A → Type 0
Leaves m = (w : World _) → tables_of (m w).1 ≡ tables_of w

module _ {S : Type 0} where
  >>=-Leaves :
      {A B : Type 0} (m : Action (World S) A) (f : A → Action (World S) B)
      → Leaves m
      → ((a : A) → Leaves (f a))
      → Leaves (Action.◌>>=◌ m f)
  >>=-Leaves {A} {B} m f h k w = go (m w) (h w)
    where
      go :
          (r : Result A × World S)
          → tables_of r.1 ≡ tables_of w
          → tables_of (Action.continue r f).1 ≡ tables_of w
      go (ok a, v) e = k a v ∙ e
      go (err x, v) e = e

  -- a statement that only reads
  read_Leaves :
      {A : Type 0} (desk : Desk S) (f : Tables → A) → Leaves (run desk (λ t. (ok (f t), t)))
  read_Leaves desk f w = elim (Bool-cases w.system.store.connected) [
    | inl up ↦ rw up refl
    | inr down ↦ rw down refl
  ]

begin-store :
    (p : Primitives) (cfg : Settings) (window_s : Option ℕ) (code : Text) (now wall : ℕ)
    (s : System)
    → (begin p cfg window_s code now wall s).1.store ≡ s.store
unfolding begin
begin-store p cfg window_s code now wall s = ground arith

resolve-store : (b : Bool) (s : System) → (resolve b s).1.store ≡ s.store
unfolding resolve
resolve-store b s = ground arith

module _ {S : Type 0} (desk : Desk S) where
  -- the device that the arguments select
  abbrev pub selected : Fields → Tables → Result Device
  selected args t = do
    selector ← selector_of (get (codes "device") args)
    resolve_device desk.unicode desk.primitives.sha256 selector t

  abbrev opens : Option ℕ → Action (World S) Text
  opens window_s w =
      put_system w
        (begin desk.primitives desk.settings window_s desk.code desk.now desk.wall w.system)

  opens-Leaves : (window_s : Option ℕ) → Leaves (opens window_s)
  opens-Leaves window_s w =
      ap (λ (t : Store). t.tables)
        (begin-store desk.primitives desk.settings window_s desk.code desk.now desk.wall w.system)

  read_status-row :
      (j : Text) (w : World S)
      → get_device j (tables_of (read_status desk w).1) ≡ get_device j (tables_of w)
  unfolding read_status
  read_status-row j w = ap (get_device j) (
      >>=-Leaves (λ x. put_machine x (current_session desk.logind x.machine)) _ (λ v. refl)
        (λ session. >>=-Leaves _ _ (read_Leaves desk _) (λ ds v. refl)) w)

  -- the statements of a change, once the device is known
  change-row :
      (revokes : Bool) (j : Text) (d : Device) (t : Tables)
      → get_device j (change desk revokes d.device_id t).1
        ≡ changed_row revokes desk.wall j (ok d) (get_device j t)
  change-row true j d t = get_device-revoke_device d.device_id j desk.wall t
  change-row false j d t = get_device-delete_device d.device_id j t

  -- the end of a change: the row of the audit, and the answer
  abbrev finished : Text → Device → Bool → Action (World S) Answer
  finished action d changed = Action.◌>>◌ (run desk (log desk action changed d)) (
      Action.◌>>=◌ (lift (shown desk.primitives.sha256 d))
        (λ info. pure (device_changed info changed)))

  finished-row :
      (action : Text) (j : Text) (d : Device) (changed : Bool) (w : World S)
      → w.system.store.connected ≡ true
      → get_device j (tables_of (finished action d changed w).1) ≡ get_device j (tables_of w)
  unfolding get_device add_audit
  finished-row action j d changed w h = elim (Result-cases (shown desk.primitives.sha256 d)) [
    | inl (e, unshown) ↦ rw (h, unshown) refl
    | inr (info, done) ↦ rw (h, done) refl
  ]

  changed-row :
      (revokes : Bool) (action : Text) (j : Text) (d : Device) (w : World S)
      → w.system.store.connected ≡ true
      → get_device j (
          tables_of
            (Action.◌>>=◌ (run desk (change desk revokes d.device_id)) (finished action d) w).1)
        ≡ changed_row revokes desk.wall j (ok d) (get_device j (tables_of w))
  changed-row true action j d w h =
      rw h (finished-row action j d _ _ refl ∙ change-row true j d (tables_of w))
  changed-row false action j d w h =
      rw h (finished-row action j d _ _ refl ∙ change-row false j d (tables_of w))

  change_device-row :
      (revokes : Bool) (action : Text) (args : Fields) (j : Text) (w : World S)
      → w.system.store.connected ≡ true
      → get_device j (tables_of (change_device desk revokes action args w).1)
        ≡ changed_row revokes desk.wall j (selected args (tables_of w)) (get_device j (tables_of w))
  unfolding change_device resolve_device
  change_device-row revokes action args j w h =
      elim (Result-cases (selector_of (get (codes "device") args))) [
        | inl (e, none_given) ↦ rw none_given refl
        | inr (selector, given) ↦
            elim (Result-cases (
              find_in desk.unicode desk.primitives.sha256 selector
                (list_devices true (tables_of w)))) [
                  | inl (e, unknown) ↦ rw (given, h, unknown) refl
                  | inr (d, found) ↦ rw (given, h, found) (changed-row revokes action j d _ refl)
                ]
      ]

  -- If the store is open, then after a command, whether it answers or raises, every device has the
  -- row that it had, but for the device that the arguments select: `devices.revoke` marks its row
  -- as revoked, if it was not, and `devices.delete` leaves no row of it.
  pub dispatch-row_after :
      (c : Command) (args : Fields) (j : Text) (w : World S)
      → w.system.store.connected ≡ true
      → get_device j (tables_of (dispatch desk c args w).1)
        ≡ row_after c desk.wall j (selected args (tables_of w)) (get_device j (tables_of w))
  unfolding dispatch begin cancel resolve change_device read_status
  dispatch-row_after status args j w h = read_status-row j w
  dispatch-row_after pair_begin args j w h = ap (get_device j) (
      >>=-Leaves (lift (window_of desk.int (get (codes "window_s") args))) _ (λ v. refl)
        (λ window_s. >>=-Leaves (opens window_s) _ (opens-Leaves window_s) (λ code v. refl)) w)
  dispatch-row_after pair_cancel args j w h = refl
  dispatch-row_after pair_approve args j w h = ground arith
  dispatch-row_after pair_deny args j w h = ground arith
  dispatch-row_after devices_list args j w h = ap (get_device j) (
      >>=-Leaves (list desk true)
        (λ ds.
          Action.◌>>=◌ (lift (shown_all desk.primitives.sha256 ds)) (λ is. pure (device_rows is)))
        (read_Leaves desk (list_devices true))
        (λ ds.
          >>=-Leaves (lift (shown_all desk.primitives.sha256 ds)) (λ is. pure (device_rows is))
            (λ v. refl) (λ is v. refl))
        w)
  dispatch-row_after devices_revoke args j w h = change_device-row true _ args j w h
  dispatch-row_after devices_delete args j w h = change_device-row false _ args j w h
  dispatch-row_after audit_tail args j w h =
      let limit = limit_of (get (codes "limit") args) in
      ap (get_device j) (
        >>=-Leaves (run desk (λ t. (ok (tail_audit limit t), t))) (λ rows. pure (entries rows))
          (read_Leaves desk (tail_audit limit)) (λ rows v. refl) w)
