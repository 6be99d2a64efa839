-- ===== src/Store/Statements/Laws.antt =====
-- What the statements do to what the others read.
use pc_helper_ios.Errors.{ok}
use pc_helper_ios.Prelude.{
  ℕ, ◌≡◌, refl, Text, text_eq, text_eq_iff, Bool, not, Option, none, some, List, [], ◌∷◌, keep,
  find, arith, if◌then◌else◌, text_eq_refl, ◌++◌, any, false, Option-cases, is_some,
}
use pc_helper_ios.Store.Statements.{
  Device, Tables, has_id, update_devices, get_device, revoke_row, revoke_device, delete_device,
  touch_device, new_device, re_enroll, upsert_device,
}

-- `UPDATE` seen through the lookup by key
abbrev pub apply_to : Bool → (Device → Device) → Option Device → Option Device
apply_to b f none = none
apply_to b f (some d) = some (if b then f d else d)

find-update_devices :
    (i j : Text) (f : Device → Device)
    → ((d : Device) → (f d).device_id ≡ d.device_id)
    → (ds : List Device)
    → find (has_id j) (update_devices i f ds) ≡ apply_to (text_eq i j) f (find (has_id j) ds)
unfolding update_devices
find-update_devices i j f keeps [] = refl
find-update_devices i j f keeps (d ∷ ds) = ground (
  arith,
  keeps d,
  find-update_devices i j f keeps ds,
  text_eq_iff d.device_id i,
  text_eq_iff d.device_id j,
  text_eq_iff i j,
)

revoke_row_id : (now : ℕ) (d : Device) → (revoke_row now d).device_id ≡ d.device_id
revoke_row_id now d = ground arith

-- A revocation marks the row of the device, if it was not marked, and no other row.
pub get_device-revoke_device :
    (i j : Text) (now : ℕ) (t : Tables)
    → get_device j (revoke_device i now t).1
      ≡ apply_to (text_eq i j) (revoke_row now) (get_device j t)
unfolding get_device revoke_device
get_device-revoke_device i j now t =
    find-update_devices i j (revoke_row now) (revoke_row_id now) t.devices

-- A visit is noted in the row of the device, and in no other row.
pub get_device-touch_device :
    (i j : Text) (now : ℕ) (t : Tables)
    → get_device j (touch_device i now t)
      ≡ apply_to (text_eq i j) (λ d. record d { last_seen_at = some now }) (get_device j t)
unfolding get_device touch_device
get_device-touch_device i j now t = find-update_devices i j _ (λ d. refl) t.devices

find-keep-not :
    (i j : Text) (ds : List Device)
    → find (has_id j) (keep (λ d. not (has_id i d)) ds)
      ≡ (if text_eq i j then none else find (has_id j) ds)
find-keep-not i j [] = ground arith
find-keep-not i j (d ∷ ds) = ground (
  arith,
  find-keep-not i j ds,
  text_eq_iff d.device_id i,
  text_eq_iff d.device_id j,
  text_eq_iff i j,
)

-- A removal leaves no row of the device, and every other row.
pub get_device-delete_device :
    (i j : Text) (t : Tables)
    → get_device j (delete_device i t).1 ≡ (if text_eq i j then none else get_device j t)
unfolding get_device delete_device
get_device-delete_device i j t = find-keep-not i j t.devices

any-find : (i : Text) (ds : List Device) → any (has_id i) ds ≡ is_some (find (has_id i) ds)
any-find i [] = refl
any-find i (d ∷ ds) = ground (arith, any-find i ds)

find-concat :
    (j : Text) (ds : List Device) (e : Device)
    → find (has_id j) ds ≡ none
    → find (has_id j) (ds ++ e ∷ []) ≡ (if has_id j e then some e else none)
find-concat j [] e h = refl
find-concat j (d ∷ ds) e h = ground (arith, find-concat j ds e)

find-concat_ne :
    (j : Text) (ds : List Device) (e : Device)
    → has_id j e ≡ false
    → find (has_id j) (ds ++ e ∷ []) ≡ find (has_id j) ds
find-concat_ne j [] e h = ground arith
find-concat_ne j (d ∷ ds) e h = ground (arith, find-concat_ne j ds e)

-- the row that an enrolment leaves, from the row that was there
abbrev pub enrolled : Text → Text → Text → Text → ℕ → Option Device → Device
enrolled i pubkey name platform now none = new_device i pubkey name platform now
enrolled i pubkey name platform now (some d) = re_enroll name platform now d

module _ (i pubkey name platform : Text) (now : ℕ) (t : Tables) where
  -- An enrolment that does not raise returns the row that the table then has for the device: a new
  -- one, or the old one with the new name, platform and time and without its revocation.
  pub upsert_device-enrolled :
      {d : Device}
      → (upsert_device i pubkey name platform now t).0 ≡ ok d
      → (d ≡ enrolled i pubkey name platform now (get_device i t))
        × (get_device i (upsert_device i pubkey name platform now t).1 ≡ some d)
  unfolding upsert_device
  upsert_device-enrolled {d} h =
      let old : Option Device = find (has_id i) t.devices in
      ground (
        arith,
        any-find i t.devices,
        find-update_devices i i (re_enroll name platform now) (λ _. refl) t.devices,
        find-concat i t.devices (new_device i pubkey name platform now),
        text_eq_refl i,
      )

  -- Whether an enrolment raises or not, the row of any other device stays as it was.
  pub get_device-upsert_device_ne :
      (j : Text)
      → text_eq i j ≡ false
      → get_device j (upsert_device i pubkey name platform now t).1 ≡ get_device j t
  unfolding upsert_device
  get_device-upsert_device_ne j h = ground (
    arith,
    find-update_devices i j (re_enroll name platform now) (λ _. refl) t.devices,
    find-concat_ne j t.devices (new_device i pubkey name platform now),
    Option-cases (find (has_id j) t.devices),
  )
