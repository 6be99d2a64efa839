-- ===== src/Store/Statements.antt =====
-- The tables of store.py, and each statement as a function on them.
pub mod Laws
pub mod Replay
pub mod AuditLog
pub mod Numbered
use pc_helper_ios.Prelude.{
  ℕ, ◌+◌, Text, text_eq, Bool, true, false, not, ◌&&◌, Option, none, some, is_some, List, [], ◌∷◌,
  ◌++◌, map, length, take, keep, any, find, sort_by, leb, ltb, min, max, if◌then◌else◌,
}
use pc_helper_ios.Errors.{Result, ok, err, integrity_error}

pub record Device : Type 0 where
  pub device_id : Text
  pub pubkey : Text
  pub name : Text
  pub platform : Text
  pub paired_at : ℕ
  pub last_seen_at : Option ℕ
  pub revoked_at : Option ℕ

abbrev pub revoked : Device → Bool
revoked d = is_some d.revoked_at

pub record Nonce : Type 0 where
  pub device_id : Text
  pub nonce : Text
  pub expires_at : ℕ

pub record Audit : Type 0 where
  pub id : ℕ
  pub ts : ℕ
  pub device_id : Option Text
  pub action : Text
  pub result : Text
  pub peer_ip : Option Text
  pub detail : Option Text

-- `audit` has its newest row first; `last_id` is the AUTOINCREMENT counter.
pub record Tables : Type 0 where
  pub devices : List Device
  pub nonces : List Nonce
  pub audit : List Audit
  pub last_id : ℕ

abbrev pub empty : Tables
empty = record { devices = []; nonces = []; audit = []; last_id = 0 }

abbrev pub has_id : Text → Device → Bool
has_id i d = text_eq d.device_id i

abbrev pub is_nonce : Text → Text → Nonce → Bool
is_nonce i n r = text_eq r.device_id i && text_eq r.nonce n

-- `UPDATE devices SET … WHERE device_id = ?`
unfoldable pub update_devices : Text → (Device → Device) → List Device → List Device
update_devices i f [] = []
update_devices i f (d ∷ ds) =
    let rest = update_devices i f ds in if has_id i d then f d ∷ rest else d ∷ rest

-- `DO UPDATE SET`: the key and the last visit stay
abbrev pub re_enroll : Text → Text → ℕ → Device → Device
re_enroll name platform now d = record d {
  name = name;
  platform = platform;
  paired_at = now;
  revoked_at = none;
}

abbrev pub new_device : Text → Text → Text → Text → ℕ → Device
new_device i pubkey name platform now = record {
  device_id = i;
  pubkey = pubkey;
  name = name;
  platform = platform;
  paired_at = now;
  last_seen_at = none;
  revoked_at = none;
}

unfoldable pub get_device : Text → Tables → Option Device
get_device i t = find (has_id i) t.devices

-- the row that the final SELECT of `upsert_device` reads
abbrev selected : Option Device → Result Device
selected none = err integrity_error
selected (some d) = ok d

-- The conflict on `device_id` is the one that is handled; a `pubkey` that another row has is an
-- IntegrityError.
unfoldable pub upsert_device : Text → Text → Text → Text → ℕ → Tables → Result Device × Tables
unfolding update_devices get_device
upsert_device i pubkey name platform now t =
    if any (has_id i) t.devices
    then (let t' = record t {
      devices = update_devices i (re_enroll name platform now) t.devices;
    } in
        (selected (get_device i t'), t'))
    else if any (λ d. text_eq d.pubkey pubkey) t.devices
    then (err integrity_error, t)
    else (let d = new_device i pubkey name platform now in
        (ok d, record t { devices = t.devices ++ d ∷ [] }))

abbrev by_paired_at : Device → Device → Bool
by_paired_at d e = leb d.paired_at e.paired_at

unfoldable pub list_devices : Bool → Tables → List Device
unfolding sort_by
list_devices include_revoked t =
    sort_by by_paired_at
      (if include_revoked then t.devices else keep (λ d. not (revoked d)) t.devices)

abbrev pub revoke_row : ℕ → Device → Device
revoke_row now d = if revoked d then d else record d { revoked_at = some now }

-- `… WHERE device_id = ? AND revoked_at IS NULL`, with whether a row changed
unfoldable pub revoke_device : Text → ℕ → Tables → Bool × Tables
unfolding update_devices
revoke_device i now t = (
  any (λ d. has_id i d && not (revoked d)) t.devices,
  record t { devices = update_devices i (revoke_row now) t.devices },
)

unfoldable pub delete_device : Text → Tables → Bool × Tables
delete_device i t = (
  any (has_id i) t.devices,
  record t {
    devices = keep (λ d. not (has_id i d)) t.devices;
    nonces = keep (λ (r : Nonce). not (text_eq r.device_id i)) t.nonces;
  },
)

unfoldable pub touch_device : Text → ℕ → Tables → Tables
unfolding update_devices
touch_device i now t = record t {
  devices = update_devices i (λ d. record d { last_seen_at = some now }) t.devices;
}

-- False stands for the IntegrityError of the primary key.
unfoldable pub consume_nonce : Text → Text → ℕ → Tables → Bool × Tables
consume_nonce i n expires_at t = if any (is_nonce i n) t.nonces then (false, t) else (
  true,
  record t { nonces = record { device_id = i; nonce = n; expires_at = expires_at } ∷ t.nonces },
)

abbrev pub expired : ℕ → Nonce → Bool
expired now r = leb r.expires_at now

unfoldable pub sweep_nonces : ℕ → Tables → ℕ × Tables
sweep_nonces now t = (
  length (keep (expired now) t.nonces),
  record t { nonces = keep (λ r. not (expired now r)) t.nonces },
)

unfoldable pub count_nonces : Tables → ℕ
count_nonces t = length t.nonces

unfoldable pub add_audit :
    ℕ → Text → Text → Option Text → Option Text → Option Text → Tables → Tables
add_audit ts action result device_id peer_ip detail t = record t {
  audit =
      record {
        id = t.last_id + 1;
        ts = ts;
        device_id = device_id;
        action = action;
        result = result;
        peer_ip = peer_ip;
        detail = detail;
      }
      ∷ t.audit;
  last_id = t.last_id + 1;
}

-- A negative limit is clamped to 1, as 0 is.
unfoldable pub tail_audit : ℕ → Tables → List Audit
tail_audit limit t = take (max 1 (min limit 1000)) t.audit

-- `SELECT MAX(id) FROM audit`; of no row it is NULL, and then no row is deleted
abbrev pub max_id : List Audit → ℕ
max_id [] = 0
max_id (r ∷ rs) = max r.id (max_id rs)

-- `id <= MAX(id) - keep`, over the integers
abbrev pub is_old : ℕ → ℕ → Audit → Bool
is_old kept top r = leb (r.id + kept) top

unfoldable pub prune_audit : ℕ → Tables → ℕ × Tables
prune_audit kept t =
    let top = max_id t.audit in
    (
      length (keep (is_old kept top) t.audit),
      record t { audit = keep (λ r. not (is_old kept top r)) t.audit },
    )
