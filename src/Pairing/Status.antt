-- ===== src/Pairing/Status.antt =====
-- pc-service/src/wol_unlock/pairing.py: what the manager shows of itself, and its listeners.
use pc_helper_ios.Prelude.{
  ℕ, ◌-◌, ◌≡◌, refl, ap, Bool, not, Option, none, some, List, [], ◌∷◌, ◌++◌, map, ◌==◌, keep, Text,
  codes, join_by,
}
use pc_helper_ios.Pairing.Manager.{PairingState, is_idle, PendingEnrollment, OpenWindow, Manager}
use pc_helper_ios.Config.Sections.{WakeTarget, Config}
use pc_helper_ios.Unicode.{to_decimal}

-- `PendingEnrollment.to_dict`
pub record PendingInfo : Type 0 where
  pub device_id : Text
  pub device_name : Text
  pub platform : Text
  pub fp : Text
  pub requested_at : ℕ

pub record WindowInfo : Type 0 where
  pub expires_at : ℕ
  pub expires_in_s : ℕ
  pub attempts_left : ℕ

pub record Snapshot : Type 0 where
  pub active : Bool
  pub state : PairingState
  pub window : Option WindowInfo
  pub pending : Option PendingInfo

abbrev pending_info : Option PendingEnrollment → Option PendingInfo
pending_info none = none
pending_info (some e) = some (record {
  device_id = e.device_id;
  device_name = e.device_name;
  platform = e.platform;
  fp = e.fingerprint;
  requested_at = e.requested_at;
})

abbrev window_info : ℕ → Option OpenWindow → Option WindowInfo
window_info now none = none
window_info now (some w) = some (record {
  expires_at = w.expires_at_wall;
  expires_in_s = w.deadline_monotonic - now;
  attempts_left = w.attempts_left;
})

-- `is_open`
abbrev pub is_active : Manager → Bool
is_active m = not (is_idle m.state)

unfoldable pub snapshot : ℕ → Manager → Snapshot
snapshot now m = record {
  active = is_active m;
  state = m.state;
  window = window_info now m.window;
  pending = pending_info m.pending;
}

-- the window with another code
abbrev recoded : Text → Text → Option OpenWindow → Option OpenWindow
recoded code code_hash none = none
recoded code code_hash (some w) = some (record w { code_for_display = code; code_hash = code_hash })

abbrev pub with_code : Text → Text → Manager → Manager
with_code code code_hash m = record m { window = recoded code code_hash m.window }

-- The snapshot says nothing of the pairing code: it is the same whatever the code of the window and
-- its hash are.
pub snapshot-with_code :
    (code code_hash : Text) (now : ℕ) (m : Manager)
    → snapshot now (with_code code code_hash m) ≡ snapshot now m
unfolding snapshot
snapshot-with_code code code_hash now m =
    ap
      (λ (w : Option WindowInfo).
        (let s : Snapshot = record {
          active = is_active m;
          state = m.state;
          window = w;
          pending = pending_info m.pending;
        } in
          s))
      (same m.window)
  where
    same : (w : Option OpenWindow) → window_info now (recoded code code_hash w) ≡ window_info now w
    same none = refl
    same (some w) = refl

-- `build_qr_payload`: the parameters of the URI, which `urlencode` joins
module _ (urlencode : List (Text × Text) → Text) where
  abbrev macs : List WakeTarget → List Text
  macs = map (λ (t : WakeTarget). keep (λ c. not (c == 58)) t.mac)

  abbrev wake_params : List WakeTarget → List (Text × Text)
  wake_params [] = []
  wake_params (t ∷ ts) =
      (codes "m", join_by (codes ",") (macs (t ∷ ts))) ∷ (codes "b", t.broadcast) ∷ []

  unfoldable pub build_qr_payload : (host : Text) → Config → (fingerprint code : Text) → Text
  build_qr_payload host c fingerprint code =
      codes "wolunlock:1?"
      ++ urlencode (
          (codes "n", c.name)
          ∷ (codes "h", host ++ codes ".local")
          ∷ (codes "p", to_decimal c.http.port)
          ∷ (codes "f", fingerprint)
          ∷ (codes "c", code)
          ∷ wake_params c.wake_targets)
