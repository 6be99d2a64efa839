-- ===== src/Tests/Store.antt =====
-- The statements of the store at concrete rows.
use pc_helper_ios.Prelude.{
  ℕ, ◌+◌, ◌<◌, ◌≡◌, refl, false, List, [], ◌∷◌, arith, length, All, Text, codes, text_eq,
}
use pc_helper_ios.Store.Statements.{
  Device, Nonce, Tables, empty, get_device, upsert_device, new_device, revoke_device, delete_device,
  touch_device, consume_nonce, sweep_nonces, add_audit, prune_audit, tail_audit,
}
use pc_helper_ios.Store.Statements.Replay.{
  Write, delete, touch, consume, sweep, prune, write, writes, consume_nonce_once, sweep_nonces_lem,
}

abbrev phone : Text
phone = codes "phone"

abbrev tablet : Text
tablet = codes "tablet"

abbrev phone_row : Device
phone_row = new_device phone (codes "key") (codes "Phone") (codes "ios") 5

abbrev one_device : Tables
one_device = record empty { devices = phone_row ∷ [] }

statements : Unit {0}
unfolding get_device upsert_device revoke_device delete_device touch_device consume_nonce
    sweep_nonces add_audit prune_audit tail_audit write writes text_eq
statements = tt

abbrev noise : List Write
noise = touch phone 11 ∷ sweep 69 ∷ consume tablet (codes "n") 80 ∷ prune 3 ∷ delete tablet ∷ []

consume_nonce_once_example :
    (consume_nonce phone
      (codes "n")
      90
      (writes noise (consume_nonce phone (codes "n") 70 one_device).1)).0
    ≡ false
unfolding statements
consume_nonce_once_example =
    consume_nonce_once phone (codes "n") 70 one_device noise 90 refl
      (tt, (omega arith, (tt, (tt, (refl, tt)))))

abbrev two_nonces : Tables
two_nonces = record empty {
  nonces =
      record { device_id = phone; nonce = codes "a"; expires_at = 7 }
      ∷ record { device_id = phone; nonce = codes "b"; expires_at = 9 }
      ∷ [];
}

sweep_nonces_lem_example :
    (◌≡◌ {A = ℕ}
      (length two_nonces.nonces)
      ((sweep_nonces 7 two_nonces).0 + length (sweep_nonces 7 two_nonces).1.nonces))
    × All (λ (r : Nonce). 7 < r.expires_at) (sweep_nonces 7 two_nonces).1.nonces
sweep_nonces_lem_example = sweep_nonces_lem 7 two_nonces
