-- ===== src/Control/Devices.antt =====
-- pc-service/src/wol_unlock/control/server.py: the device that a selector names.
pub mod Unambiguous
use pc_helper_ios.Prelude.{
  Bool, true, ◌||◌, Option, none, some, List, [], ◌∷◌, if◌then◌else◌, find, Text,
}
use pc_helper_ios.Errors.{Result, ok, raise, bad_request, ◌>>=◌}
use pc_helper_ios.Unicode.{Unicode, to_lower}
use pc_helper_ios.Netif.{starts_with}
use pc_helper_ios.Crypto.Canonical.{fingerprint}
use pc_helper_ios.Store.Statements.{Device, Tables, has_id, list_devices}

-- the elements that pass a test, which may raise as it goes
unfoldable pub matching {ℓ} : {A : Type ℓ} → (A → Result Bool) → List A → Result (List A)
matching p [] = ok []
matching p (x ∷ xs) =
    let rest = matching p xs in p x >>= λ b. rest >>= λ found. ok (if b then x ∷ found else found)

abbrev the_only {ℓ} : {A : Type ℓ} → List A → Result A
the_only [] = raise bad_request
the_only (x ∷ []) = ok x
the_only (x ∷ y ∷ xs) = raise bad_request

abbrev pub or_search {ℓ} : {A : Type ℓ} → Option A → Result A → Result A
or_search none rest = rest
or_search (some x) rest = ok x

module _ (u : Unicode) (sha256 : Text → Text) where
  -- a prefix of the id, of the name or of the fingerprint, whatever the case
  unfoldable pub matches : (needle : Text) → Device → Result Bool
  unfolding to_lower starts_with
  matches needle d =
      if starts_with needle (to_lower u d.device_id) || starts_with needle (to_lower u d.name)
      then ok true
      else fingerprint sha256 d.pubkey >>= λ f. ok (starts_with needle (to_lower u f))

  unfoldable pub find_in : (selector : Text) → List Device → Result Device
  unfolding matching matches to_lower
  find_in selector ds =
      or_search (find (has_id selector) ds)
        (matching (matches (to_lower u selector)) ds >>= the_only)

  -- `_resolve_device`
  unfoldable pub resolve_device : (selector : Text) → Tables → Result Device
  unfolding find_in list_devices
  resolve_device selector t = find_in selector (list_devices true t)
