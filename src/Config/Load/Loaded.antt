-- ===== src/Config/Load/Loaded.antt =====
-- What holds of a configuration that loads.
use pc_helper_ios.Prelude.{◌≤◌, ◌≡◌, subst, true, not, [], arith, leb, leb→le, length, codes}
use pc_helper_ios.Errors.{ok, >>=-eq-ok, ok-injective}
use pc_helper_ios.Unicode.{utf8}
use pc_helper_ios.Value.{Fields, get}
use pc_helper_ios.Config.Sections.{
  Config, Machine, validate_bool, bool_at, if_true, http_config, pairing_config,
}
use pc_helper_ios.Config.Sections.Ranges.{
  PairingInRange, HttpInRange, require_then, http_config-InRange, pairing_config-InRange,
}
use pc_helper_ios.Config.Load.{
  section, is_duplicated, targets_of, named, name_of, load, IsDistinct, is_duplicated-IsDistinct,
}

pub record IsLoaded (c : Config) : Type 0 where
  pub name : length (utf8 c.name) ≤ 63
  pub http : HttpInRange c.http
  pub pairing : PairingInRange c.pairing
  pub targets : IsDistinct c.wake_targets

module _ (m : Machine) where
  -- A configuration that loads has a name of at most 63 bytes, every number of its `[http]` and
  -- `[pairing]` tables in its range, an allowed network, and no two wake targets with one MAC.
  pub load-IsLoaded : (raw : Fields) (c : Config) → load m raw ≡ ok c → IsLoaded c
  unfolding load
  load-IsLoaded raw c h =
      let name = name_of m (named m (if_true (get (codes "name") raw))) in
      let (short, h1) = require_then (leb (length (utf8 name)) 63) _ h in
      let (http_raw, _, h2) = >>=-eq-ok (section (get (codes "http") raw)) _ h1 in
      let (pairing_raw, _, h3) = >>=-eq-ok (section (get (codes "pairing") raw)) _ h2 in
      let (wake_raw, _, h4) = >>=-eq-ok (section (get (codes "wake") raw)) _ h3 in
      let (mdns_raw, _, h5) = >>=-eq-ok (section (get (codes "mdns") raw)) _ h4 in
      let (targets, _, h6) = >>=-eq-ok (targets_of m (get (codes "targets") wake_raw)) _ h5 in
      let (distinct, h7) = require_then (not (is_duplicated [] targets)) _ h6 in
      let (_, _, h8) = >>=-eq-ok (validate_bool (bool_at "enabled" true mdns_raw)) _ h7 in
      let (_, _, h9) = >>=-eq-ok (validate_bool (bool_at "unlock_enabled" true raw)) _ h8 in
      let (http, served, h10) = >>=-eq-ok (http_config m http_raw) _ h9 in
      let (pairing, paired, h11) = >>=-eq-ok (pairing_config pairing_raw) _ h10 in
      subst IsLoaded (ok-injective h11) (record {
        name = leb→le (length (utf8 name)) 63 short;
        http = http_config-InRange m http_raw http served;
        pairing = pairing_config-InRange pairing_raw pairing paired;
        targets = is_duplicated-IsDistinct [] targets (ground (arith, distinct));
      })
