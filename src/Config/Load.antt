-- ===== src/Config/Load.antt =====
-- pc-service/src/wol_unlock/config.py: `load` after the file is parsed, and the questions that the
-- service asks of the configuration.
pub mod Loaded
use pc_helper_ios.Prelude.{
  ◌≡◌, refl, Bool, true, false, ◌&&◌, ◌||◌, not, Option, none, some, List, [], ◌∷◌, ◌++◌, arith,
  ltb, leb, ◌==◌, if◌then◌else◌, length, any, find, sort_by, Text, codes, text_eq, text_eq_refl,
  text_eq_iff,
}
use pc_helper_ios.Errors.{Result, ok, err, config_error, ◌>>=◌, ◌>>◌}
use pc_helper_ios.Unicode.{Unicode, strip, utf8}
use pc_helper_ios.Value.{Value, object, array, Fields, end, get, items, text_of}
use pc_helper_ios.Config.Mac.{normalize_mac}
use pc_helper_ios.Config.Sections.{
  WakeTarget, Config, Machine, require, validate_bool, bool_at, if_true, wake_target, http_config,
  pairing_config,
}

-- `raw.get(section, {})`, which must be a table
abbrev pub section : Option Value → Result Fields
section none = ok end
section (some (object raw)) = ok raw
section (some _) = err config_error

-- the loop that looks for a MAC that was seen
unfoldable pub is_duplicated : List Text → List WakeTarget → Bool
is_duplicated seen [] = false
is_duplicated seen (t ∷ ts) = any (text_eq t.mac) seen || is_duplicated (t.mac ∷ seen) ts

module _ (m : Machine) where
  unfoldable pub wake_targets_of : List Value → Result (List WakeTarget)
  wake_targets_of [] = ok []
  wake_targets_of (v ∷ vs) = do t ← wake_target m v; ts ← wake_targets_of vs; ok (t ∷ ts)

  abbrev pub targets_of : Option Value → Result (List WakeTarget)
  targets_of none = ok m.default_targets
  targets_of (some (array vs)) = wake_targets_of (items vs)
  targets_of (some _) = err config_error

  abbrev pub named : Option Value → Text
  named none = []
  named (some v) = strip m.unicode (text_of m.repr v)

  -- `str(raw.get("name") or "").strip() or default_display_name()`
  abbrev pub name_of : Text → Text
  name_of [] = m.host_name
  name_of (c ∷ s) = c ∷ s

  unfoldable pub load : Fields → Result Config
  unfolding wake_targets_of is_duplicated utf8
  load raw = do
    let name = name_of (named (if_true (get (codes "name") raw)))
    require (leb (length (utf8 name)) 63)
    http_raw ← section (get (codes "http") raw)
    pairing_raw ← section (get (codes "pairing") raw)
    wake_raw ← section (get (codes "wake") raw)
    mdns_raw ← section (get (codes "mdns") raw)
    targets ← targets_of (get (codes "targets") wake_raw)
    require (not (is_duplicated [] targets))
    mdns_enabled ← validate_bool (bool_at "enabled" true mdns_raw)
    unlock_enabled ← validate_bool (bool_at "unlock_enabled" true raw)
    http ← http_config m http_raw
    pairing ← pairing_config pairing_raw
    ok (record {
      name = name;
      http = http;
      pairing = pairing;
      wake_targets = targets;
      mdns_enabled = mdns_enabled;
      unlock_enabled = unlock_enabled;
    })

-- the order of texts by their characters
unfoldable pub text_le : Text → Text → Bool
text_le [] t = true
text_le (a ∷ s) [] = false
text_le (a ∷ s) (b ∷ t) = ltb a b || a == b && text_le s t

unfoldable pub capabilities : Config → List Text
unfolding sort_by text_le
capabilities c =
    let wol = if ltb 0 (length c.wake_targets) then codes "wol" ∷ [] else [] in
    let unlock = if c.unlock_enabled then codes "unlock" ∷ [] else [] in
    sort_by text_le (codes "status" ∷ (wol ++ unlock))

unfoldable pub wake_target_for : Unicode → Text → Config → Result (Option WakeTarget)
wake_target_for u mac c = do
  wanted ← normalize_mac u mac
  ok (find (λ t. text_eq t.mac wanted) c.wake_targets)

-- no two targets have one MAC
abbrev pub IsDistinct : List WakeTarget → Type 0
IsDistinct [] = Unit
IsDistinct (t ∷ ts) = (any (λ (x : WakeTarget). text_eq x.mac t.mac) ts ≡ false) × IsDistinct ts

not_seen :
    (mac : Text) (seen : List Text) (ts : List WakeTarget)
    → any (text_eq mac) seen ≡ true
    → is_duplicated seen ts ≡ false
    → any (λ (x : WakeTarget). text_eq x.mac mac) ts ≡ false
unfolding is_duplicated
not_seen mac seen [] h d = refl
not_seen mac seen (t ∷ ts) h d =
    ground (arith, not_seen mac (t.mac ∷ seen) ts, text_eq_iff t.mac mac, text_eq_iff mac t.mac)

pub is_duplicated-IsDistinct :
    (seen : List Text) (ts : List WakeTarget) → is_duplicated seen ts ≡ false → IsDistinct ts
unfolding is_duplicated
is_duplicated-IsDistinct seen [] d = tt
is_duplicated-IsDistinct seen (t ∷ ts) d =
    let rest : is_duplicated (t.mac ∷ seen) ts ≡ false = ground arith in
    (
      not_seen t.mac (t.mac ∷ seen) ts (rw (text_eq_refl t.mac)) rest,
      is_duplicated-IsDistinct (t.mac ∷ seen) ts rest,
    )
