-- ===== src/Wake.antt =====
-- pc-service/src/wol_unlock/wake.py: the magic packet, and the fan-out to several targets. The
-- socket is a parameter: it answers the bytes that it sent, or none for an OSError.
pub mod Targets
pub mod Packet
use pc_helper_ios.Prelude.{
  ℕ, zero, suc, ◌+◌, ◌-◌, ◌*◌, ◌/◌, ◌%◌, ◌^◌, ◌≤◌, ◌<◌, min, max, String, ◌≡◌, refl, sym, ap, ◌∙◌,
  subst, fun_ext, ◌≢◌, ◌↔◌, ◌⊎◌, inl, inr, Bool, true, false, ◌&&◌, ◌||◌, not, Option, none, some,
  List, [], ◌∷◌, ◌++◌, map, reverse, arith, ltb, leb, ◌==◌, if◌then◌else◌, ltb→lt, lt→ltb, leb→le,
  le→leb, ==_iff, Bool-cases, Option-cases, is_some, length, take, drop, keep, any, all, find,
  length-append, length-keep-le, length-drop, insert_by, sort_by, length-sort_by, All, All-append,
  All-keep, Text, codes, text_eq, text_eq_refl, text_eq_iff,
}
use pc_helper_ios.Errors.{
  Result, ok, err, api, value_error, ◌>>=◌, raise, wake_failed, >>=-eq-ok, ok-injective,
}
use pc_helper_ios.Unicode.{Unicode, to_lower}
use pc_helper_ios.Config.Mac.{is_hex, normalize_mac, without}
use pc_helper_ios.Config.Sections.{WakeTarget}

abbrev pub magic_prefix : Text
magic_prefix = 255 ∷ 255 ∷ 255 ∷ 255 ∷ 255 ∷ 255 ∷ []

abbrev pub mac_repeat : ℕ
mac_repeat = 16

-- the value of a hexadecimal digit
unfoldable pub hex_value : ℕ → ℕ
hex_value c = if ltb c 58 then c - 48 else c - 87

-- `bytes.fromhex` of hexadecimal digits: an odd digit is a ValueError
unfoldable pub from_hex : Text → Result Text
unfolding hex_value
from_hex [] = ok []
from_hex (a ∷ []) = err value_error
from_hex (a ∷ b ∷ s) = do
  bytes ← from_hex s
  if is_hex a && is_hex b then ok ((hex_value a * 16 + hex_value b) ∷ bytes) else err value_error

unfoldable pub repeat : ℕ → Text → Text
repeat zero s = []
repeat (suc n) s = s ++ repeat n s

module _ (u : Unicode) where
  -- an empty password is none
  unfoldable pub secureon_bytes : Option Text → Result Text
  unfolding from_hex
  secureon_bytes none = ok []
  secureon_bytes (some []) = ok []
  secureon_bytes (some (c ∷ s)) =
      let cleaned = to_lower u (without b'-' (without b':' (c ∷ s))) in
      if length cleaned == 12 then from_hex cleaned else err value_error

  unfoldable pub build_magic_packet : Text → Option Text → Result Text
  unfolding secureon_bytes repeat from_hex
  build_magic_packet mac secureon = do
    normal ← normalize_mac u mac
    mac_bytes ← from_hex (without b':' normal)
    password ← secureon_bytes secureon
    ok (magic_prefix ++ repeat mac_repeat mac_bytes ++ password)

pub record WakeSendResult : Type 0 where
  pub mac : Text
  pub bytes_sent : ℕ

abbrev pub sent_to : WakeTarget → Option ℕ → Result WakeSendResult
sent_to t none = raise wake_failed
sent_to t (some n) = ok (record { mac = t.mac; bytes_sent = n })

-- an `ApiError` is noted, anything else goes on
abbrev pub collected :
    Result WakeSendResult → Result (List WakeSendResult) → Result (List WakeSendResult)
collected (ok a) rest = do more ← rest; ok (a ∷ more)
collected (err (api e)) rest = rest
collected (err x) rest = err x

module _ (send : Text → WakeTarget → Option ℕ) (u : Unicode) where
  unfoldable pub send_to_target : WakeTarget → Result WakeSendResult
  unfolding build_magic_packet
  send_to_target t = do packet ← build_magic_packet u t.mac t.secureon; sent_to t (send packet t)

  unfoldable pub send_all : List WakeTarget → Result (List WakeSendResult)
  unfolding send_to_target
  send_all [] = ok []
  send_all (t ∷ ts) = collected (send_to_target t) (send_all ts)

  unfoldable pub send_to_targets : List WakeTarget → Result (List WakeSendResult)
  unfolding send_all
  send_to_targets [] = raise wake_failed
  send_to_targets (t ∷ ts) = do
    results ← send_all (t ∷ ts)
    if length results == 0 then raise wake_failed else ok results
