-- ===== src/Http/Info.antt =====
-- pc-service/src/wol_unlock/http/handlers.py: the server-info, pair and status handlers;
-- http/server.py: the routes.
pub mod Pair
use pc_helper_ios.Prelude.{
  ℕ, zero, suc, ◌+◌, ◌-◌, ◌*◌, ◌/◌, ◌%◌, ◌^◌, ◌≤◌, ◌<◌, min, max, String, ◌≡◌, refl, sym, ap, ◌∙◌,
  subst, fun_ext, ◌≢◌, ◌↔◌, ◌⊎◌, inl, inr, Bool, true, false, ◌&&◌, ◌||◌, not, Option, none, some,
  List, [], ◌∷◌, ◌++◌, map, reverse, arith, ltb, leb, ◌==◌, if◌then◌else◌, ltb→lt, lt→ltb, leb→le,
  le→leb, ==_iff, Bool-cases, Option-cases, is_some, length, take, drop, keep, any, all, find,
  length-append, length-keep-le, length-drop, insert_by, sort_by, length-sort_by, All, All-append,
  All-keep, Text, codes, text_eq, text_eq_refl, text_eq_iff, or_text, join_by,
}
use pc_helper_ios.Errors.{Result, ok, err, raise, bad_request, runtime_error, ◌>>=◌, ◌>>◌}
use pc_helper_ios.Unicode.{Unicode}
use pc_helper_ios.Value.{pos, Value, integer, boolean, other, get}
use pc_helper_ios.Config.Sections.{WakeTarget, Config}
use pc_helper_ios.Config.Load.{capabilities}
use pc_helper_ios.Context.{ServerInfo, server_info, uptime_s}
use pc_helper_ios.Crypto.Verify.{Primitives}
use pc_helper_ios.Http.Handlers.{json_body, optional_str, require_str}
use pc_helper_ios.Http.Request.{is_public, server_info_path, pair_path}
use pc_helper_ios.Netif.{Kernel}
use pc_helper_ios.Pairing.Manager.{Settings, System}
use pc_helper_ios.Pairing.Status.{Snapshot, snapshot}
use pc_helper_ios.Pairing.Submit.{Attempt, Outcome, failed, submit}
use pc_helper_ios.Session.{SessionInfo, Logind}
use pc_helper_ios.Session.Target.{current_session}
use pc_helper_ios.Store.Statements.{Device}
use pc_helper_ios.Wake.Targets.{TargetInfo, describe_targets}

-- `version != 1`, for the numbers that Python has equal to one; `float_one` says it of a number
-- that is no integer
abbrev is_one : (float_one : Value → Bool) → Option Value → Bool
is_one float_one none = true
is_one float_one (some (integer (pos n))) = n == 1
is_one float_one (some (boolean b)) = b
is_one float_one (some (other b)) = float_one (other b)
is_one float_one (some v) = false

abbrev supported : Bool → Result (Unit {0})
supported true = ok tt
supported false = raise bad_request

module _ (loads : Text → Option Value) (float_one : Value → Bool) where
  -- what the pair handler reads of the body
  unfoldable pub attempt_of : (body : Text) → Result Attempt
  unfolding json_body optional_str require_str
  attempt_of body = do
    fs ← json_body loads false body
    supported (is_one float_one (get (codes "v") fs))
    code ← require_str fs (codes "code") 32
    device_pubkey ← require_str fs (codes "device_pubkey") 64
    proof ← require_str fs (codes "proof") 128
    device_name ← optional_str fs (codes "device_name")
    platform ← optional_str fs (codes "platform")
    ok (record {
      code = code;
      device_pubkey = device_pubkey;
      proof = proof;
      device_name = or_text device_name (codes "Unnamed device");
      platform = or_text platform [];
    })

  abbrev pub submitted :
      Unicode → Primitives → Settings → Result Attempt → (now wall : ℕ) → System → Outcome × System
  submitted u p cfg (err x) now wall s = (failed x, s)
  submitted u p cfg (ok a) now wall s = submit u p cfg a now wall s

  -- `pair`, until its submission ends or waits for the operator
  unfoldable pub pair :
      Unicode → Primitives → Settings → (body : Text) → (now wall : ℕ) → System → Outcome × System
  unfolding attempt_of submit
  pair u p cfg body now wall s = submitted u p cfg (attempt_of body) now wall s

-- the answer to a phone that was enrolled
pub record WakeHint : Type 0 where
  pub macs : List Text
  pub broadcast : Text
  pub port : ℕ

pub record Enrolled : Type 0 where
  pub device_id : Text
  pub server_pubkey : Text
  pub server_fp : Text
  pub name : Text
  pub api : ℕ
  pub caps : List Text
  pub wake : Option WakeHint

abbrev wake_hint : List WakeTarget → Option WakeHint
wake_hint [] = none
wake_hint (t ∷ ts) = some (record {
  macs = map (λ (x : WakeTarget). x.mac) (t ∷ ts);
  broadcast = t.broadcast;
  port = t.port;
})

unfoldable pub enrolled : Config → (server_pubkey server_fp : Text) → Device → Enrolled
unfolding capabilities
enrolled c server_pubkey server_fp d = record {
  device_id = d.device_id;
  server_pubkey = server_pubkey;
  server_fp = server_fp;
  name = c.name;
  api = 1;
  caps = capabilities c;
  wake = wake_hint c.wake_targets;
}

pub record StatusInfo : Type 0 where
  pub server : ServerInfo
  pub uptime_s : ℕ
  pub session : Option SessionInfo
  pub wake_targets : List TargetInfo
  pub pairing : Snapshot

abbrev with_session {ℓ} : {A B : Type ℓ} {S : Type 0} → (A → B) → Result A × S → Result B × S
with_session f (ok a, s) = (ok (f a), s)
with_session f (err x, s) = (err x, s)

-- `status`, of the session that is found
unfoldable pub status :
    {S : Type 0}
    → Logind S
    → Kernel
    → Config
    → (server_fp : Text) → (started_at now : ℕ) → System
    → S
    → Result StatusInfo × S
unfolding current_session server_info describe_targets snapshot
status l k c server_fp started_at now s machine =
    with_session
      (λ session.
        (let i : StatusInfo = record {
          server = server_info c server_fp s.manager;
          uptime_s = uptime_s started_at now;
          session = session;
          wake_targets = describe_targets k c.wake_targets;
          pairing = snapshot now s.manager;
        } in
          i))
      (current_session l machine)

-- the handlers, with whether each is annotated as @signed
pub data Handler : Type 0 where
  server_info_handler pair_handler status_handler wake_handler unlock_handler : Handler

abbrev pub is_signed : Handler → Bool
is_signed server_info_handler = false
is_signed pair_handler = false
is_signed status_handler = true
is_signed wake_handler = true
is_signed unlock_handler = true

pub record Route : Type 0 where
  pub method : Text
  pub path : Text
  pub handler : Handler

abbrev route : Text → Text → Handler → Route
route method path handler = record { method = method; path = path; handler = handler }

-- ROUTES
abbrev pub routes : List Route
routes =
    route (codes "GET") server_info_path server_info_handler
    ∷ route (codes "POST") pair_path pair_handler
    ∷ route (codes "GET") (codes "/v1/status") status_handler
    ∷ route (codes "POST") (codes "/v1/wake") wake_handler
    ∷ route (codes "POST") (codes "/v1/unlock") unlock_handler
    ∷ []

abbrev same : Bool → Bool → Bool
same true b = b
same false b = not b

-- `_assert_auth_annotations_agree`
unfoldable pub assert_annotations_agree : List Route → Result (Unit {0})
unfolding is_public
assert_annotations_agree [] = ok tt
assert_annotations_agree (r ∷ rs) =
    let rest = assert_annotations_agree rs in
    if same (is_signed r.handler) (not (is_public r.path)) then rest else err runtime_error

annotations_agree : assert_annotations_agree routes ≡ ok tt
unfolding assert_annotations_agree text_eq
annotations_agree = refl
