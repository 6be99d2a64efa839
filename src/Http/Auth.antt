-- ===== src/Http/Auth.antt =====
-- pc-service/src/wol_unlock/http/middleware.py: the network, rate-limit and authentication
-- middlewares.
pub mod Admission
pub mod Replay
pub mod Reopened
use pc_helper_ios.Prelude.{
  ℕ, zero, suc, ◌+◌, ◌-◌, ◌*◌, ◌/◌, ◌%◌, ◌^◌, ◌≤◌, ◌<◌, min, max, String, ◌≡◌, refl, sym, ap, ◌∙◌,
  subst, fun_ext, ◌≢◌, ◌↔◌, ◌⊎◌, inl, inr, Bool, true, false, ◌&&◌, ◌||◌, not, Option, none, some,
  List, [], ◌∷◌, ◌++◌, map, reverse, arith, ltb, leb, ◌==◌, if◌then◌else◌, ltb→lt, lt→ltb, leb→le,
  le→leb, ==_iff, Bool-cases, Option-cases, is_some, length, take, drop, keep, any, all, find,
  length-append, length-keep-le, length-drop, insert_by, sort_by, length-sort_by, All, All-append,
  All-keep, Text, codes, text_eq, text_eq_refl, text_eq_iff,
}
use pc_helper_ios.Errors
use pc_helper_ios.Errors.{
  ErrorCode, Exc, api, Result, ok, err, bad_request, forbidden_network, unknown_device,
  device_revoked, rate_limited, replayed_nonce,
}
use pc_helper_ios.Action.{Action, pure, throw, fail, lift, require, ◌>>=◌, ◌>>◌}
use pc_helper_ios.Config.Address.{allows}
use pc_helper_ios.Crypto.Verify.{
  SignedRequestHeaders, parse_auth_headers, check_timestamp, verify_request_signature,
}
use pc_helper_ios.RateLimit.{Buckets, allow}
use pc_helper_ios.Store.{Store, call}
use pc_helper_ios.Store.Statements.{
  Device, Tables, revoked, get_device, consume_nonce, touch_device,
}
use pc_helper_ios.Http.Request.{
  Request, Clocks, Context, World, requires_auth, peer_ip, matched, is_matched,
}

-- a method of the store, in the world
abbrev pub in_store : {A : Type 0} → Action Store A → Action World A
in_store m w = let (r, store) = m w.store in (r, record w { store = store })

-- `request[KEY_DEVICE] = device`
abbrev pub remember : Device → Action World (Unit {0})
remember d w = (ok tt, record w { device = some d })

abbrev pub fits : Option ℕ → ℕ → Bool
fits none most = true
fits (some n) most = leb n most

abbrev pub found_device : Option Device → Action World Device
found_device none = fail unknown_device
found_device (some d) = if revoked d then fail device_revoked else pure d

module _ (ctx : Context) where
  -- one token for a key
  unfoldable pub take_token : Text → ℕ → Action World (Unit {0})
  take_token key ticks w =
      let (allowed, buckets) = allow ctx.limits key ctx.token ticks w.buckets in
      require allowed rate_limited (record w { buckets = buckets })

  unfoldable pub ratelimit : Request → Clocks → Action World (Unit {0})
  unfolding take_token
  ratelimit r c = take_token (codes "ip:" ++ peer_ip r) c.ip_ticks

  unfoldable pub network : Request → Action World (Unit {0})
  network r = require (allows ctx.ip_address ctx.networks (peer_ip r)) forbidden_network

  -- the part that reads no state, and the device
  unfoldable pub identify : Request → Action World (SignedRequestHeaders × Device)
  identify r = do
    require (length r.query_string == 0) bad_request
    headers ← lift (parse_auth_headers ctx.unicode r.headers)
    require (fits r.content_length ctx.max_body_bytes) bad_request
    row ← in_store (call (λ t. (ok (get_device headers.device_id t), t)))
    device ← found_device row
    pure (headers, device)

  -- the clock, the body, and the signature over what was received
  unfoldable pub verify : Request → Clocks → SignedRequestHeaders → Device → Result (Unit {0})
  verify r c headers device = Errors.◌>>◌ (check_timestamp headers.timestamp c.now ctx.skew) (
      Errors.◌>>=◌ r.received λ body.
        if ltb ctx.max_body_bytes (length body)
        then err (api (Errors.api_error bad_request))
        else verify_request_signature ctx.unicode ctx.primitives device.pubkey r.method r.path
            headers.timestamp headers.nonce body device.device_id ctx.fingerprint headers.signature
            none)

  -- the nonce is spent only now
  unfoldable pub spend_nonce : Clocks → SignedRequestHeaders → Device → Action World (Unit {0})
  spend_nonce c headers device = do
    fresh ← in_store (
        call (λ t.
          let (b, t') = consume_nonce device.device_id headers.nonce (c.now + 2 * ctx.skew) t in
          (ok b, t')))
    require fresh replayed_nonce
    remember device
    in_store (call (λ t. (ok tt, touch_device device.device_id c.now t)))

  unfoldable pub authenticate : Request → Clocks → Action World Device
  unfolding identify verify spend_nonce take_token
  authenticate r c = do
    (headers, device) ← identify r
    take_token (codes "dev:" ++ device.device_id) c.device_ticks
    lift (verify r c headers device)
    spend_nonce c headers device
    pure device

  module _ {A : Type 0} (handler : Request → Option Device → Action World A) where
    unfoldable pub auth : Request → Clocks → Action World A
    unfolding authenticate
    auth r c =
        if requires_auth r
        then (do device ← authenticate r c; handler r (some device))
        else handler r none

    -- the chain inside the envelope, outermost first
    unfoldable pub chain : Request → Clocks → Action World A
    unfolding network ratelimit auth
    chain r c = do network r; ratelimit r c; auth r c
