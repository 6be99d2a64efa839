-- ===== src/Http/Auth/Admission.antt =====
-- What holds of a request that passed the authentication middleware.
use pc_helper_ios.Prelude.{
  ℕ, ◌+◌, ◌*◌, ◌≤◌, ◌≡◌, refl, sym, ap, ◌∙◌, subst, inl, inr, true, false, Option, none, some, [],
  ◌∷◌, ◌++◌, arith, ltb, ◌==◌, Bool-cases, length, Text, codes,
}
use pc_helper_ios.Errors
use pc_helper_ios.Errors.{
  ErrorCode, Exc, api, Result, ok, err, bad_request, unknown_device, device_revoked, rate_limited,
  replayed_nonce, >>=-eq-ok,
}
use pc_helper_ios.Action.{
  Action, ◌>>=◌, ◌>>◌, >>=-returned, returned-injective, require_then, lift_then,
}
use pc_helper_ios.Crypto.Canonical.{canonical_request, sha256_b64u}
use pc_helper_ios.Crypto.Verify.{SignedRequestHeaders, parse_auth_headers, check_timestamp}
use pc_helper_ios.Crypto.Verify.Laws.{check_timestamp_iff, verify_request_signature-ok}
use pc_helper_ios.RateLimit.{allow}
use pc_helper_ios.Store.{Store, call}
use pc_helper_ios.Store.Statements.{
  Device, Tables, revoked, get_device, consume_nonce, touch_device,
}
use pc_helper_ios.Http.Request.{Request, Clocks, Context, World}
use pc_helper_ios.Http.Auth.{
  in_store, fits, found_device, take_token, identify, verify, spend_nonce, authenticate,
}

in_store-returned :
    {A : Type 0} (op : Tables → Result A × Tables) (w : World) {a : A} {w' : World}
    → in_store (call op) w ≡ (ok a, w')
    → ((op w.store.tables).0 ≡ ok a) × (w'.store.tables ≡ (op w.store.tables).1)
in_store-returned op w h = ground arith

-- a statement that returned ran on an open store, and gave its tables back
in_store_then :
    {A B : Type 0} (op : Tables → Result A × Tables) (k : A → Action World B) (w : World) {x : B}
    {t : World}
    → (in_store (call op) >>= k) w ≡ (ok x, t)
    → (a : A) × (w' : World) × ((op w.store.tables).0 ≡ ok a)
      × (w'.store.tables ≡ (op w.store.tables).1)
      × (k a w' ≡ (ok x, t))
in_store_then op k w h =
    let (a, w', ran, rest) = >>=-returned (in_store (call op)) k w h in
    (a, w', ground arith, ground arith, rest)

found_device_then :
    {B : Type 0} (row : Option Device) (k : Device → Action World B) (w : World) {x : B} {t : World}
    → (found_device row >>= k) w ≡ (ok x, t)
    → (d : Device) × (row ≡ some d) × (revoked d ≡ false) × (k d w ≡ (ok x, t))
found_device_then none k w h = cc
found_device_then (some d) k w h = elim (Bool-cases (revoked d)) [
  | inl gone ↦ absurd (ground (arith, gone))
  | inr there ↦ (d, refl, there, rw there at h)
]

module _ (ctx : Context) where
  take_token_then :
      {B : Type 0} (key : Text) (ticks : ℕ) (k : Action World B) (w : World) {x : B} {t : World}
      → (take_token ctx key ticks >> k) w ≡ (ok x, t)
      → (w' : World) × (w'.store ≡ w.store) × (k w' ≡ (ok x, t))
  unfolding take_token
  take_token_then key ticks k w h =
      let (_, rest) =
        require_then (allow ctx.limits key ctx.token ticks w.buckets).0 rate_limited k _ h in
      (_, refl, rest)

  -- The headers, the row, and the body of a request that passed, and what was checked of them.
  pub record IsAdmitted (r : Request) (c : Clocks) (t : Tables) (d : Device) : Type 0 where
    pub headers : SignedRequestHeaders
    pub body : Text
    pub message : Text
    pub no_query : r.query_string ≡ []
    pub parsed : parse_auth_headers ctx.unicode r.headers ≡ ok headers
    pub enrolled : get_device headers.device_id t ≡ some d
    pub trusted : revoked d ≡ false
    pub recent : (headers.timestamp ≤ c.now + ctx.skew) × (c.now ≤ headers.timestamp + ctx.skew)
    pub read : r.received ≡ ok body
    pub bounded : length body ≤ ctx.max_body_bytes
    pub built :
        canonical_request ctx.unicode r.method r.path headers.timestamp headers.nonce
          (sha256_b64u ctx.primitives.sha256 body)
          d.device_id
          ctx.fingerprint
        ≡ ok message
    pub signed : ctx.primitives.verifies d.pubkey headers.signature message ≡ true
    pub fresh : (consume_nonce d.device_id headers.nonce (c.now + 2 * ctx.skew) t).0 ≡ true

  empty_of_length : (s : Text) → (length s == 0) ≡ true → s ≡ []
  empty_of_length [] h = refl
  empty_of_length (x ∷ s) h = ground arith

  record IsIdentified (r : Request) (t : Tables) (headers : SignedRequestHeaders) (d : Device)
      : Type 0 where
    no_query : r.query_string ≡ []
    parsed : parse_auth_headers ctx.unicode r.headers ≡ ok headers
    enrolled : get_device headers.device_id t ≡ some d
    trusted : revoked d ≡ false

  module _ (r : Request) (c : Clocks) where
    identify_then :
        {B : Type 0} (k : SignedRequestHeaders × Device → Action World B) (w : World) {x : B}
        {t : World}
        → (identify ctx r >>= k) w ≡ (ok x, t)
        → (headers : SignedRequestHeaders) × (d : Device) × (w' : World) × IsIdentified r
            w.store.tables headers d
          × (w'.store.tables ≡ w.store.tables)
          × (k (headers, d) w' ≡ (ok x, t))
    unfolding identify
    identify_then k w h =
        let (pair, w1, h0, rest) = >>=-returned (identify ctx r) k w h in
        let (empty, h1) = require_then (length r.query_string == 0) bad_request _ w h0 in
        let (headers, parsed, h2) = lift_then (parse_auth_headers ctx.unicode r.headers) _ w h1 in
        let (_, h3) = require_then (fits r.content_length ctx.max_body_bytes) bad_request _ w h2 in
        let (row, w2, got, same, h4) =
          in_store_then (λ t. (ok (get_device headers.device_id t), t)) _ w h3 in
        let (d, found, trusted, h5) = found_device_then row _ w2 h4 in
        let (e, f) = returned-injective h5 in
        (
          headers,
          d,
          w1,
          record {
            no_query = empty_of_length r.query_string empty;
            parsed = parsed;
            enrolled = Errors.ok-injective got ∙ found;
            trusted = trusted;
          },
          ap (λ (x : World). x.store.tables) (sym f) ∙ same,
          rw e rest,
        )

    record IsVerified (headers : SignedRequestHeaders) (d : Device) : Type 0 where
      body : Text
      message : Text
      recent : (headers.timestamp ≤ c.now + ctx.skew) × (c.now ≤ headers.timestamp + ctx.skew)
      read : r.received ≡ ok body
      bounded : length body ≤ ctx.max_body_bytes
      built :
          canonical_request ctx.unicode r.method r.path headers.timestamp headers.nonce
            (sha256_b64u ctx.primitives.sha256 body)
            d.device_id
            ctx.fingerprint
          ≡ ok message
      signed : ctx.primitives.verifies d.pubkey headers.signature message ≡ true

    verify-IsVerified :
        (headers : SignedRequestHeaders) (d : Device)
        → verify ctx r c headers d ≡ ok tt
        → IsVerified headers d
    unfolding verify
    verify-IsVerified headers d h =
        let (_, on_time, h1) = >>=-eq-ok (check_timestamp headers.timestamp c.now ctx.skew) _ h in
        let (body, read, h2) = >>=-eq-ok r.received _ h1 in
        elim (Bool-cases (ltb ctx.max_body_bytes (length body))) [
          | inl long ↦ absurd (ground (arith, h2))
          | inr fits ↦
              let (message, built, signed) =
                verify_request_signature-ok ctx.unicode ctx.primitives d.pubkey r.method r.path
                  headers.timestamp headers.nonce body d.device_id ctx.fingerprint headers.signature
                  (rw fits at h2) in
              record {
                body = body;
                message = message;
                recent = (check_timestamp_iff headers.timestamp c.now ctx.skew).0 on_time;
                read = read;
                bounded = ground arith;
                built = built;
                signed = signed;
              }
        ]

    spend_nonce_then :
        {B : Type 0} (headers : SignedRequestHeaders) (d : Device) (k : Action World B) (w : World)
        {x : B} {t : World}
        → (spend_nonce ctx c headers d >> k) w ≡ (ok x, t)
        → (w' : World) × ((consume_nonce d.device_id headers.nonce
              (c.now + 2 * ctx.skew)
              w.store.tables).0
            ≡ true)
          × (w'.store.tables
              ≡ touch_device d.device_id c.now
                  (consume_nonce d.device_id headers.nonce (c.now + 2 * ctx.skew) w.store.tables).1)
          × (k w' ≡ (ok x, t))
    unfolding spend_nonce
    spend_nonce_then headers d k w h =
        let (_, w1, h0, rest) = >>=-returned (spend_nonce ctx c headers d) (λ _. k) w h in
        let (fresh, w2, spent, t2, h1) =
          in_store_then
            (λ t.
              let (b, t') = consume_nonce d.device_id headers.nonce (c.now + 2 * ctx.skew) t in
              (ok b, t'))
            _ w h0 in
        let (yes_fresh, h2) = require_then fresh replayed_nonce _ w2 h1 in
        let (_, touched) =
          in_store-returned {A = Unit {0}} (λ t. (ok tt, touch_device d.device_id c.now t))
            (record w2 { device = some d }) h2 in
        (
          w1,
          Errors.ok-injective spent ∙ yes_fresh,
          touched ∙ ap (touch_device d.device_id c.now) t2,
          rest,
        )

    -- A request that is authenticated was identified, is recent, was signed by the device's key
    -- over what was received, and spent a nonce that was fresh.
    pub authenticate-IsAdmitted :
        (w : World) (d : Device) (w' : World)
        → authenticate ctx r c w ≡ (ok d, w')
        → (a : IsAdmitted r c w.store.tables d) × (w'.store.tables
            ≡ touch_device d.device_id c.now
                (consume_nonce d.device_id a.headers.nonce (c.now + 2 * ctx.skew) w.store.tables).1)
    unfolding authenticate
    authenticate-IsAdmitted w d w' h =
        let (headers, d0, w1, who, t1, h1) = identify_then _ w h in
        let (w2, t2, h2) = take_token_then (codes "dev:" ++ d0.device_id) c.device_ticks _ w1 h1 in
        let (_, valid, h3) = lift_then (verify ctx r c headers d0) _ w2 h2 in
        let (w3, fresh, t3, h4) = spend_nonce_then headers d0 _ w2 h3 in
        let (same, end) = returned-injective h4 in
        let v = verify-IsVerified headers d0 valid in
        let tables : w2.store.tables ≡ w.store.tables = ap (λ (x : Store). x.tables) t2 ∙ t1 in
        let q = λ (x : Device) (t : Tables).
          (consume_nonce x.device_id headers.nonce (c.now + 2 * ctx.skew) t) in
        subst
          (λ (x : Device).
            (a : IsAdmitted r c w.store.tables x) × (w'.store.tables
              ≡ touch_device x.device_id c.now
                  (consume_nonce x.device_id a.headers.nonce (c.now + 2 * ctx.skew)
                    w.store.tables).1))
          same
          (
            record {
              headers = headers;
              body = v.body;
              message = v.message;
              no_query = who.no_query;
              parsed = who.parsed;
              enrolled = who.enrolled;
              trusted = who.trusted;
              recent = v.recent;
              read = v.read;
              bounded = v.bounded;
              built = v.built;
              signed = v.signed;
              fresh = subst (λ t. (q d0 t).0 ≡ true) tables fresh;
            },
            ap (λ (x : World). x.store.tables) (sym end)
                ∙ t3
                ∙ ap (λ t. touch_device d0.device_id c.now (q d0 t).1) tables,
          )
