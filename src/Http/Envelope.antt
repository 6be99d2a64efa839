-- ===== src/Http/Envelope.antt =====
-- pc-service/src/wol_unlock/http/middleware.py: the envelope middleware, which turns whatever
-- happened into a signed answer, and the audit row of a request. `json.dumps` is a parameter, and so
-- is the message of an error.
use pc_helper_ios.Prelude.{
  ℕ, ◌+◌, ◌≡◌, refl, sym, ◌⊎◌, inl, inr, ◌&&◌, ◌||◌, not, Option, none, some, [], ◌∷◌, ◌++◌, arith,
  ltb, leb, ◌==◌, if◌then◌else◌, Bool-cases, length, Text, codes, text_eq,
}
use pc_helper_ios.Errors.{
  ErrorCode, ApiError, api_error, Exc, api, http, value_error, config_error, runtime_error,
  integrity_error, os_error, Result, ok, err, ◌>>=◌, bad_request, internal_error,
}
use pc_helper_ios.Unicode.{Unicode, strip}
use pc_helper_ios.Crypto.Base64.{b64u_encode, b64u_decode}
use pc_helper_ios.Crypto.Base64.RoundTrip.{b64u_decode_canonical}
use pc_helper_ios.Crypto.Canonical.{nonce_chars, nonce_bytes, canonical_response, sha256_b64u}
use pc_helper_ios.Crypto.Verify.{header_nonce}
use pc_helper_ios.Crypto.Verify.Laws.{IsId}
use pc_helper_ios.Store.{call}
use pc_helper_ios.Store.Statements.{Device, add_audit}
use pc_helper_ios.Http.Request.{
  Request, Clocks, Context, World, or_empty, peer_ip, server_info_path,
}

abbrev pub if_ok : Result Text → Text → Text
if_ok (ok raw) value = value
if_ok (err x) value = []

-- `_extract_nonce_echo`
unfoldable pub nonce_echo : Unicode → Request → Text
nonce_echo u r =
    let value = strip u (or_empty (r.headers header_nonce)) in
    if length value == nonce_chars then if_ok (b64u_decode value (some nonce_bytes)) value else []

-- `_map_http_exception`
unfoldable pub map_http_exception : ℕ → ApiError
map_http_exception status =
    if leb 400 status && ltb status 500
    then record { code = bad_request; status = status }
    else record { code = internal_error; status = status }

-- the error that an exception is answered with
unfoldable pub error_of : Exc → ApiError
unfolding map_http_exception
error_of (api e) = e
error_of (http status) = map_http_exception status
error_of value_error = api_error internal_error
error_of config_error = api_error internal_error
error_of runtime_error = api_error internal_error
error_of integrity_error = api_error internal_error
error_of os_error = api_error internal_error

pub data Payload (A : Type 0) : Type 0 where
  success : (ts : ℕ) → A → Payload A
  failure : (ts : ℕ) → ApiError → Payload A

pub record Response : Type 0 where
  pub status : ℕ
  pub body : Text
  pub server_signature : Text
  pub server_fp : Text

abbrev pub payload_of : {A : Type 0} → ℕ → Result A → Payload A
payload_of ts (ok a) = success ts a
payload_of ts (err x) = failure ts (error_of x)

abbrev pub status_of : {A : Type 0} → Result A → ℕ
status_of (ok a) = 200
status_of (err x) = (error_of x).status

module _ {A : Type 0} (dumps : Payload A → Text) (ctx : Context) where
  -- the response, signed over its status, the echoed nonce and the hash of its body
  unfoldable pub respond : Request → Clocks → Result A → Result Response
  unfolding error_of nonce_echo
  respond r c result = do
    let body = dumps (payload_of c.done result)
    message ←
        canonical_response (status_of result) (nonce_echo ctx.unicode r)
          (sha256_b64u ctx.primitives.sha256 body) ctx.fingerprint
    ok (record {
      status = status_of result;
      body = body;
      server_signature = b64u_encode (ctx.sign message);
      server_fp = ctx.fingerprint;
    })

-- the last word of an audit row: "ok", or the error's code
abbrev pub result_text : {A : Type 0} → (ErrorCode → Text) → Result A → Text
result_text name (ok a) = codes "ok"
result_text name (err x) = name (error_of x).code

abbrev pub detail_of : {A : Type 0} → (Exc → Text) → Result A → Option Text
detail_of message (ok a) = none
detail_of message (err x) = some (message x)

abbrev pub device_id_of : Option Device → Option Text
device_id_of none = none
device_id_of (some d) = some d.device_id

-- `_audit`: a statement that raises is passed over
module _ {A : Type 0} (name : ErrorCode → Text) (message : Exc → Text) where
  unfoldable pub audit : Request → Clocks → Result A → World → World
  unfolding error_of
  audit r c result w =
      let action = r.method ++ 32 ∷ r.path in
      let store =
        (call {A = Unit {0}}
          (λ t. (
            ok tt,
            add_audit c.done action (result_text name result) (device_id_of w.device)
                (some (peer_ip r)) (detail_of message result) t,
          ))
          w.store).1 in
      if text_eq r.path server_info_path || text_eq r.path (codes "/")
      then w
      else record w { store = store }

  -- A request leaves one more audit row if the store is open and its path is neither
  -- /v1/server-info nor /, and none otherwise; the devices and the nonces stay.
  pub audit_rows :
      (r : Request) (c : Clocks) (result : Result A) (w : World)
      → let t = w.store.tables in
        let t' = (audit r c result w).store.tables in
        (t'.devices ≡ t.devices)
        × (t'.nonces ≡ t.nonces)
        × (length t'.audit
            ≡ length t.audit
              + (if w.store.connected
                    && not (text_eq r.path server_info_path || text_eq r.path (codes "/"))
                  then 1
                  else 0))
  unfolding audit add_audit
  audit_rows r c result w = ground arith

-- The echoed nonce is empty or the one spelling of 16 bytes.
pub nonce_echo-IsId : (u : Unicode) (r : Request) → (nonce_echo u r ≡ []) ⊎ IsId 16 (nonce_echo u r)
unfolding nonce_echo
nonce_echo-IsId u r = go (strip u (or_empty (r.headers header_nonce)))
  where
    checked :
        (value : Text) (found : Result Text)
        → found ≡ b64u_decode value (some nonce_bytes)
        → (if_ok found value ≡ []) ⊎ IsId 16 (if_ok found value)
    checked value (err x) e = inl refl
    checked value (ok raw) e =
        let (spelling, count) = b64u_decode_canonical value nonce_bytes raw (sym e) in
        inr (record { raw = raw; encoded = spelling; count = count })

    go :
        (value : Text)
        → let echo =
            if length value == nonce_chars
            then if_ok (b64u_decode value (some nonce_bytes)) value
            else [] in
          (echo ≡ []) ⊎ IsId 16 echo
    go value = elim (Bool-cases (length value == nonce_chars)) [
      | inl long ↦ rw long (checked value (b64u_decode value (some nonce_bytes)) refl)
      | inr other ↦ rw other (inl refl)
    ]
