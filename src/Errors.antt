-- ===== src/Errors.antt =====
-- pc-service/src/wol_unlock/errors.py: the error codes with their HTTP statuses, and the
-- exceptions that the other modules raise. The message of an error is left out: it is for people.
use pc_helper_ios.Prelude.{ℕ, ◌≡◌, refl}

pub data ErrorCode : Type 0 where
  bad_request forbidden_network unknown_device device_revoked timestamp_out_of_window : ErrorCode
  replayed_nonce body_hash_mismatch invalid_signature rate_limited pairing_disabled : ErrorCode
  invalid_code pairing_expired pairing_denied pairing_timeout no_session unlock_failed : ErrorCode
  wake_failed not_allowed internal_error : ErrorCode

-- ERROR_STATUS
abbrev pub error_status : ErrorCode → ℕ
error_status bad_request = 400
error_status forbidden_network = 403
error_status unknown_device = 401
error_status device_revoked = 403
error_status timestamp_out_of_window = 401
error_status replayed_nonce = 401
error_status body_hash_mismatch = 401
error_status invalid_signature = 401
error_status rate_limited = 429
error_status pairing_disabled = 409
error_status invalid_code = 401
error_status pairing_expired = 409
error_status pairing_denied = 403
error_status pairing_timeout = 409
error_status no_session = 409
error_status unlock_failed = 500
error_status wake_failed = 500
error_status not_allowed = 403
error_status internal_error = 500

-- An `ApiError`: the status is that of the table unless one is given.
pub record ApiError : Type 0 where
  pub code : ErrorCode
  pub status : ℕ

abbrev pub api_error : ErrorCode → ApiError
api_error c = record { code = c; status = error_status c }

-- What a call may raise. `http s` is aiohttp's own `HTTPException` of status `s`.
pub data Exc : Type 0 where
  api : ApiError → Exc
  http : ℕ → Exc
  value_error config_error runtime_error integrity_error os_error : Exc

-- what a call returns or raises
pub data Result {ℓ} (T : Type ℓ) : Type ℓ where
  err : Exc → Result T
  ok : T → Result T

-- `raise ApiError(code)`
abbrev pub raise {ℓ} : {T : Type ℓ} → ErrorCode → Result T
raise c = err (api (api_error c))

module _ {ℓ κ} {A : Type ℓ} {B : Type κ} where
  infixl 5 ◌>>=◌
  -- the statements that follow a call, skipped when it raised
  abbrev pub ◌>>=◌ : (call : Result A) (next : A → Result B) → Result B
  err x >>= next = err x
  ok value >>= next = next value

  -- A block that returned made a call that returned, and went on with its value.
  pub >>=-eq-ok :
      {b : B} (call : Result A) (next : A → Result B) (returned : (call >>= next) ≡ ok b)
      → (a : A) × (call ≡ ok a) × (next a ≡ ok b)
  >>=-eq-ok (err x) next returned = cc
  >>=-eq-ok (ok value) next returned = (value, refl, returned)

-- a call for its effect
infixl 5 ◌>>◌
abbrev pub ◌>>◌ {ℓ} : {T : Type ℓ} (call : Result (Unit {0})) (next : Result T) → Result T
call >> next = call >>= (λ done. next)

pub ok-injective {ℓ} : {T : Type ℓ} {x y : T} → ok x ≡ ok y → x ≡ y
ok-injective same = cc
