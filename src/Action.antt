-- ===== src/Action.antt =====
-- Python code that changes an object and may raise: what was written before a raise stays written,
-- so the state comes back beside the error too.
use pc_helper_ios.Prelude.{◌≡◌, refl, Bool, true, false}
use pc_helper_ios.Errors.{Exc, Result, ok, err, ErrorCode, api, api_error}

abbrev pub Action {ℓ} : Type ℓ → Type ℓ → Type ℓ
Action S A = S → Result A × S

module _ {ℓ} {S A : Type ℓ} where
  abbrev pub pure : A → Action S A
  pure a s = (ok a, s)

  abbrev pub throw : Exc → Action S A
  throw e s = (err e, s)

  abbrev pub fail : ErrorCode → Action S A
  fail c s = (err (api (api_error c)), s)

  abbrev pub lift : Result A → Action S A
  lift r s = (r, s)

module _ {ℓ} {S A B : Type ℓ} where
  abbrev pub continue : Result A × S → (A → Action S B) → Result B × S
  continue (ok a, s) f = f a s
  continue (err e, s) f = (err e, s)

  infixl 5 ◌>>=◌ ◌>>◌
  abbrev pub ◌>>=◌ : Action S A → (A → Action S B) → Action S B
  ◌>>=◌ m f s = continue (m s) f

  abbrev pub ◌>>◌ : Action S A → Action S B → Action S B
  m >> n = m >>= λ _. n

-- `if not b: raise ApiError(c)`
abbrev pub require : {S : Type 0} → Bool → ErrorCode → Action S (Unit {0})
require true c = pure tt
require false c = fail c

-- Inversion of a block that returned.
pub >>=-returned {ℓ} :
    {S A B : Type ℓ} (m : Action S A) (f : A → Action S B) (s : S) {b : B} {t : S}
    → (m >>= f) s ≡ (ok b, t)
    → (a : A) × (s' : S) × (m s ≡ (ok a, s')) × (f a s' ≡ (ok b, t))
>>=-returned {S} {A} {B} m f s {b} {t} h = go (m s) refl h
  where
    go :
        (r : Result A × S)
        → m s ≡ r
        → continue r f ≡ (ok b, t)
        → (a : A) × (s' : S) × (m s ≡ (ok a, s')) × (f a s' ≡ (ok b, t))
    go (ok a, s') e k = (a, s', e, k)
    go (err x, s') e k = cc

pub returned-injective {ℓ} :
    {S A : Type ℓ} {a b : A} {s t : S}
    → (let r : Result A × S = (ok a, s) in r) ≡ (ok b, t)
    → (a ≡ b) × (s ≡ t)
returned-injective h = (cc, cc)

-- The same for the guards and the pure steps, which leave the state.
pub require_then :
    {S B : Type 0} (b : Bool) (c : ErrorCode) (k : Action S B) (s : S) {x : B} {t : S}
    → (require b c >> k) s ≡ (ok x, t)
    → (b ≡ true) × (k s ≡ (ok x, t))
require_then true c k s h = (refl, h)
require_then false c k s h = cc

pub lift_then {ℓ} :
    {S A B : Type ℓ} (r : Result A) (k : A → Action S B) (s : S) {x : B} {t : S}
    → (lift r >>= k) s ≡ (ok x, t)
    → (a : A) × (r ≡ ok a) × (k a s ≡ (ok x, t))
lift_then (ok a) k s h = (a, refl, h)
lift_then (err e) k s h = cc
