-- ===== src/Control/Devices/Unambiguous.antt =====
-- The choice of a device is never a guess.
use pc_helper_ios.Prelude.{
  ◌≡◌, refl, sym, ap, ◌↔◌, ◌⊎◌, inl, inr, Bool, true, false, Option, none, some, List, [], ◌∷◌,
  ◌++◌, if◌then◌else◌, find, All, Text,
}
use pc_helper_ios.Errors.{Result, ok, err, ◌>>=◌, ok-injective}
use pc_helper_ios.Unicode.{Unicode, to_lower}
use pc_helper_ios.Store.Statements.{Device, Tables, has_id, list_devices}
use pc_helper_ios.Control.Devices.{matching, matches, or_search, the_only, find_in, resolve_device}

module _ {ℓ} {A : Type ℓ} (p : A → Result Bool) where
  -- `x` passes the test, and no other element of `xs` does
  pub record IsOnly (xs : List A) (x : A) : Type ℓ where
    pub before : List A
    pub after : List A
    pub split : xs ≡ before ++ x ∷ after
    pub passes : p x ≡ ok true
    pub no_earlier : All (λ y. p y ≡ ok false) before
    pub no_later : All (λ y. p y ≡ ok false) after

  -- one step of the search
  abbrev joined : Result Bool → Result (List A) → A → Result (List A)
  joined q r x = q >>= λ b. r >>= λ found. ok (if b then x ∷ found else found)

  joined_none :
      (q : Result Bool) (r : Result (List A)) (x : A)
      → joined q r x ≡ ok []
      → (q ≡ ok false) × (r ≡ ok [])
  joined_none (err e) r x h = cc
  joined_none (ok b) (err e) x h = cc
  joined_none (ok true) (ok found) x h = cc (ok-injective h)
  joined_none (ok false) (ok found) x h = (refl, h)

  joined_one :
      (q : Result Bool) (r : Result (List A)) (x y : A)
      → joined q r x ≡ ok (y ∷ [])
      → ((q ≡ ok true) × (r ≡ ok []) × (x ≡ y)) ⊎ ((q ≡ ok false) × (r ≡ ok (y ∷ [])))
  joined_one (err e) r x y h = cc
  joined_one (ok b) (err e) x y h = cc
  joined_one (ok true) (ok found) x y h = let same = ok-injective h in inl (refl, cc, cc)
  joined_one (ok false) (ok found) x y h = inr (refl, h)

  matching_none : (xs : List A) → matching p xs ≡ ok [] → All (λ y. p y ≡ ok false) xs
  unfolding matching
  matching_none [] h = tt
  matching_none (x ∷ xs) h =
      let (fails, rest) = joined_none (p x) (matching p xs) x h in (fails, matching_none xs rest)

  matching-none : (xs : List A) → All (λ y. p y ≡ ok false) xs → matching p xs ≡ ok []
  unfolding matching
  matching-none [] h = refl
  matching-none (x ∷ xs) h = rw (h.0, matching-none xs h.1) refl

  later : (x y : A) (xs : List A) → p x ≡ ok false → IsOnly xs y → IsOnly (x ∷ xs) y
  later x y xs fails o = record {
    before = x ∷ o.before;
    after = o.after;
    split = ap (λ zs. x ∷ zs) o.split;
    passes = o.passes;
    no_earlier = (fails, o.no_earlier);
    no_later = o.no_later;
  }

  matching_one : (xs : List A) (y : A) → matching p xs ≡ ok (y ∷ []) → IsOnly xs y
  unfolding matching
  matching_one [] y h = cc (ok-injective h)
  matching_one (x ∷ xs) y h = elim (joined_one (p x) (matching p xs) x y h) [
    | inl (passes, rest, same) ↦ record {
      before = [];
      after = xs;
      split = ap (λ z. z ∷ xs) same;
      passes = rw (sym same) passes;
      no_earlier = tt;
      no_later = matching_none xs rest;
    }
    | inr (fails, rest) ↦ later x y xs fails (matching_one xs y rest)
  ]

  matching-one :
      (before after : List A) (y : A)
      → All (λ x. p x ≡ ok false) before
      → p y ≡ ok true
      → All (λ x. p x ≡ ok false) after
      → matching p (before ++ y ∷ after) ≡ ok (y ∷ [])
  unfolding matching
  matching-one [] after y h passes k = rw (passes, matching-none after k) refl
  matching-one (x ∷ before) after y h passes k =
      rw (h.0, matching-one before after y h.1 passes k) refl

  matching-IsOnly : (xs : List A) (y : A) → IsOnly xs y → matching p xs ≡ ok (y ∷ [])
  matching-IsOnly xs y o =
      rw o.split (matching-one o.before o.after y o.no_earlier o.passes o.no_later)

the_only_ok {ℓ} :
    {A : Type ℓ} (r : Result (List A)) (x : A) → (r >>= the_only) ≡ ok x → r ≡ ok (x ∷ [])
the_only_ok (err e) x h = cc
the_only_ok (ok []) x h = cc
the_only_ok (ok (y ∷ [])) x h = rw (ok-injective h) refl
the_only_ok (ok (y ∷ z ∷ ys)) x h = cc

module _ (u : Unicode) (sha256 : Text → Text) where
  -- the device whose id the selector is, or else the only one that it is a prefix of
  abbrev pub IsChosen : Text → List Device → Device → Type 0
  IsChosen selector ds d =
      (find (has_id selector) ds ≡ some d)
      ⊎ ((find (has_id selector) ds ≡ none) × IsOnly (matches u sha256 (to_lower u selector)) ds d)

  chosen :
      (o : Option Device) (selector : Text) (ds : List Device) (d : Device)
      → (or_search o (matching (matches u sha256 (to_lower u selector)) ds >>= the_only) ≡ ok d)
        ↔ ((o ≡ some d) ⊎ ((o ≡ none) × IsOnly (matches u sha256 (to_lower u selector)) ds d))
  chosen none selector ds d = (
    (λ h. inr (refl, matching_one _ ds d (the_only_ok _ d h))),
    (λ c. elim c [ inl same ↦ cc | inr (e, o) ↦ rw (matching-IsOnly _ ds d o) refl ]),
  )
  chosen (some e) selector ds d =
      ((λ h. inl (ap some (ok-injective h))), (λ c. elim c [ inl same ↦ cc | inr (e, o) ↦ cc ]))

  -- A selector resolves to a device exactly if that is the first device with the selector as its
  -- id, or if no device has the selector as its id and the device is the only one whose id, name
  -- or fingerprint begins with the selector, whatever the case: there is no guess between two.
  pub resolve_device-IsChosen :
      (selector : Text) (t : Tables) (d : Device)
      → (resolve_device u sha256 selector t ≡ ok d) ↔ IsChosen selector (list_devices true t) d
  unfolding resolve_device find_in
  resolve_device-IsChosen selector t d = chosen _ selector (list_devices true t) d
