-- ===== src/Identity/Killed.antt =====
-- pc-service/src/wol_unlock/identity.py: what is left when the process is killed while the first key
-- is written.
use pc_helper_ios.Prelude.{
  ℕ, zero, suc, ◌≡◌, refl, sym, ap, ◌∙◌, ◌⊎◌, inl, inr, Option, none, some, List, [], ◌∷◌, ◌++◌,
  map, take, Text,
}
use pc_helper_ios.Errors.{Result, ok, err, os_error}
use pc_helper_ios.Identity.{
  File, Directory, Library, owner_only, written, replaced, write_private, load_or_create,
}

-- what `_write_private` does to the directory where nothing fails: the file is opened, the bytes
-- come to it one after the other, and it takes the place of the key
pub data Step : Type 0 where
  open_tmp replace_key : Step
  write_byte : ℕ → Step

abbrev appended : ℕ → Option File → Option File
appended c none = none
appended c (some f) = some (record f { content = f.content ++ c ∷ [] })

abbrev pub step : Step → Directory → Directory
step open_tmp d = written [] d
step (write_byte c) d = record d { tmp = appended c d.tmp }
step replace_key d = replaced d

unfoldable pub steps : List Step → Directory → Directory
steps [] d = d
steps (x ∷ xs) d = steps xs (step x d)

abbrev pub write_steps : Text → List Step
write_steps pem = open_tmp ∷ (map write_byte pem ++ replace_key ∷ [])

-- the process is killed after this many of the steps
abbrev pub killed : Text → ℕ → Directory → Directory
killed pem n d = steps (take n (write_steps pem)) d

++-assoc_one : (xs : Text) (c : ℕ) (ys : Text) → (xs ++ c ∷ []) ++ ys ≡ xs ++ c ∷ ys
++-assoc_one [] c ys = refl
++-assoc_one (x ∷ xs) c ys = ap (λ zs. x ∷ zs) (++-assoc_one xs c ys)

++-nil : (xs : Text) → xs ++ [] ≡ xs
++-nil [] = refl
++-nil (x ∷ xs) = ap (λ zs. x ∷ zs) (++-nil xs)

-- all the bytes, and the replacement
steps-all :
    (front pem : Text) (d : Directory)
    → steps (map write_byte pem ++ replace_key ∷ []) (written front d)
      ≡ replaced (written (front ++ pem) d)
unfolding steps
steps-all front [] d = ap (λ s. replaced (written s d)) (sym (++-nil front))
steps-all front (c ∷ pem) d =
    steps-all (front ++ c ∷ []) pem d ∙ ap (λ s. replaced (written s d)) (++-assoc_one front c pem)

-- where the first bytes are written, either a part of the file is there or the whole of it is the
-- key
abbrev IsPartial : Directory → Directory → Type 0
IsPartial d e = (front : Text) × (e ≡ written front d)

steps-some :
    (n : ℕ) (front pem : Text) (d : Directory)
    → IsPartial d (steps (take n (map write_byte pem ++ replace_key ∷ [])) (written front d))
      ⊎ (steps (take n (map write_byte pem ++ replace_key ∷ [])) (written front d)
          ≡ replaced (written (front ++ pem) d))
unfolding steps
steps-some zero front pem d = inl (front, refl)
steps-some (suc n) front [] d =
    inr (nothing_left n ∙ ap (λ s. replaced (written s d)) (sym (++-nil front)))
  where
    nothing_left :
        (m : ℕ) → steps (take m []) (replaced (written front d)) ≡ replaced (written front d)
    nothing_left zero = refl
    nothing_left (suc m) = refl
steps-some (suc n) front (c ∷ pem) d = elim (steps-some n (front ++ c ∷ []) pem d) [
  | inl part ↦ inl part
  | inr whole ↦ inr (whole ∙ ap (λ s. replaced (written s d)) (++-assoc_one front c pem))
]

-- the key that is there afterwards is the whole of it, and private
abbrev pub IsWhole : Text → Directory → Type 0
IsWhole pem d = d.key ≡ some (record { mode = owner_only; content = pem })

-- no later start gets a key
abbrev pub IsWedged : {K : Type 0} → Library K → Directory → Type 0
IsWedged {K} lib d =
    (new_key : K) (write sync : Result (Unit {0}))
    → load_or_create lib new_key write sync d ≡ (err os_error, d)

-- The steps are those of `_write_private`: where nothing fails and no temporary file is there, it
-- leaves what all of them leave. If the process is killed after any number of them, while the first
-- key is written, then it was killed before the first one and nothing has changed, or the whole key
-- is in its file, or there is no key file and every later start raises and changes nothing.
pub start_after_kill :
    {K : Type 0} (lib : Library K) (pem : Text) (n : ℕ) (d : Directory)
    → d.key ≡ none
    → d.tmp ≡ none
    → (write_private pem (ok tt) (ok tt) d ≡ (ok tt, steps (write_steps pem) d))
      × ((killed pem n d ≡ d)
          ⊎ (IsWhole pem (killed pem n d)
              ⊎ (((killed pem n d).key ≡ none) × IsWedged lib (killed pem n d))))
unfolding write_private load_or_create steps
start_after_kill lib pem n d nobody clear =
    (rw clear (ap (λ (e : Directory). (ok tt, e)) (sym (steps-all [] pem d))), left n)
  where
    left :
        (m : ℕ)
        → (killed pem m d ≡ d)
          ⊎ (IsWhole pem (killed pem m d)
              ⊎ (((killed pem m d).key ≡ none) × IsWedged lib (killed pem m d)))
    left zero = inl refl
    left (suc m) = elim (steps-some m [] pem d) [
      | inl (front, part) ↦ inr (inr (rw part (nobody, λ new_key write sync. rw nobody refl)))
      | inr whole ↦ inr (inl (rw whole refl))
    ]
