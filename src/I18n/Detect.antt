-- ===== src/I18n/Detect.antt =====
-- The language that the environment names.
use pc_helper_ios.Prelude.{
  ◌≡◌, refl, inl, inr, true, ◌||◌, Option, none, some, List, [], ◌∷◌, Bool-cases, is_some, Text,
  codes, text_eq,
}
use pc_helper_ios.Unicode.{Unicode}
use pc_helper_ios.I18n.{catalog, chosen, detect_locale, detect_from, env_vars, language}

abbrev IsCatalog : Text → Type 0
IsCatalog code = is_some (catalog code) ≡ true

chosen-IsCatalog :
    (u : Unicode) (o : Option Text) (rest : Text) → IsCatalog rest → IsCatalog (chosen u o rest)
unfolding catalog text_eq
chosen-IsCatalog u none rest h = h
chosen-IsCatalog u (some []) rest h = h
chosen-IsCatalog u (some (c ∷ raw)) rest h =
    elim (Bool-cases (is_some (catalog (language u (c ∷ raw))))) [
      | inl there ↦ rw there there
      | inr other ↦
          elim (Bool-cases (
            text_eq (language u (c ∷ raw)) (codes "c")
            || text_eq (language u (c ∷ raw)) (codes "posix"))) [
              | inl standard ↦ rw (other, standard) refl
              | inr unknown ↦ rw (other, unknown) h
            ]
    ]

detect_from-IsCatalog :
    (u : Unicode) (environ : Text → Option Text) (vars : List Text)
    → IsCatalog (detect_from u environ vars)
unfolding detect_from catalog text_eq
detect_from-IsCatalog u environ [] = refl
detect_from-IsCatalog u environ (var ∷ vars) =
    chosen-IsCatalog u (environ var) (detect_from u environ vars)
      (detect_from-IsCatalog u environ vars)

-- Whatever the environment holds, the language that is detected has a catalogue.
pub detect_locale-IsCatalog :
    (u : Unicode) (environ : Text → Option Text) → IsCatalog (detect_locale u environ)
unfolding detect_locale
detect_locale-IsCatalog u environ = detect_from-IsCatalog u environ env_vars
