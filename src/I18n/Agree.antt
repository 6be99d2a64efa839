-- ===== src/I18n/Agree.antt =====
-- The catalogues agree on their keys, and on the parameters of each text.
use pc_helper_ios.Prelude.{
  ◌≡◌, refl, sym, ap, ◌∙◌, inl, inr, Bool, true, false, ◌&&◌, not, Option, none, some, List, [],
  ◌∷◌, arith, Bool-cases, is_some, any, all, Text, codes, text_eq, text_eq_iff, or_text,
}
use pc_helper_ios.Errors.{Result, ok, err}
use pc_helper_ios.I18n.{
  Catalog, catalog, text_for, template, or_english, Piece, literal, slot, pieces, Values, joined,
  render, rendered, translate, pieces_in,
}
use pc_helper_ios.I18n.English.{en}
use pc_helper_ios.I18n.Russian.{ru}

abbrev Slot : Type 0
Slot = Text × Text

unfoldable slots : List Piece → List Slot
slots [] = []
slots (literal c ∷ ps) = slots ps
slots (slot name spec ∷ ps) = (name, spec) ∷ slots ps

abbrev is_slot : Slot → Slot → Bool
is_slot (a, b) (c, d) = text_eq a c && text_eq b d

abbrev subset : List Slot → List Slot → Bool
subset xs ys = all (λ x. any (is_slot x) ys) xs

abbrev same_slots : Option (List Piece) → Option (List Piece) → Bool
same_slots (some ps) (some qs) = subset (slots ps) (slots qs) && subset (slots qs) (slots ps)
same_slots _ _ = false

abbrev is_empty : Text → Bool
is_empty [] = true
is_empty (c ∷ s) = false

unfoldable agree : Text → Text → Bool
unfolding slots
agree s t = not (is_empty s) && not (is_empty t) && same_slots (pieces s) (pieces t)

-- The catalogues have the same keys in one order, and their texts agree.
unfoldable pairwise : Catalog → Catalog → Bool
unfolding agree
pairwise [] [] = true
pairwise ((k, s) ∷ es) ((j, t) ∷ rs) =
    text_eq (codes k) (codes j) && agree (codes s) (codes t) && pairwise es rs
pairwise _ _ = false

en-ru : pairwise en ru ≡ true
unfolding pairwise en ru pieces_in text_eq
en-ru = refl

abbrev pub is_ok {ℓ} : {A : Type ℓ} → Result A → Bool
is_ok (ok a) = true
is_ok (err x) = false

same_truth : (a b : Bool) → (a ≡ true → b ≡ true) → (b ≡ true → a ≡ true) → a ≡ b
same_truth true b h k = sym (h refl)
same_truth false true h k = k refl
same_truth false false h k = refl

module _ (values : Values) where
  abbrev has : Slot → Bool
  has (name, spec) = is_some (values name spec)

  joined-is_ok : (o : Option Text) (r : Result Text) → is_ok (joined o r) ≡ (is_some o && is_ok r)
  joined-is_ok none r = refl
  joined-is_ok (some t) (ok s) = refl
  joined-is_ok (some t) (err x) = refl

  render-is_ok : (ps : List Piece) → is_ok (render values ps) ≡ all has (slots ps)
  unfolding render slots
  render-is_ok [] = refl
  render-is_ok (literal c ∷ ps) = joined-is_ok (some (c ∷ [])) (render values ps) ∙ render-is_ok ps
  render-is_ok (slot name spec ∷ ps) =
      joined-is_ok (values name spec) (render values ps)
      ∙ ap (λ b. has (name, spec) && b) (render-is_ok ps)

  is_slot-has : (x y : Slot) → is_slot x y ≡ true → has y ≡ true → has x ≡ true
  is_slot-has (a, b) (c, d) h k =
      let name : a ≡ c = (text_eq_iff a c).0 (ground arith) in
      let spec : b ≡ d = (text_eq_iff b d).0 (ground arith) in rw (name, spec) k

  any-has :
      (x : Slot) (ys : List Slot) → any (is_slot x) ys ≡ true → all has ys ≡ true → has x ≡ true
  any-has x [] h k = cc
  any-has x (y ∷ ys) h k = ground (arith, is_slot-has x y, any-has x ys)

  subset-all : (xs ys : List Slot) → subset xs ys ≡ true → all has ys ≡ true → all has xs ≡ true
  subset-all [] ys h k = refl
  subset-all (x ∷ xs) ys h k = ground (arith, any-has x ys, subset-all xs ys)

  agree-is_ok :
      (s t : Text)
      → agree s t ≡ true
      → is_ok (rendered values (pieces s)) ≡ is_ok (rendered values (pieces t))
  unfolding agree
  agree-is_ok s t h = go (pieces s) (pieces t) (ground arith)
    where
      go :
          (p q : Option (List Piece))
          → same_slots p q ≡ true
          → is_ok (rendered values p) ≡ is_ok (rendered values q)
      go none q h = cc
      go (some ps) none h = cc
      go (some ps) (some qs) h =
          let left : subset (slots ps) (slots qs) ≡ true = ground arith in
          let right : subset (slots qs) (slots ps) ≡ true = ground arith in
          render-is_ok ps
          ∙ same_truth (all has (slots ps)) (all has (slots qs))
              (subset-all (slots qs) (slots ps) right) (subset-all (slots ps) (slots qs) left)
          ∙ sym (render-is_ok qs)

-- the texts of a key in two catalogues that agree
abbrev Matches : Option Text → Option Text → Type 0
Matches none none = Unit
Matches none (some t) = ⊥
Matches (some s) none = ⊥
Matches (some s) (some t) = agree s t ≡ true

text_for-Matches :
    (key : Text) (es rs : Catalog)
    → pairwise es rs ≡ true
    → Matches (text_for key es) (text_for key rs)
unfolding pairwise text_for
text_for-Matches key [] [] h = tt
text_for-Matches key [] (r ∷ rs) h = cc
text_for-Matches key (e ∷ es) [] h = cc
text_for-Matches key ((k, s) ∷ es) ((j, t) ∷ rs) h =
    let same : codes k ≡ codes j = (text_eq_iff (codes k) (codes j)).0 (ground arith) in
    let first : agree (codes s) (codes t) ≡ true = ground arith in
    let others : pairwise es rs ≡ true = ground arith in
    elim (Bool-cases (text_eq (codes j) key)) [
      | inl hit ↦ rw (same, hit) first
      | inr miss ↦ rw (same, miss) (text_for-Matches key es rs others)
    ]

-- what a key gives in a catalogue, with the way back to English
abbrev in_catalog : Text → Catalog → Text
in_catalog key c = or_text (text_for key c) (or_text (text_for key en) key)

abbrev gives : Values → Text → Bool
gives values s = is_ok (rendered values (pieces s))

unfoldable agreeing : (o q : Option Text) → Text → Text
agreeing o q key = or_text q (or_text o key)

agreeing-gives :
    (values : Values) (key : Text) (o q : Option Text)
    → Matches o q
    → gives values (agreeing o q key) ≡ gives values (agreeing o o key)
unfolding agreeing agree
agreeing-gives values key none none m = refl
agreeing-gives values key none (some t) m = absurd m
agreeing-gives values key (some s) none m = absurd m
agreeing-gives values key (some []) (some t) m = cc
agreeing-gives values key (some (c ∷ s)) (some []) m = refl
agreeing-gives values key (some (c ∷ s)) (some (d ∷ t)) m =
    sym (agree-is_ok values (c ∷ s) (d ∷ t) m)

template-gives :
    (values : Values) (locale key : Text)
    → gives values (template locale key) ≡ gives values (in_catalog key en)
unfolding template catalog agreeing
template-gives values locale key = elim (Bool-cases (text_eq locale (codes "en"))) [
  | inl english ↦ rw english refl
  | inr other ↦ elim (Bool-cases (text_eq locale (codes "ru"))) [
    | inl russian ↦
        rw (other, russian)
          (agreeing-gives values key (text_for key en) (text_for key ru)
            (text_for-Matches key en ru en-ru))
    | inr unknown ↦ rw (other, unknown) refl
  ]
]

-- whether a catalogue has the key
abbrev pub has_key : (locale key : Text) → Bool
has_key locale key = is_some (text_for key (or_english (catalog locale)))

Matches-is_some : (o q : Option Text) → Matches o q → is_some q ≡ is_some o
Matches-is_some none none m = refl
Matches-is_some none (some t) m = absurd m
Matches-is_some (some s) none m = absurd m
Matches-is_some (some s) (some t) m = refl

has_key-english : (locale key : Text) → has_key locale key ≡ is_some (text_for key en)
unfolding catalog
has_key-english locale key = elim (Bool-cases (text_eq locale (codes "en"))) [
  | inl english ↦ rw english refl
  | inr other ↦ elim (Bool-cases (text_eq locale (codes "ru"))) [
    | inl russian ↦
        rw (other, russian)
          (Matches-is_some (text_for key en) (text_for key ru) (text_for-Matches key en ru en-ru))
    | inr unknown ↦ rw (other, unknown) refl
  ]
]

-- In any two languages the same keys have a text of the catalogue, that of English where the
-- language has none; and a key with the same parameters gives a text in both or raises in both.
pub translate-any_locale :
    (first second key : Text) (values : Option Values)
    → (has_key first key ≡ has_key second key)
      × (is_ok (translate first key values) ≡ is_ok (translate second key values))
unfolding translate
translate-any_locale first second key values =
    (has_key-english first key ∙ sym (has_key-english second key), made values)
  where
    made : (v : Option Values) → is_ok (translate first key v) ≡ is_ok (translate second key v)
    made none = refl
    made (some v) = template-gives v first key ∙ sym (template-gives v second key)
