-- ===== src/I18n.antt =====
-- pc-service/src/wol_unlock/i18n.py: the choice of the language, and the texts in it.
pub mod English
pub mod Russian
pub mod Agree
pub mod Detect
use pc_helper_ios.Prelude.{
  ℕ, zero, suc, ◌+◌, ◌-◌, ◌*◌, ◌/◌, ◌%◌, ◌^◌, ◌≤◌, ◌<◌, min, max, String, ◌≡◌, refl, sym, ap, ◌∙◌,
  subst, fun_ext, ◌≢◌, ◌↔◌, ◌⊎◌, inl, inr, Bool, true, false, ◌&&◌, ◌||◌, not, Option, none, some,
  List, [], ◌∷◌, ◌++◌, map, reverse, arith, ltb, leb, ◌==◌, if◌then◌else◌, ltb→lt, lt→ltb, leb→le,
  le→leb, ==_iff, Bool-cases, Option-cases, is_some, length, take, drop, keep, any, all, find,
  length-append, length-keep-le, length-drop, insert_by, sort_by, length-sort_by, All, All-append,
  All-keep, Text, codes, text_eq, text_eq_refl, text_eq_iff, or_text, join_by,
}
use pc_helper_ios.Errors.{Result, ok, err, value_error, runtime_error}
use pc_helper_ios.Unicode.{Unicode, to_lower}
use English.{en}
use Russian.{ru}

abbrev pub Catalog : Type 0
Catalog = List (String × String)

-- `s.split(c)[0]`
unfoldable pub before : ℕ → Text → Text
before c [] = []
before c (d ∷ s) = let rest = before c s in if d == c then [] else d ∷ rest

-- `CATALOGS.get(code)`
unfoldable pub catalog : Text → Option Catalog
unfolding en ru
catalog code =
    if text_eq code (codes "en")
    then some en
    else if text_eq code (codes "ru")
    then some ru
    else none

abbrev pub env_vars : List Text
env_vars = codes "WOL_UNLOCK_LANG" ∷ codes "LC_ALL" ∷ codes "LC_MESSAGES" ∷ codes "LANG" ∷ []

module _ (u : Unicode) where
  -- the language that a value of a variable names
  unfoldable pub language : Text → Text
  unfolding before to_lower
  language raw = to_lower u (before 45 (before 95 (before 46 raw)))

  -- a variable that is not set, or set to nothing, is passed over
  abbrev pub chosen : Option Text → Text → Text
  chosen none rest = rest
  chosen (some []) rest = rest
  chosen (some (c ∷ raw)) rest =
      let code = language (c ∷ raw) in
      if is_some (catalog code)
      then code
      else if text_eq code (codes "c") || text_eq code (codes "posix")
      then codes "en"
      else rest

  unfoldable pub detect_from : (environ : Text → Option Text) → List Text → Text
  unfolding language catalog
  detect_from environ [] = codes "en"
  detect_from environ (var ∷ vars) = chosen (environ var) (detect_from environ vars)

  unfoldable pub detect_locale : (environ : Text → Option Text) → Text
  unfolding detect_from
  detect_locale environ = detect_from environ env_vars

-- `_locale`: the language that was detected or pinned, if any
abbrev pub Pinned : Type 0
Pinned = Option Text

abbrev remembered : Option Text → Text → Text × Pinned
remembered none code = (code, some code)
remembered (some code) fresh = (code, some code)

-- `locale`, with the state that it leaves
unfoldable pub locale : Unicode → (environ : Text → Option Text) → Pinned → Text × Pinned
unfolding detect_locale
locale u environ pinned = remembered pinned (detect_locale u environ)

-- `set_locale`
abbrev pub set_locale : Option Text → Pinned → Pinned
set_locale code pinned = code

-- `catalog.get(key)`, and the text unless it is empty
unfoldable pub text_for : Text → Catalog → Option Text
text_for key [] = none
text_for key ((k, t) ∷ ts) = if text_eq (codes k) key then some (codes t) else text_for key ts

abbrev pub or_english : Option Catalog → Catalog
or_english none = en
or_english (some c) = c

unfoldable pub template : (locale key : Text) → Text
unfolding catalog text_for
template locale key =
    or_text (text_for key (or_english (catalog locale))) (or_text (text_for key en) key)

-- `str.format`, as far as the catalogues use it: `{name}`, `{name:spec}`, and doubled braces
pub data Piece : Type 0 where
  literal : ℕ → Piece
  slot : (name spec : Text) → Piece

pub data Mode : Type 0 where
  outside after_close : Mode
  in_name : Text → Mode
  in_spec : (name spec : Text) → Mode

abbrev pub and_then : Piece → Option (List Piece) → Option (List Piece)
and_then p none = none
and_then p (some ps) = some (p ∷ ps)

-- The pieces of a template; none is the ValueError of a brace that has no partner.
unfoldable pub pieces_in : Mode → Text → Option (List Piece)
pieces_in outside [] = some []
pieces_in outside (c ∷ s) =
    let named = pieces_in (in_name []) s in
    let closing = pieces_in after_close s in
    let rest = pieces_in outside s in
    if c == 123 then named else if c == 125 then closing else and_then (literal c) rest
pieces_in after_close [] = none
pieces_in after_close (c ∷ s) =
    let rest = pieces_in outside s in if c == 125 then and_then (literal 125) rest else none
pieces_in (in_name name) [] = none
pieces_in (in_name name) (c ∷ s) =
    let rest = pieces_in outside s in
    let spec = pieces_in (in_spec name []) s in
    let longer = pieces_in (in_name (name ++ c ∷ [])) s in
    if c == 123 && length name == 0
    then and_then (literal 123) rest
    else if c == 125
    then and_then (slot name []) rest
    else if c == 58
    then spec
    else longer
pieces_in (in_spec name spec) [] = none
pieces_in (in_spec name spec) (c ∷ s) =
    let rest = pieces_in outside s in
    let longer = pieces_in (in_spec name (spec ++ c ∷ [])) s in
    if c == 125 then and_then (slot name spec) rest else longer

abbrev pub pieces : Text → Option (List Piece)
pieces s = pieces_in outside s

-- `values name spec` is a parameter's text under a format, none where there is no such parameter
abbrev pub Values : Type 0
Values = Text → Text → Option Text

abbrev pub joined : Option Text → Result Text → Result Text
joined none rest = err runtime_error
joined (some t) (err x) = err x
joined (some t) (ok s) = ok (t ++ s)

-- The KeyError of a name that no parameter has is a runtime_error.
unfoldable pub render : Values → List Piece → Result Text
render values [] = ok []
render values (literal c ∷ ps) = joined (some (c ∷ [])) (render values ps)
render values (slot name spec ∷ ps) = joined (values name spec) (render values ps)

abbrev pub rendered : Values → Option (List Piece) → Result Text
rendered values none = err value_error
rendered values (some ps) = render values ps

-- `_(key, **params)`: none for a call without parameters
unfoldable pub translate : (locale key : Text) → Option Values → Result Text
unfolding template pieces_in render
translate locale key none = ok (template locale key)
translate locale key (some values) = rendered values (pieces (template locale key))
