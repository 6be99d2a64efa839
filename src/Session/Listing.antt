-- ===== src/Session/Listing.antt =====
-- pc-service/src/wol_unlock/session.py: the sessions that loginctl lists. json's parser and `str` of
-- a value that is no text are parameters.
use pc_helper_ios.Prelude.{
  ℕ, ◌≡◌, ap, subst, inl, inr, true, ◌&&◌, Option, none, some, List, [], ◌∷◌, arith, ◌==◌,
  if◌then◌else◌, Bool-cases, All, Text, codes,
}
use pc_helper_ios.Errors.{Result, ok, err, value_error, internal_error}
use pc_helper_ios.Action.{Action, pure, fail, lift, ◌>>=◌, >>=-returned, returned-injective}
use pc_helper_ios.Unicode.{strip, is_digits, words_from}
use pc_helper_ios.Value.{
  pos, negsuc, Value, array, object, string, integer, Fields, get, items, or_default, truthy,
  text_of,
}
use pc_helper_ios.Session.{Logind, is_session_id}

-- an id, a uid, none for a negative one, and a class
abbrev pub Row : Type 0
Row = Text × Option ℕ × Text

abbrev uid_in : Option Value → Option (Option ℕ)
uid_in (some (integer (pos n))) = some (some n)
uid_in (some (integer (negsuc n))) = some none
uid_in _ = none

abbrev class_in : (repr : Value → Text) → Option Value → Text
class_in repr none = []
class_in repr (some v) = if truthy v then text_of repr v else []

abbrev row_of : Text → Option (Option ℕ) → Text → List Row → List Row
row_of id none klass rest = rest
row_of id (some uid) klass rest = (id, uid, klass) ∷ rest

module _ {S : Type 0} (l : Logind S) (loads : Text → Option Value) (repr : Value → Text) where
  abbrev id_in : Fields → Text
  id_in fs = strip l.unicode (text_of repr (or_default (get (codes "session") fs) (string [])))

  abbrev row_in : Value → List Row → List Row
  row_in (object fs) rest =
      if is_session_id (id_in fs)
      then row_of (id_in fs) (uid_in (get (codes "uid") fs))
          (class_in repr (get (codes "class") fs)) rest
      else rest
  row_in _ rest = rest

  unfoldable pub rows_in : List Value → List Row
  unfolding is_session_id strip
  rows_in [] = []
  rows_in (v ∷ vs) = row_in v (rows_in vs)

  -- a line of the table: digits that `int` refuses are a ValueError
  abbrev line_row : Text → Option ℕ → Result (List Row) → Result (List Row)
  line_row id none rest = err value_error
  line_row id (some uid) (err x) = err x
  line_row id (some uid) (ok rows) = ok ((id, some uid, []) ∷ rows)

  abbrev fields_row : List Text → Result (List Row) → Result (List Row)
  fields_row (id ∷ uid ∷ more) rest =
      if is_session_id id && is_digits l.unicode uid then line_row id (l.int uid) rest else rest
  fields_row _ rest = rest

  unfoldable pub table_rows : List Text → Result (List Row)
  unfolding is_session_id is_digits words_from
  table_rows [] = ok []
  table_rows (line ∷ lines) = fields_row (words_from l.unicode.is_space [] line) (table_rows lines)

  abbrev table_of : ℕ × Text → Action S (List Row)
  table_of (code, out) =
      if code == 0 then lift (table_rows (l.split_lines out)) else fail internal_error

  -- the legacy table
  unfoldable pub list_table : Action S (List Row)
  unfolding table_rows
  list_table = do answer ← l.run (codes "list-sessions" ∷ codes "--no-legend" ∷ []); table_of answer

  abbrev from_json : Option Value → Action S (List Row)
  from_json (some (array vs)) = pure (rows_in (items vs))
  from_json _ = list_table

  abbrev json_of : ℕ × Text → Action S (List Row)
  json_of (code, out) = if code == 0 then from_json (loads out) else list_table

  -- `_list_session_ids`
  unfoldable pub list_session_ids : Action S (List Row)
  unfolding list_table rows_in
  list_session_ids = do
    answer ← l.run (codes "list-sessions" ∷ codes "--json=short" ∷ [])
    json_of answer

  -- the machine whose sessions are those that loginctl lists
  abbrev pub listing : Logind S
  listing = record l { session_ids = list_session_ids }

  abbrev pub AllIds : List Row → Type 0
  AllIds = All (λ (r : Row). is_session_id r.0 ≡ true)

  row_of-AllIds :
      (id : Text) (uid : Option (Option ℕ)) (klass : Text) (rest : List Row)
      → is_session_id id ≡ true
      → AllIds rest
      → AllIds (row_of id uid klass rest)
  row_of-AllIds id none klass rest h k = k
  row_of-AllIds id (some uid) klass rest h k = (h, k)

  row_in-AllIds : (v : Value) (rest : List Row) → AllIds rest → AllIds (row_in v rest)
  row_in-AllIds (object fs) rest k = elim (Bool-cases (is_session_id (id_in fs))) [
    | inl valid ↦ rw valid (row_of-AllIds (id_in fs) _ _ rest valid k)
    | inr malformed ↦ rw malformed k
  ]
  row_in-AllIds v rest k = k

  rows_in-AllIds : (vs : List Value) → AllIds (rows_in vs)
  unfolding rows_in
  rows_in-AllIds [] = tt
  rows_in-AllIds (v ∷ vs) = row_in-AllIds v (rows_in vs) (rows_in-AllIds vs)

  abbrev AllIdsIn : Result (List Row) → Type 0
  AllIdsIn (err x) = Unit
  AllIdsIn (ok rows) = AllIds rows

  line_row-AllIds :
      (id : Text) (uid : Option ℕ) (rest : Result (List Row))
      → is_session_id id ≡ true
      → AllIdsIn rest
      → AllIdsIn (line_row id uid rest)
  line_row-AllIds id none rest h k = tt
  line_row-AllIds id (some uid) (err x) h k = tt
  line_row-AllIds id (some uid) (ok rows) h k = (h, k)

  fields_row-AllIds :
      (fields : List Text) (rest : Result (List Row))
      → AllIdsIn rest
      → AllIdsIn (fields_row fields rest)
  fields_row-AllIds [] rest k = k
  fields_row-AllIds (id ∷ []) rest k = k
  fields_row-AllIds (id ∷ uid ∷ more) rest k =
      elim (Bool-cases (is_session_id id && is_digits l.unicode uid)) [
        | inl valid ↦ rw valid (line_row-AllIds id (l.int uid) rest (ground (arith, valid)) k)
        | inr malformed ↦ rw malformed k
      ]

  table_rows-AllIds : (lines : List Text) → AllIdsIn (table_rows lines)
  unfolding table_rows
  table_rows-AllIds [] = tt
  table_rows-AllIds (line ∷ lines) =
      fields_row-AllIds (words_from l.unicode.is_space [] line) (table_rows lines)
        (table_rows-AllIds lines)

  table_of-AllIds :
      (answer : ℕ × Text) (s : S) {rows : List Row} {t : S}
      → table_of answer s ≡ (ok rows, t)
      → AllIds rows
  table_of-AllIds (code, out) s h = elim (Bool-cases (code == 0)) [
    | inl done ↦
        subst AllIdsIn (ap (λ (r : Result (List Row) × S). r.0) (rw done at h))
          (table_rows-AllIds (l.split_lines out))
    | inr failed ↦ cc (rw failed at h)
  ]

  list_table-AllIds : (s : S) {rows : List Row} {t : S} → list_table s ≡ (ok rows, t) → AllIds rows
  unfolding list_table
  list_table-AllIds s h =
      let (answer, s1, _, h1) =
        >>=-returned (l.run (codes "list-sessions" ∷ codes "--no-legend" ∷ [])) table_of s h in
      table_of-AllIds answer s1 h1

  json_of-AllIds :
      (answer : ℕ × Text) (s : S) {rows : List Row} {t : S}
      → json_of answer s ≡ (ok rows, t)
      → AllIds rows
  json_of-AllIds (code, out) s {rows} {t} h = elim (Bool-cases (code == 0)) [
    | inl done ↦ parsed (loads out) (rw done at h)
    | inr failed ↦ list_table-AllIds s (rw failed at h)
  ]
    where
      parsed : (o : Option Value) → from_json o s ≡ (ok rows, t) → AllIds rows
      parsed (some (array vs)) e = subst AllIds (returned-injective e).0 (rows_in-AllIds (items vs))
      parsed v e = list_table-AllIds s e

  -- Every session that is listed, from the JSON of loginctl or from its table, has a well-formed id.
  pub list_session_ids-AllIds :
      (s : S) {rows : List Row} {t : S} → list_session_ids s ≡ (ok rows, t) → AllIds rows
  unfolding list_session_ids
  list_session_ids-AllIds s h =
      let (answer, s1, _, h1) =
        >>=-returned (l.run (codes "list-sessions" ∷ codes "--json=short" ∷ [])) json_of s h in
      json_of-AllIds answer s1 h1
