-- ===== src/Value.antt =====
-- The values that `tomllib` and `json` read. Numbers that are no integers, dates and times are
-- `other`, with whether they are true: the source tests only that they are not what it wants.
use pc_helper_ios.Prelude.{
  ℕ, Bool, true, false, not, Option, none, some, List, [], ◌∷◌, ◌==◌, if◌then◌else◌, length, Text,
  text_eq,
}

-- `negsuc n` is -(n + 1).
pub data ℤ : Type 0 where
  pos : ℕ → ℤ
  negsuc : ℕ → ℤ

mutual
  -- the entries of a table, in their order
  pub data Fields : Type 0 where
    field : (key : Text) (value : Value) (more : Fields) → Fields
    end : Fields

  pub data Value : Type 0 where
    object : Fields → Value
    array : Items → Value
    string : Text → Value
    integer : ℤ → Value
    boolean other : Bool → Value
    null : Value

  pub data Items : Type 0 where
    cons : (value : Value) (more : Items) → Items
    nil : Items

-- `d.get(key)`: none where the key is not there
unfoldable pub get : Text → Fields → Option Value
get k end = none
get k (field j v fs) = if text_eq j k then some v else get k fs

abbrev pub items : Items → List Value
items nil = []
items (cons v vs) = v ∷ items vs

-- `d.get(key, default)`
abbrev pub or_default : Option Value → Value → Value
or_default none d = d
or_default (some v) d = v

-- `bool(v)`
unfoldable pub truthy : Value → Bool
truthy null = false
truthy (other b) = b
truthy (boolean b) = b
truthy (integer (pos n)) = not (n == 0)
truthy (integer (negsuc n)) = true
truthy (string s) = not (length s == 0)
truthy (array nil) = false
truthy (array (cons v vs)) = true
truthy (object end) = false
truthy (object (field k v fs)) = true

-- `str(v)`: `repr` stands for the text of a value that is none
abbrev pub text_of : (Value → Text) → Value → Text
text_of repr (string s) = s
text_of repr v = repr v
