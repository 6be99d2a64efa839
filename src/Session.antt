-- ===== src/Session.antt =====
-- pc-service/src/wol_unlock/session.py: the graphical session of the user, and its unlocking.
-- loginctl and the event loop's clock are parameters, on a state of the machine that they change.
pub mod Listing
pub mod Target
pub mod Unlocking
use pc_helper_ios.Prelude.{
  ℕ, zero, suc, ◌+◌, ◌-◌, ◌*◌, ◌/◌, ◌%◌, ◌^◌, ◌≤◌, ◌<◌, min, max, String, ◌≡◌, refl, sym, ap, ◌∙◌,
  subst, fun_ext, ◌≢◌, ◌↔◌, ◌⊎◌, inl, inr, Bool, true, false, ◌&&◌, ◌||◌, not, Option, none, some,
  List, [], ◌∷◌, ◌++◌, map, reverse, arith, ltb, leb, ◌==◌, if◌then◌else◌, ltb→lt, lt→ltb, leb→le,
  le→leb, ==_iff, Bool-cases, Option-cases, is_some, length, take, drop, keep, any, all, find,
  length-append, length-keep-le, length-drop, insert_by, sort_by, length-sort_by, All, All-append,
  All-keep, Text, codes, text_eq, text_eq_refl, text_eq_iff,
}
use pc_helper_ios.Errors.{bad_request}
use pc_helper_ios.Action.{Action, pure, require, ◌>>=◌, ◌>>◌}
use pc_helper_ios.Unicode.{Unicode, strip, to_lower, between}

pub record SessionInfo : Type 0 where
  pub id : Text
  pub uid : Option ℕ
  pub kind : Text
  pub klass : Text
  pub active : Bool
  pub locked : Bool
  pub seat : Option Text
  pub desktop : Option Text
  pub user : Option Text

pub record UnlockResult : Type 0 where
  pub session : SessionInfo
  pub was_locked : Bool
  pub unlocked : Bool

-- What the module calls: `int` is none for a negative number and for a ValueError, `uid` is
-- `os.getuid()`, `session_ids` is `_list_session_ids`, which Session/Listing fills in, `run` is
-- `_run` with the exit code and the output, and the time is in milliseconds.
pub record Logind (S : Type 0) : Type 0 where
  pub unicode : Unicode
  pub int : Text → Option ℕ
  pub split_lines : Text → List Text
  pub uid : ℕ
  pub session_ids : Action S (List (Text × Option ℕ × Text))
  pub run : List Text → Action S (ℕ × Text)
  pub time : S → ℕ
  pub sleep : S → S

abbrev without_newline : Text → Text
without_newline [] = []
without_newline (c ∷ []) = if c == 10 then [] else c ∷ []
without_newline (c ∷ d ∷ s) = c ∷ without_newline (d ∷ s)

-- SESSION_ID_RE: its `$` also stands before a newline at the end
unfoldable pub is_session_id : Text → Bool
is_session_id s =
    let id = without_newline s in
    ltb 0 (length id)
    && leb (length id) 32
    && all (λ c. between 48 57 c || between 65 90 c || between 97 122 c) id

unfoldable pub is_graphical : SessionInfo → Bool
is_graphical s = text_eq s.klass (codes "user") && any (text_eq s.kind) graphical_types
  where
    graphical_types : List Text
    graphical_types = codes "wayland" ∷ codes "x11" ∷ codes "mir" ∷ []

abbrev mapped : (Text × Text → Text × Text) → Option (Text × Text) → Option (Text × Text)
mapped f none = none
mapped f (some p) = some (f p)

-- `line.partition("=")`, none when there is no `=`
unfoldable pub partition : Text → Option (Text × Text)
partition [] = none
partition (c ∷ s) = if c == 61 then some ([], s) else mapped (λ p. (c ∷ p.0, p.1)) (partition s)

-- `props.get(key)`: a later line wins
unfoldable pub property : Text → List (Text × Text) → Option Text
property key [] = none
property key ((k, v) ∷ props) = elim (property key props) [
  | some later ↦ some later
  | none ↦ if text_eq k key then some v else none
]

-- `x or None` and `x or ""`
abbrev non_empty : Option Text → Option Text
non_empty none = none
non_empty (some []) = none
non_empty (some (c ∷ s)) = some (c ∷ s)

abbrev text_or : Text → Option Text → Text
text_or default none = default
text_or default (some []) = default
text_or default (some (c ∷ s)) = c ∷ s

abbrev is_yes : Option Text → Bool
is_yes none = false
is_yes (some s) = text_eq s (codes "yes")

module _ {S : Type 0} (l : Logind S) where
  unfoldable pub parse_show_output : List Text → List (Text × Text)
  unfolding partition
  parse_show_output [] = []
  parse_show_output (line ∷ lines) = elim (partition line) [
    | none ↦ parse_show_output lines
    | some (key, value) ↦ (strip l.unicode key, value) ∷ parse_show_output lines
  ]

  abbrev uid_of : Option Text → Option ℕ
  uid_of none = none
  uid_of (some s) = l.int s

  unfoldable pub session_info : Text → List (Text × Text) → SessionInfo
  unfolding property
  session_info id props = record {
    id = text_or id (property (codes "Id") props);
    uid = uid_of (property (codes "User") props);
    kind = to_lower l.unicode (text_or [] (property (codes "Type") props));
    klass = to_lower l.unicode (text_or [] (property (codes "Class") props));
    active = is_yes (property (codes "Active") props);
    locked = is_yes (property (codes "LockedHint") props);
    seat = non_empty (property (codes "Seat") props);
    desktop = non_empty (property (codes "Desktop") props);
    user = non_empty (property (codes "Name") props);
  }

  abbrev pub show_command : Text → List Text
  show_command id =
      codes "show-session"
      ∷ id
      ∷ codes "--property=Id"
      ∷ codes "--property=User"
      ∷ codes "--property=Name"
      ∷ codes "--property=Seat"
      ∷ codes "--property=Desktop"
      ∷ codes "--property=Type"
      ∷ codes "--property=Class"
      ∷ codes "--property=Active"
      ∷ codes "--property=LockedHint"
      ∷ []

  abbrev pub shown : Text → ℕ × Text → Option SessionInfo
  shown id (code, out) =
      if code == 0 then some (session_info id (parse_show_output (l.split_lines out))) else none

  unfoldable pub describe_session : Text → Action S (Option SessionInfo)
  unfolding is_session_id session_info parse_show_output
  describe_session id = do
    require (is_session_id id) bad_request
    answer ← l.run (show_command id)
    pure (shown id answer)
