-- ===== src/Control/Serve/Replies.antt =====
-- The replies to the lines of a connection.
use pc_helper_ios.Prelude.{
  ◌≡◌, refl, Bool, true, false, All, ltb, List, [], ◌∷◌, leb, ◌==◌, if◌then◌else◌, length, Text,
  codes,
}
use pc_helper_ios.Errors.{Result, ok, err}
use pc_helper_ios.Value.{Value, null, Fields, get, or_default}
use pc_helper_ios.Control.Commands.{Desk, World}
use pc_helper_ios.Control.Serve.{
  Input, Reply, line, overrun, closed, reply_id, max_line_bytes, decode, serve_line, read_commands,
}

-- the id in a line, or null
abbrev id_in : Result Fields → Value
id_in (err x) = null
id_in (ok message) = or_default (get (codes "id") message) null

-- whatever the reply is, it can be written under each of these ids
abbrev pub AllWritten : (encodes : Reply → Bool) → List Value → Type 0
AllWritten encodes = All (λ (id : Value). (r : Reply) → reply_id r ≡ id → encodes r ≡ true)

module _ {S : Type 0} (loads : Text → Result Value) where
  -- The ids of the lines until the connection ends, or until a line is over the limit, which has
  -- the id null.
  unfoldable pub asked_ids : List (Input S) → List Value
  unfolding decode
  asked_ids [] = []
  asked_ids (closed ∷ inputs) = []
  asked_ids (overrun ∷ inputs) = null ∷ []
  asked_ids (line desk s ∷ inputs) =
      let rest = asked_ids inputs in
      if length s == 0
      then []
      else if leb (length s) max_line_bytes
      then id_in (decode loads s) ∷ rest
      else null ∷ []

  -- A reply that cannot be written ends the connection without an answer to its line, or to any
  -- after it.
  pub unwritten_reply :
      (encodes : Reply → Bool) (desk : Desk S) (s : Text) (inputs : List (Input S)) (w : World S)
      → (length s == 0) ≡ false
      → ltb max_line_bytes (length s) ≡ false
      → encodes (serve_line loads desk s w).0 ≡ false
      → (read_commands loads encodes (line desk s ∷ inputs) w).0 ≡ []
  unfolding read_commands
  unwritten_reply encodes desk s inputs w nonempty within refused =
      rw (nonempty, within, refused) refl
