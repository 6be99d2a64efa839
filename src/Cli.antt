-- ===== src/Cli.antt =====
-- pc-service/src/wol_unlock/cli/__main__.py: how `wol-unlockctl pair` drives the approval, and the
-- exit codes. The terminal and the control client are parameters: what they give is a list.
pub mod Approval
pub mod Ago
pub mod Main
use pc_helper_ios.Prelude.{
  ℕ, zero, suc, ◌+◌, ◌-◌, ◌*◌, ◌/◌, ◌%◌, ◌^◌, ◌≤◌, ◌<◌, min, max, String, ◌≡◌, refl, sym, ap, ◌∙◌,
  subst, fun_ext, ◌≢◌, ◌↔◌, ◌⊎◌, inl, inr, Bool, true, false, ◌&&◌, ◌||◌, not, Option, none, some,
  List, [], ◌∷◌, ◌++◌, map, reverse, arith, ltb, leb, ◌==◌, if◌then◌else◌, ltb→lt, lt→ltb, leb→le,
  le→leb, ==_iff, Bool-cases, Option-cases, is_some, length, take, drop, keep, any, all, find,
  length-append, length-keep-le, length-drop, insert_by, sort_by, length-sort_by, All, All-append,
  All-keep, Text, codes, text_eq, text_eq_refl, text_eq_iff,
}
use pc_helper_ios.Errors.{Result, ok, err}
use pc_helper_ios.Unicode.{Unicode, strip, to_lower}
use pc_helper_ios.Control.Commands.{Command, pair_approve, pair_deny, pair_cancel}
use pc_helper_ios.I18n.{template}

-- What a turn of the loop meets: an event, with the answer that is typed (none for the end of the
-- input) and how the call of the client ends, or no event, or Ctrl-C.
pub data Turn : Type 0 where
  pair_request : (answer : Option Text) (call : Result (Unit {0})) → Turn
  pair_completed other_event no_event : Turn
  pair_closed : (reason : Text) → Turn
  interrupted : (call : Result (Unit {0})) → Turn

-- the answers that mean yes, in the language of the terminal
unfoldable pub is_yes : Unicode → (locale : Text) → Option Text → Bool
unfolding strip to_lower template
is_yes u locale none = false
is_yes u locale (some answer) =
    let given = to_lower u (strip u answer) in
    text_eq given (codes "y")
    || text_eq given (codes "yes")
    || text_eq given (template locale (codes "cli.approveYes"))

-- `_prompt_approval`: the command that is sent
abbrev pub prompted : (approves : Bool) → Command
prompted true = pair_approve
prompted false = pair_deny

-- a command that is sent before the rest; a call that raises ends the program
abbrev sent : Command → Result (Unit {0}) → ℕ × List Command → ℕ × List Command
sent c (err x) (code, cs) = (1, c ∷ [])
sent c (ok done) (code, cs) = (code, c ∷ cs)

-- the exit code of Ctrl-C: a ControlError of the cancelling is passed over
abbrev interrupt_code : ℕ
interrupt_code = 130

module _ (u : Unicode) (locale : Text) (auto_yes : Bool) where
  abbrev pub approves : Option Text → Bool
  approves answer = auto_yes || is_yes u locale answer

  -- the loop of `cmd_pair`: its exit code, and the commands that it sends. A list that ends is the
  -- window that closes unseen.
  unfoldable pub pair_loop : List Turn → ℕ × List Command
  unfolding is_yes
  pair_loop [] = (1, [])
  pair_loop (no_event ∷ turns) = (1, [])
  pair_loop (other_event ∷ turns) = pair_loop turns
  pair_loop (pair_completed ∷ turns) = (0, [])
  pair_loop (pair_closed reason ∷ turns) = ((if text_eq reason (codes "paired") then 0 else 1), [])
  pair_loop (interrupted call ∷ turns) = (interrupt_code, pair_cancel ∷ [])
  pair_loop (pair_request answer call ∷ turns) =
      let rest = pair_loop turns in
      sent (prompted (approves answer)) call (if approves answer then rest else (1, []))

  -- `cmd_pair`: the window is opened first, and a ControlError ends the program
  abbrev pub cmd_pair : (begin : Result (Unit {0})) → List Turn → ℕ × List Command
  cmd_pair (err x) turns = (1, [])
  cmd_pair (ok done) turns = pair_loop turns
