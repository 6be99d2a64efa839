-- ===== src/Cli/Approval.antt =====
-- Nothing is approved that the operator did not say yes to.
use pc_helper_ios.Prelude.{
  ℕ, ◌≡◌, refl, ap, ◌∙◌, Bool, true, false, Option, none, some, List, [], ◌∷◌, if◌then◌else◌, Text,
}
use pc_helper_ios.Errors.{Result, ok, err}
use pc_helper_ios.Unicode.{Unicode}
use pc_helper_ios.Control.Commands.{Command, pair_approve, pair_deny}
use pc_helper_ios.Cli.{
  Turn, pair_request, pair_completed, other_event, no_event, pair_closed, interrupted, prompted,
  sent, approves, pair_loop,
}

-- the commands of the requests that come, up to the first that is not approved
unfoldable pub answers : (Option Text → Bool) → List Turn → List Bool
answers p [] = []
answers p (pair_request answer (ok done) ∷ turns) =
    let rest = answers p turns in if p answer then true ∷ rest else false ∷ []
answers p (pair_request answer (err x) ∷ turns) = p answer ∷ []
answers p (other_event ∷ turns) = answers p turns
answers p (_ ∷ turns) = []

-- a command that decides on an enrollment, with what it decides
abbrev pub decision : Command → Option Bool
decision pair_approve = some true
decision pair_deny = some false
decision _ = none

unfoldable pub decisions : List Command → List Bool
decisions [] = []
decisions (c ∷ cs) =
    let rest = decisions cs in elim (decision c) [ none ↦ rest | some b ↦ b ∷ rest ]

module _ (u : Unicode) (locale : Text) (auto_yes : Bool) where
  sent-decisions :
      (b : Bool) (call : Result (Unit {0})) (rest : ℕ × List Command)
      → decisions (sent (prompted b) call (if b then rest else (1, []))).1 ≡ elim call [
        | err x ↦ b ∷ []
        | ok done ↦ (if b then true ∷ decisions rest.1 else false ∷ [])
      ]
  unfolding decisions
  sent-decisions true (err x) rest = refl
  sent-decisions false (err x) rest = refl
  sent-decisions true (ok done) rest = refl
  sent-decisions false (ok done) rest = refl

  -- The command that answers a request for approval is the one that the operator gave: to each
  -- request, in order, it is an approval exactly if the answer that was typed means yes, or `--yes`
  -- was given; and nothing is decided on after the first refusal.
  pub pair_loop-answers :
      (turns : List Turn)
      → decisions (pair_loop u locale auto_yes turns).1 ≡ answers (approves u locale auto_yes) turns
  unfolding pair_loop answers decisions
  pair_loop-answers [] = refl
  pair_loop-answers (no_event ∷ turns) = refl
  pair_loop-answers (other_event ∷ turns) = pair_loop-answers turns
  pair_loop-answers (pair_completed ∷ turns) = refl
  pair_loop-answers (pair_closed reason ∷ turns) = refl
  pair_loop-answers (interrupted call ∷ turns) = refl
  pair_loop-answers (pair_request answer (err x) ∷ turns) =
      sent-decisions (approves u locale auto_yes answer) (err x) (pair_loop u locale auto_yes turns)
  pair_loop-answers (pair_request answer (ok done) ∷ turns) =
      sent-decisions (approves u locale auto_yes answer) (ok done)
        (pair_loop u locale auto_yes turns)
      ∙ ap (λ ds. if approves u locale auto_yes answer then true ∷ ds else false ∷ [])
          (pair_loop-answers turns)
