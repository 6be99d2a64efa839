-- ===== src/Http/Info/Pair.antt =====
-- What the pair handler does to the pairing.
use pc_helper_ios.Prelude.{ℕ, Bool, Option, Text}
use pc_helper_ios.Errors.{Result, ok, err}
use pc_helper_ios.Unicode.{Unicode}
use pc_helper_ios.Value.{Value}
use pc_helper_ios.Crypto.Verify.{Primitives}
use pc_helper_ios.Pairing.Manager.{Settings, System}
use pc_helper_ios.Pairing.Phases.{Move, stays, phase}
use pc_helper_ios.Pairing.Phases.Refined.{step-Move}
use pc_helper_ios.Pairing.Submit.{Attempt, do_submit, step}
use pc_helper_ios.Http.Info.{submitted, attempt_of, pair}

-- Whatever the body of a pair request is, the handler makes a move of the promised window.
pub pair-Move :
    (loads : Text → Option Value) (float_one : Value → Bool) (u : Unicode) (p : Primitives)
    (cfg : Settings) (body : Text) (now wall : ℕ) (s : System)
    → Move (phase s) (phase (pair loads float_one u p cfg body now wall s).1)
unfolding pair step
pair-Move loads float_one u p cfg body now wall s = go (attempt_of loads float_one body)
  where
    go :
        (r : Result Attempt)
        → Move (phase s) (phase (submitted loads float_one u p cfg r now wall s).1)
    go (err x) = stays (phase s)
    go (ok a) = step-Move u p cfg (do_submit a now wall) s
