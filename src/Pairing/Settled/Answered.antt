-- ===== src/Pairing/Settled/Answered.antt =====
-- The answers to the submissions that wait for the operator.
use pc_helper_ios.Prelude.{ℕ, ◌≡◌, ◌⊎◌, true, false, none, some, find}
use pc_helper_ios.Unicode.{Unicode}
use pc_helper_ios.Errors.{Exc, pairing_timeout, pairing_denied}
use pc_helper_ios.Crypto.Verify.{Primitives}
use pc_helper_ios.Store.{Store}
use pc_helper_ios.Store.Statements.{Device}
use pc_helper_ios.Pairing.Manager.{
  PendingEnrollment, Settings, System, idle, Decision, undecided, timed_out, decided,
}
use pc_helper_ios.Pairing.Submit.{
  Outcome, stored, failed, refuse, resume, do_resume, with_ticket, step,
}

abbrev IsClosed : System → Type 0
IsClosed s = (s.manager.state ≡ idle) × (s.manager.window ≡ none) × (s.manager.pending ≡ none)

-- What a submission answers by its decision, and what it leaves. An approval that the store refuses
-- answers with the error.
abbrev pub Answered : Decision → Outcome × System → Type 0
Answered undecided r = ⊥
Answered timed_out r = (r.0 ≡ refuse pairing_timeout) × IsClosed r.1
Answered (decided false) r = (r.0 ≡ refuse pairing_denied) × IsClosed r.1
Answered (decided true) r =
    ((d : Device) × (r.0 ≡ stored d) × IsClosed r.1) ⊎ ((x : Exc) × (r.0 ≡ failed x))

-- the decision that a wait which times out goes on with
abbrev pub given : Decision → Decision
given undecided = timed_out
given timed_out = timed_out
given (decided b) = decided b

module _ (u : Unicode) (p : Primitives) (cfg : Settings) where
  -- what the submission does when the event loop runs it: nothing if it waits no more, else it
  -- answers by this decision; in both cases it waits no more
  abbrev pub IsReleased : (n wall : ℕ) → Decision → System → Type 0
  IsReleased n wall d s =
      ((find (with_ticket n) s.parked ≡ none)
        ⊎ ((e : PendingEnrollment) × (find (with_ticket n) s.parked ≡ some e)
            × Answered d (resume e wall s)))
      × (find (with_ticket n) (step u p cfg (do_resume n wall) s).parked ≡ none)
