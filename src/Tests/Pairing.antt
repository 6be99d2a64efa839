-- ===== src/Tests/Pairing.antt =====
-- Runs of the pairing.
use pc_helper_ios.Prelude.{
  ℕ, ◌≡◌, refl, true, none, some, List, [], ◌∷◌, arith, Text, codes, text_eq,
}
use pc_helper_ios.Unicode.{ascii}
use pc_helper_ios.Crypto.Base64.{b64u_decode, b64u_encode, sextet, char_of}
use pc_helper_ios.Store.{open_store}
use pc_helper_ios.Store.Statements.{empty}
use pc_helper_ios.Pairing.Code.{hash_code, normalize_code}
use pc_helper_ios.Pairing.Manager.{
  idle, opened, awaiting_approval, PendingEnrollment, OpenWindow, Settings, System, start,
}
use pc_helper_ios.Pairing.Submit.{
  Attempt, Op, do_begin, do_submit, do_resolve, do_cancel, do_resume, step, steps,
}
use pc_helper_ios.Pairing.Enrollment.Approval.{AllVouched, steps-AllVouched}
use pc_helper_ios.Pairing.Enrollment.Trusted.{step-store}
use pc_helper_ios.Pairing.Shape.{IsShaped, IsShaped-start, steps-IsShaped}
use pc_helper_ios.Pairing.Guessing.{IsGuess, guesses, guesses_close, resume_closes_newer}
use pc_helper_ios.Pairing.Phases.{Move, phase}
use pc_helper_ios.Pairing.Phases.Refined.{step-Move}
use pc_helper_ios.Tests.Data.{zeros, letters, toy, zero_signature}

abbrev pub asking : Settings
asking = record {
  window_s = 120;
  require_approval = true;
  max_attempts = 3;
  approval_timeout_s = 60;
  server_fp = letters 43;
}

abbrev fresh : System
fresh = start (open_store empty)

abbrev attempt : Text → Attempt
attempt code = record {
  code = code;
  device_pubkey = letters 43;
  proof = zero_signature;
  device_name = codes "Phone";
  platform = codes "ios";
}

-- the operator opens a window, the phone submits its code, the operator agrees
abbrev pairing : List Op
pairing =
    do_begin none (codes "ABCDEFGH") 10 1000
    ∷ do_submit (attempt (codes "XXXXXXXX")) 11 1001
    ∷ do_submit (attempt (codes "ABCD-EFGH")) 12 1002
    ∷ do_resolve true
    ∷ do_resume 0 1003
    ∷ []

steps-AllVouched_example : AllVouched ascii toy asking (steps ascii toy asking pairing fresh)
steps-AllVouched_example = steps-AllVouched ascii toy asking pairing fresh tt

steps-IsShaped_example : IsShaped 3 (steps ascii toy asking pairing fresh).manager
steps-IsShaped_example =
    steps-IsShaped ascii toy asking (omega arith) pairing fresh
      (IsShaped-start ascii toy asking (omega arith) (open_store empty))

abbrev submission : Op
submission = do_submit (attempt (codes "ABCD-EFGH")) 12 1002

abbrev waiting_window : System
waiting_window = record fresh {
  manager = record fresh.manager {
    state = opened;
    window = some (record {
      code_hash = zeros 32;
      opened_at = 10;
      deadline_monotonic = 130;
      expires_at_wall = 1120;
      attempts_left = 3;
      code_for_display = codes "ABCDEFGH";
    });
  };
}

step-store_example : (step ascii toy asking submission waiting_window).store ≡ open_store empty
step-store_example = step-store ascii toy asking refl submission waiting_window tt

abbrev open_window : OpenWindow
open_window = record {
  code_hash = zeros 32;
  opened_at = 10;
  deadline_monotonic = 130;
  expires_at_wall = 1120;
  attempts_left = 3;
  code_for_display = codes "ABCDEFGH";
}

decoding : Unit {0}
unfolding b64u_decode b64u_encode sextet char_of hash_code normalize_code text_eq
decoding = tt

guess : IsGuess ascii toy asking (zeros 32) (attempt (codes "XXXX"))
unfolding decoding
guess = record {
  pubkey = zeros 32;
  proof = zeros 64;
  key_decodes = refl;
  proof_decodes = refl;
  wrong = refl;
}

abbrev three_guesses : List (Attempt × ℕ × ℕ)
three_guesses =
    (attempt (codes "XXXX"), 11, 1001)
    ∷ (attempt (codes "XXXX"), 12, 1002)
    ∷ (attempt (codes "XXXX"), 13, 1003)
    ∷ []

guesses_close_example : (guesses ascii toy asking three_guesses waiting_window).manager.state ≡ idle
guesses_close_example =
    guesses_close ascii toy asking three_guesses open_window waiting_window refl refl (omega arith)
      (omega arith) (guess, (guess, (guess, tt)))

abbrev enrollment : PendingEnrollment
enrollment = record {
  ticket = 0;
  device_id = letters 22;
  pubkey = zeros 32;
  fingerprint = letters 43;
  device_name = codes "Phone";
  platform = codes "ios";
  requested_at = 1000;
}

abbrev asked : System
asked = record waiting_window {
  manager = record waiting_window.manager {
    state = awaiting_approval;
    pending = some enrollment;
    next = 1;
  };
  parked = enrollment ∷ [];
}

resume_closes_newer_example :
    ((steps ascii toy asking
        (do_cancel ∷ do_begin none (codes "NEWCODES") 20 1010 ∷ [])
        asked).manager.state
      ≡ opened)
    × ((steps ascii toy asking
          (do_cancel ∷ do_begin none (codes "NEWCODES") 20 1010 ∷ do_resume 0 1011 ∷ [])
          asked).manager.state
        ≡ idle)
resume_closes_newer_example =
    resume_closes_newer ascii toy asking asked enrollment none (codes "NEWCODES") 20 1010 1011 refl
      refl refl (omega arith) (omega arith)

step-Move_example :
    Move (phase waiting_window) (phase (step ascii toy asking submission waiting_window))
step-Move_example = step-Move ascii toy asking submission waiting_window
