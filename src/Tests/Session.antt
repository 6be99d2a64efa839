-- ===== src/Tests/Session.antt =====
-- The unlocking against a machine whose session is released 200 ms after the command.
use pc_helper_ios.Prelude.{
  ℕ, ◌+◌, refl, ◌≢◌, Bool, true, false, none, some, [], ◌∷◌, arith, ltb, if◌then◌else◌, Text, codes,
  text_eq,
}
use pc_helper_ios.Errors.{ok}
use pc_helper_ios.Action.{pure}
use pc_helper_ios.Unicode.{ascii, strip, to_lower}
use pc_helper_ios.Config.Sections.{Config}
use pc_helper_ios.Session.{SessionInfo, UnlockResult, Logind, describe_session, is_graphical}
use pc_helper_ios.Session.Target.{IsTarget, find_unlock_target, find_unlock_target-IsTarget}
use pc_helper_ios.Session.Unlocking.Confirmed.{IsConfirmed, unlock_session-IsConfirmed}
use pc_helper_ios.Session.Unlocking.{
  poll, poll_fuel, confirm_timeout, unlock_session, IsClock, await_polls_end,
}

abbrev is_open : Text → Bool
is_open [] = false
is_open (c ∷ s) = true

-- the state is the time
abbrev pub machine : Logind ℕ
machine = record {
  unicode = ascii;
  int = λ s. some 7;
  split_lines = λ s.
      codes "Id=2"
      ∷ codes "User=7"
      ∷ codes "Type=wayland"
      ∷ codes "Class=user"
      ∷ (if is_open s then codes "LockedHint=no" else codes "LockedHint=yes")
      ∷ [];
  uid = 7;
  session_ids = pure ((codes "2", some 7, codes "user") ∷ []);
  run = λ args t. (ok (0, if ltb t 200 then [] else codes "U"), t);
  time = λ t. t;
  sleep = λ t. t + 200;
}

abbrev session : Bool → SessionInfo
session locked = record {
  id = codes "2";
  uid = some 7;
  kind = codes "wayland";
  klass = codes "user";
  active = false;
  locked = locked;
  seat = none;
  desktop = none;
  user = none;
}

sessions : Unit {0}
unfolding describe_session find_unlock_target unlock_session text_eq strip to_lower is_graphical
sessions = tt

find_unlock_target-IsTarget_example : IsTarget machine (session true)
unfolding sessions
find_unlock_target-IsTarget_example =
    find_unlock_target-IsTarget machine none 0 {found = session true} {t = 0} refl

abbrev answered : UnlockResult
answered = record { session = session false; was_locked = true; unlocked = true }

unlock_session-IsConfirmed_example : IsConfirmed machine none 0 answered
unfolding sessions
unlock_session-IsConfirmed_example =
    unlock_session-IsConfirmed machine none 0 {r = answered} {t = 200} refl

machine-IsClock : IsClock machine
machine-IsClock = record { runs = λ args t. omega arith; sleeps = λ t. omega arith }

await_polls_end_example : poll machine poll_fuel (0 + confirm_timeout) (codes "2") 0 ≢ none
await_polls_end_example = await_polls_end machine machine-IsClock (codes "2") 0

abbrev pub enabled : Config
enabled = record {
  name = codes "host";
  http = record {
    port = 8765;
    bind = codes "0.0.0.0";
    allowed_networks = [];
    max_body_bytes = 8192;
    timestamp_skew_s = 30;
    rate_limit_per_minute = 120;
    rate_limit_burst = 30;
  };
  pairing = record {
    window_s = 120;
    require_approval = true;
    max_attempts = 3;
    approval_timeout_s = 60;
  };
  wake_targets = [];
  mdns_enabled = true;
  unlock_enabled = true;
}
