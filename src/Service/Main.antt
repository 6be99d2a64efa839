-- ===== src/Service/Main.antt =====
-- pc-service/src/wol_unlock/__main__.py: what the service program does, and its exit code.
use pc_helper_ios.Prelude.{ℕ, Bool, Option, none, some, if◌then◌else◌}
use pc_helper_ios.Errors.{
  Exc, api, http, value_error, config_error, runtime_error, integrity_error, os_error, Result, ok,
  err,
}
use pc_helper_ios.Config.Sections.{Config}

pub record Options : Type 0 where
  pub write_default_config : Bool
  pub check : Bool

-- an exception that nothing handles ends Python with 1
abbrev pub load_code : Exc → ℕ
load_code config_error = 2
load_code (api e) = 1
load_code (http status) = 1
load_code value_error = 1
load_code runtime_error = 1
load_code integrity_error = 1
load_code os_error = 1

abbrev write_code : Result (Unit {0}) → ℕ
write_code (err x) = 1
write_code (ok done) = 0

-- the run of the service, none for a KeyboardInterrupt
abbrev run_code : Option ℕ → ℕ
run_code none = 130
run_code (some code) = code

abbrev with_config : (check : Bool) → Result Config → (running : Config → Option ℕ) → ℕ
with_config check (err x) running = load_code x
with_config check (ok c) running = if check then 0 else run_code (running c)

-- `main`, where `written` is how `write_default_config` ends and `loaded` how `load` does
unfoldable pub main :
    Options
    → (written : Result (Unit {0})) → (loaded : Result Config) → (running : Config → Option ℕ) → ℕ
main o written loaded running =
    if o.write_default_config then write_code written else with_config o.check loaded running
