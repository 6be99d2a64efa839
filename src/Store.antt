-- ===== src/Store.antt =====
-- pc-service/src/wol_unlock/store.py: the SQLite tables, the statement that each method runs on
-- them, and the `Store` that guards the connection. The proofs are in the modules below.
pub mod Statements
use Statements.{Tables}
use pc_helper_ios.Prelude.{Bool, true, false}
use pc_helper_ios.Errors.{Result, err, runtime_error}
use pc_helper_ios.Action.{Action}

-- The file survives the connection: `connected` says whether `_conn` is not None.
pub record Store : Type 0 where
  pub connected : Bool
  pub tables : Tables

abbrev answer {ℓ} : {A S : Type ℓ} → Result A × Tables → (Tables → S) → Result A × S
answer (r, t) build = (r, build t)

-- `_run`: the statement on the open connection, or RuntimeError
abbrev run_on : {A : Type 0} → Bool → (Tables → Result A × Tables) → Action Store A
run_on true op s = answer (op s.tables) (λ t. record { connected = true; tables = t })
run_on false op s = (err runtime_error, s)

abbrev pub call : {A : Type 0} → (Tables → Result A × Tables) → Action Store A
call op s = run_on s.connected op s

-- `_open_sync` (the schema is `CREATE TABLE IF NOT EXISTS`) and `_close_sync`
unfoldable pub open_store : Tables → Store
open_store t = record { connected = true; tables = t }

unfoldable pub close_store : Store → Store
close_store s = record s { connected = false }
