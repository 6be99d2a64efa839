-- ===== src/Service/Sweep.antt =====
-- pc-service/src/wol_unlock/service.py: one round of the sweep.
use pc_helper_ios.Prelude.{
  ℕ, ◌≤◌, ◌≡◌, refl, ap, fun_ext, true, not, List, arith, ltb, length, keep,
}
use pc_helper_ios.Errors.{Result, ok, err}
use pc_helper_ios.Store.{Store, open_store, call}
use pc_helper_ios.Store.Statements.{Nonce, empty, expired, sweep_nonces, prune_audit}
use pc_helper_ios.Store.Statements.Numbered.{writes-IsNumbered}
use pc_helper_ios.Store.Statements.Replay.{Write, writes}
use pc_helper_ios.Store.Statements.AuditLog.{IsNumbered, length-prune_audit}

abbrev pub sweep_interval_s : ℕ
sweep_interval_s = 30

-- AUDIT_KEEP
abbrev pub audit_keep : ℕ
audit_keep = 5000

abbrev pruned : Result ℕ × Store → Store
pruned (err x, s) = s
pruned (ok removed, s) = (call (λ t. let (n, u) = prune_audit audit_keep t in (ok n, u)) s).1

-- One turn of `_sweep_loop` after its sleep: an exception ends the turn, not the loop.
unfoldable pub sweep_round : (now : ℕ) → Store → Store
unfolding sweep_nonces prune_audit
sweep_round now s = pruned (call (λ t. let (n, u) = sweep_nonces now t in (ok n, u)) s)

live : (now : ℕ) (r : Nonce) → not (expired now r) ≡ ltb now r.expires_at
live now r = ground arith

swept :
    (now : ℕ) (s : Store)
    → s.connected ≡ true
    → IsNumbered s.tables
    → ((sweep_round now s).tables.nonces
        ≡ keep (λ (r : Nonce). ltb now r.expires_at) s.tables.nonces)
      × (length (sweep_round now s).tables.audit ≤ audit_keep)
unfolding sweep_round
swept now s connected h = rw connected (
  ap (λ p. keep p s.tables.nonces) (fun_ext (λ r. live now r)),
  length-prune_audit audit_keep (sweep_nonces now s.tables).1 h,
)

-- Whatever statements have run on new tables, a turn of the sweep over the open store leaves of the
-- nonces those that have not expired, and of the audit at most 5000 rows.
pub sweep_round-writes :
    (ws : List Write) (now : ℕ)
    → let s = open_store (writes ws empty) in
      ((sweep_round now s).tables.nonces
        ≡ keep (λ (r : Nonce). ltb now r.expires_at) s.tables.nonces)
      × (length (sweep_round now s).tables.audit ≤ audit_keep)
unfolding open_store
sweep_round-writes ws now =
    swept now (open_store (writes ws empty)) refl (writes-IsNumbered ws empty tt)
