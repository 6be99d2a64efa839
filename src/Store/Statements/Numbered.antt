-- ===== src/Store/Statements/Numbered.antt =====
-- The audit rows stay numbered downwards, whatever is written.
use pc_helper_ios.Prelude.{◌≡◌, List, [], ◌∷◌, arith}
use pc_helper_ios.Store.Statements.{
  Tables, upsert_device, revoke_device, delete_device, touch_device, consume_nonce, sweep_nonces,
}
use pc_helper_ios.Store.Statements.AuditLog.{
  IsNumbered, add_audit-IsNumbered, prune_audit-IsNumbered,
}
use pc_helper_ios.Store.Statements.Replay.{
  Write, upsert, revoke, delete, touch, consume, sweep, log, prune, write, writes,
}

same_audit-IsNumbered :
    (t u : Tables) → u.audit ≡ t.audit → u.last_id ≡ t.last_id → IsNumbered t → IsNumbered u
same_audit-IsNumbered t u rows counter h = rw (rows, counter) h

write-IsNumbered : (w : Write) (t : Tables) → IsNumbered t → IsNumbered (write w t)
unfolding write upsert_device revoke_device delete_device touch_device consume_nonce sweep_nonces
write-IsNumbered (upsert i pubkey name platform now) t h =
    same_audit-IsNumbered t (upsert_device i pubkey name platform now t).1 (ground arith)
      (ground arith) h
write-IsNumbered (revoke i now) t h = h
write-IsNumbered (delete i) t h = h
write-IsNumbered (touch i now) t h = h
write-IsNumbered (consume i n expires_at) t h =
    same_audit-IsNumbered t (consume_nonce i n expires_at t).1 (ground arith) (ground arith) h
write-IsNumbered (sweep now) t h = h
write-IsNumbered (log ts action result i ip detail) t h =
    add_audit-IsNumbered ts action result i ip detail t h
write-IsNumbered (prune kept) t h = prune_audit-IsNumbered kept t h

-- Whatever statements have run on new tables, the audit rows are numbered downwards from the newest.
pub writes-IsNumbered : (ws : List Write) (t : Tables) → IsNumbered t → IsNumbered (writes ws t)
unfolding writes
writes-IsNumbered [] t h = h
writes-IsNumbered (w ∷ ws) t h = writes-IsNumbered ws (write w t) (write-IsNumbered w t h)
