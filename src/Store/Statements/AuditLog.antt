-- ===== src/Store/Statements/AuditLog.antt =====
-- The audit table: identifiers grow, and pruning bounds the table.
use pc_helper_ios.Prelude.{
  ℕ, zero, suc, ◌+◌, ◌-◌, ◌≤◌, ◌<◌, min, max, ◌≡◌, refl, inl, inr, Bool, not, Option, List, [], ◌∷◌,
  arith, Bool-cases, length, take, keep, Text,
}
use pc_helper_ios.Store.Statements.{
  Audit, Tables, add_audit, max_id, is_old, prune_audit, tail_audit,
}

-- newest first, each identifier below the one before it and none above `top`
abbrev pub IsDescending : ℕ → List Audit → Type 0
IsDescending top [] = Unit
IsDescending top (r ∷ rs) = (0 < r.id) × (r.id ≤ top) × IsDescending (r.id - 1) rs

pub IsDescending-mono : (a b : ℕ) (rs : List Audit) → a ≤ b → IsDescending a rs → IsDescending b rs
IsDescending-mono a b [] h k = tt
IsDescending-mono a b (r ∷ rs) h k = (k.0, omega arith, k.2)

abbrev pub IsNumbered : Tables → Type 0
IsNumbered t = IsDescending t.last_id t.audit

max_id-le : (top : ℕ) (rs : List Audit) → IsDescending top rs → max_id rs ≤ top
max_id-le top [] h = omega arith
max_id-le top (r ∷ rs) h = omega (arith, max_id-le (r.id - 1) rs h.2)

IsDescending-keep :
    (p : Audit → Bool) (top : ℕ) (rs : List Audit)
    → IsDescending top rs
    → IsDescending top (keep p rs)
IsDescending-keep p top [] h = tt
IsDescending-keep p top (r ∷ rs) h = elim (Bool-cases (p r)) [
  | inl kept ↦ rw kept (h.0, h.1, IsDescending-keep p (r.id - 1) rs h.2)
  | inr gone ↦
      rw gone
        (IsDescending-mono (r.id - 1) top _ (omega arith) (IsDescending-keep p (r.id - 1) rs h.2))
]

-- rows with distinct identifiers in a range are no more than the range is long
length-keep_recent :
    (kept top bound : ℕ) (rs : List Audit)
    → IsDescending bound rs
    → length (keep (λ r. not (is_old kept top r)) rs) ≤ bound + kept - top
length-keep_recent kept top bound [] h = omega arith
length-keep_recent kept top bound (r ∷ rs) h =
    ground (arith, length-keep_recent kept top (r.id - 1) rs h.2)

-- The newest row has the greatest identifier, so the maximum is that of the head.
max_id-head :
    (r : Audit) (rs : List Audit) (top : ℕ) → IsDescending top (r ∷ rs) → max_id (r ∷ rs) ≡ r.id
max_id-head r rs top h = omega (arith, max_id-le (r.id - 1) rs h.2)

-- Both statements that write the table keep its rows numbered downwards, newest first.
pub add_audit-IsNumbered :
    (ts : ℕ) (action result : Text) (i ip detail : Option Text) (t : Tables)
    → IsNumbered t
    → IsNumbered (add_audit ts action result i ip detail t)
unfolding add_audit
add_audit-IsNumbered ts action result i ip detail t h =
    (omega arith, omega arith, IsDescending-mono t.last_id _ t.audit (omega arith) h)

pub prune_audit-IsNumbered :
    (kept : ℕ) (t : Tables) → IsNumbered t → IsNumbered (prune_audit kept t).1
unfolding prune_audit
prune_audit-IsNumbered kept t h = IsDescending-keep _ t.last_id t.audit h

-- If the audit rows are numbered downwards from the newest, then at most `kept` of them are left
-- after a prune.
pub length-prune_audit :
    (kept : ℕ) (t : Tables) → IsNumbered t → length (prune_audit kept t).1.audit ≤ kept
unfolding prune_audit
length-prune_audit kept t h = bound (max_id t.audit) t.audit refl h
  where
    bound :
        (top : ℕ) (rs : List Audit)
        → max_id rs ≡ top
        → IsDescending t.last_id rs
        → length (keep (λ r. not (is_old kept top r)) rs) ≤ kept
    bound top [] e k = omega arith
    bound top (r ∷ rs) e k = omega (
      arith,
      max_id-head r rs t.last_id k,
      length-keep_recent kept top r.id (r ∷ rs) (k.0, omega arith, k.2),
    )

length-take-le {ℓ} : {A : Type ℓ} (n : ℕ) (xs : List A) → length (take n xs) ≤ n
length-take-le zero xs = omega arith
length-take-le (suc n) [] = omega arith
length-take-le (suc n) (x ∷ xs) = omega (arith, length-take-le n xs)

-- No more than 1000 rows are read, whatever limit is asked for.
pub length-tail_audit-le : (limit : ℕ) (t : Tables) → length (tail_audit limit t) ≤ 1000
unfolding tail_audit
length-tail_audit-le limit t = omega (arith, length-take-le (max 1 (min limit 1000)) t.audit)
