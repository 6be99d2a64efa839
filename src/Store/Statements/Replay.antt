-- ===== src/Store/Statements/Replay.antt =====
-- A spent nonce stays spent: the statements against the replay of a request.
use pc_helper_ios.Prelude.{
  ℕ, ◌+◌, ◌<◌, ◌≡◌, refl, Bool, true, false, ◌&&◌, not, Option, List, [], ◌∷◌, arith, leb, length,
  keep, any, All, Text, text_eq, text_eq_refl, text_eq_iff,
}
use pc_helper_ios.Store.Statements.{
  Nonce, Tables, is_nonce, upsert_device, revoke_device, delete_device, touch_device, consume_nonce,
  expired, sweep_nonces, add_audit, prune_audit,
}

-- a statement that writes, with its arguments
pub data Write : Type 0 where
  upsert : Text → Text → Text → Text → ℕ → Write
  revoke : Text → ℕ → Write
  delete : Text → Write
  touch : Text → ℕ → Write
  consume : Text → Text → ℕ → Write
  sweep : ℕ → Write
  log : ℕ → Text → Text → Option Text → Option Text → Option Text → Write
  prune : ℕ → Write

unfoldable pub write : Write → Tables → Tables
write (upsert i pubkey name platform now) t = (upsert_device i pubkey name platform now t).1
write (revoke i now) t = (revoke_device i now t).1
write (delete i) t = (delete_device i t).1
write (touch i now) t = touch_device i now t
write (consume i n expires_at) t = (consume_nonce i n expires_at t).1
write (sweep now) t = (sweep_nonces now t).1
write (log ts action result i ip detail) t = add_audit ts action result i ip detail t
write (prune kept) t = (prune_audit kept t).1

unfoldable pub writes : List Write → Tables → Tables
writes [] t = t
writes (w ∷ ws) t = writes ws (write w t)

-- neither the removal of the device, nor a sweep at or past the time `e`
abbrev pub Spares : Text → ℕ → Write → Type 0
Spares i e (delete j) = text_eq j i ≡ false
Spares i e (sweep now) = now < e
Spares i e _ = Unit

module _ (i n : Text) (e : ℕ) where
  -- a row of the nonce that does not expire before `e`
  abbrev pub holds : Nonce → Bool
  holds r = is_nonce i n r && leb e r.expires_at

  abbrev pub IsSpent : Tables → Type 0
  IsSpent t = any holds t.nonces ≡ true

  any-keep_delete :
      (j : Text) (rs : List Nonce)
      → text_eq j i ≡ false
      → any holds rs ≡ true
      → any holds (keep (λ r. not (text_eq r.device_id j)) rs) ≡ true
  any-keep_delete j [] h k = cc
  any-keep_delete j (r ∷ rs) h k = ground (
    arith,
    any-keep_delete j rs,
    text_eq_iff r.device_id i,
    text_eq_iff r.device_id j,
    text_eq_iff j i,
  )

  any-keep_sweep :
      (now : ℕ) (rs : List Nonce)
      → now < e
      → any holds rs ≡ true
      → any holds (keep (λ r. not (expired now r)) rs) ≡ true
  any-keep_sweep now [] h k = cc
  any-keep_sweep now (r ∷ rs) h k = ground (arith, any-keep_sweep now rs)

  any-holds_spent : (rs : List Nonce) → any holds rs ≡ true → any (is_nonce i n) rs ≡ true
  any-holds_spent [] h = cc
  any-holds_spent (r ∷ rs) h = ground (arith, any-holds_spent rs)

  pub write-IsSpent : (w : Write) (t : Tables) → Spares i e w → IsSpent t → IsSpent (write w t)
  unfolding write upsert_device revoke_device delete_device touch_device consume_nonce sweep_nonces
      add_audit prune_audit
  write-IsSpent (delete j) t s h = any-keep_delete j t.nonces s h
  write-IsSpent (sweep now) t s h = any-keep_sweep now t.nonces s h
  write-IsSpent _ t s h = ground arith

  writes-IsSpent :
      (ws : List Write) (t : Tables) → All (Spares i e) ws → IsSpent t → IsSpent (writes ws t)
  unfolding writes
  writes-IsSpent [] t s h = h
  writes-IsSpent (w ∷ ws) t s h = writes-IsSpent ws (write w t) s.1 (write-IsSpent w t s.0 h)

  consume_nonce-IsSpent :
      (t : Tables) → (consume_nonce i n e t).0 ≡ true → IsSpent (consume_nonce i n e t).1
  unfolding consume_nonce
  consume_nonce-IsSpent t h = ground (arith, text_eq_refl i, text_eq_refl n)

  -- A nonce that was accepted is refused ever after, whatever statements ran in between, as long
  -- as none removed the device and no sweep ran at or after the expiry that the nonce was given.
  pub consume_nonce_once :
      (t : Tables) (ws : List Write) (later : ℕ)
      → (consume_nonce i n e t).0 ≡ true
      → All (Spares i e) ws
      → (consume_nonce i n later (writes ws (consume_nonce i n e t).1)).0 ≡ false
  unfolding consume_nonce
  consume_nonce_once t ws later h s =
      let spent = writes-IsSpent ws _ s (consume_nonce-IsSpent t h) in rw (any-holds_spent _ spent)

-- A sweep removes the rows that have expired and no other, and counts them.
pub sweep_nonces_lem :
    (now : ℕ) (t : Tables)
    → (length t.nonces ≡ (sweep_nonces now t).0 + length (sweep_nonces now t).1.nonces)
      × All (λ r. now < r.expires_at) (sweep_nonces now t).1.nonces
unfolding sweep_nonces
sweep_nonces_lem now t = go t.nonces
  where
    go :
        (rs : List Nonce)
        → (length rs ≡ length (keep (expired now) rs) + length (keep (λ r. not (expired now r)) rs))
          × All (λ r. now < r.expires_at) (keep (λ r. not (expired now r)) rs)
    go [] = (refl, tt)
    go (r ∷ rs) = ground (arith, go rs)
