-- ===== src/Http/Auth/Reopened.antt =====
-- The checks of a request, once more after a sweep.
use pc_helper_ios.Prelude.{ℕ, ◌+◌, ◌*◌, ◌≡◌, refl, subst, inl, inr, true, arith, Bool-cases, Text}
use pc_helper_ios.Errors.{ok, >>=-eq-ok}
use pc_helper_ios.Action.{returned-injective}
use pc_helper_ios.Crypto.Verify.{SignedRequestHeaders, check_timestamp}
use pc_helper_ios.Crypto.Verify.Laws.{check_timestamp_iff}
use pc_helper_ios.Store.Statements.{Device, Tables, touch_device, consume_nonce, sweep_nonces}
use pc_helper_ios.Http.Request.{Request, Clocks, Context, World}
use pc_helper_ios.Http.Auth.{verify, spend_nonce}
use pc_helper_ios.Http.Auth.Replay.{sweep_reopens}

-- the sweep of the nonces at a second
abbrev pub swept : ℕ → World → World
swept now w = record w { store = record w.store { tables = (sweep_nonces now w.store.tables).1 } }

still_free :
    (i n : Text) (now skew later seen : ℕ) (t : Tables)
    → (consume_nonce i n (now + 2 * skew) t).0 ≡ true
    → (consume_nonce i n later
        (sweep_nonces
          (now + 2 * skew)
          (touch_device i seen (consume_nonce i n (now + 2 * skew) t).1)).1).0
      ≡ true
unfolding consume_nonce sweep_nonces touch_device
still_free i n now skew later seen t h = ground (arith, (sweep_reopens i n now skew later t h).2)

module _ (ctx : Context) (r : Request) (c c' : Clocks) (headers : SignedRequestHeaders) where
  verified_again :
      (d : Device)
      → headers.timestamp ≡ c.now + ctx.skew
      → c'.now ≡ c.now + 2 * ctx.skew
      → verify ctx r c headers d ≡ ok tt
      → verify ctx r c' headers d ≡ ok tt
  unfolding verify
  verified_again d ahead second h =
      let (_, on_time, h1) = >>=-eq-ok (check_timestamp headers.timestamp c.now ctx.skew) _ h in
      let again : check_timestamp headers.timestamp c'.now ctx.skew ≡ ok tt =
        (check_timestamp_iff headers.timestamp c'.now ctx.skew).1 (omega arith, omega arith) in
      rw again h1

  spent_again :
      (d : Device) (w w' : World)
      → c'.now ≡ c.now + 2 * ctx.skew
      → w.store.connected ≡ true
      → spend_nonce ctx c headers d w ≡ (ok tt, w')
      → (spend_nonce ctx c' headers d (swept c'.now w')).0 ≡ ok tt
  unfolding spend_nonce
  spent_again d w w' second connected h =
      elim (Bool-cases
        ((consume_nonce d.device_id headers.nonce (c.now + 2 * ctx.skew) w.store.tables).0)) [
          | inr refused ↦ cc (rw (connected, refused) at h)
          | inl fresh ↦
              let left = (returned-injective (rw (connected, fresh) at h)).1 in
              subst (λ (v : World). (spend_nonce ctx c' headers d (swept c'.now v)).0 ≡ ok tt) left
                (rw
                  (
                    second,
                    still_free d.device_id headers.nonce c.now ctx.skew
                        (c.now + 2 * ctx.skew + 2 * ctx.skew) c.now w.store.tables fresh,
                  )
                  refl)
        ]

  -- A request that is stamped `skew` ahead of the clock, is verified, and spends its nonce over an
  -- open store, passes both the verification and the spending once more at the second
  -- `now + 2 * skew`, if the nonces are swept in that second first.
  pub spent_after_sweep :
      (d : Device) (w w' : World)
      → headers.timestamp ≡ c.now + ctx.skew
      → c'.now ≡ c.now + 2 * ctx.skew
      → w.store.connected ≡ true
      → verify ctx r c headers d ≡ ok tt
      → spend_nonce ctx c headers d w ≡ (ok tt, w')
      → (verify ctx r c' headers d ≡ ok tt)
        × ((spend_nonce ctx c' headers d (swept c'.now w')).0 ≡ ok tt)
  spent_after_sweep d w w' ahead second connected verified spent =
      (verified_again d ahead second verified, spent_again d w w' second connected spent)
