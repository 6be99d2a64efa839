-- ===== src/Http/Auth/Replay.antt =====
-- A captured request against the middleware: the nonce, the clock and the sweeps together.
use pc_helper_ios.Prelude.{
  ℕ, ◌+◌, ◌*◌, ◌≤◌, ◌<◌, ◌≡◌, refl, sym, ap, ◌∙◌, subst, inl, inr, true, false, not, some, List, [],
  ◌∷◌, arith, ltb, ltb→lt, Bool-cases, keep, any, find, All, Text, text_eq, text_eq_iff,
}
use pc_helper_ios.Errors.{ok, ok-injective}
use pc_helper_ios.Crypto.Verify.{SignedRequestHeaders, parse_auth_headers, check_timestamp}
use pc_helper_ios.Crypto.Verify.Laws.{check_timestamp_iff}
use pc_helper_ios.Store.Statements.{
  Device, Nonce, Tables, has_id, is_nonce, get_device, touch_device, consume_nonce, sweep_nonces,
  expired,
}
use pc_helper_ios.Store.Statements.Replay.{
  Write, upsert, revoke, delete, touch, consume, sweep, log, prune, write, writes, Spares,
  consume_nonce_once,
}
use pc_helper_ios.Http.Request.{Request, Clocks, Context, World}
use pc_helper_ios.Http.Auth.{authenticate}
use pc_helper_ios.Http.Auth.Admission.{authenticate-IsAdmitted}

-- the device is not removed, and no sweep runs after the time `now`
abbrev pub IsQuiet : Text → ℕ → Write → Type 0
IsQuiet i now (delete j) = text_eq j i ≡ false
IsQuiet i now (sweep t) = t ≤ now
IsQuiet i now _ = Unit

IsQuiet-Spares : (i : Text) (now e : ℕ) (w : Write) → now < e → IsQuiet i now w → Spares i e w
IsQuiet-Spares i now e (delete j) h q = q
IsQuiet-Spares i now e (sweep t) h q = omega arith
IsQuiet-Spares i now e (upsert a b c d n) h q = tt
IsQuiet-Spares i now e (revoke a n) h q = tt
IsQuiet-Spares i now e (touch a n) h q = tt
IsQuiet-Spares i now e (consume a b n) h q = tt
IsQuiet-Spares i now e (log a b c d f g) h q = tt
IsQuiet-Spares i now e (prune n) h q = tt

All-Spares :
    (i : Text) (now e : ℕ) (ws : List Write)
    → now < e
    → All (IsQuiet i now) ws
    → All (Spares i e) ws
All-Spares i now e [] h q = tt
All-Spares i now e (w ∷ ws) h q = (IsQuiet-Spares i now e w h q.0, All-Spares i now e ws h q.1)

find-has_id :
    (i : Text) (ds : List Device) (d : Device) → find (has_id i) ds ≡ some d → d.device_id ≡ i
find-has_id i [] d h = cc
find-has_id i (x ∷ ds) d h = ground (arith, find-has_id i ds d, text_eq_iff x.device_id i)

device_id-get_device :
    (i : Text) (t : Tables) (d : Device) → get_device i t ≡ some d → d.device_id ≡ i
unfolding get_device
device_id-get_device i t d h = find-has_id i t.devices d h

-- a nonce that is both fresh and refused
clash :
    (i i' n n' : Text) (e : ℕ) (t t' : Tables)
    → i' ≡ i
    → n' ≡ n
    → t' ≡ t
    → (consume_nonce i' n' e t').0 ≡ true
    → (consume_nonce i n e t).0 ≡ false
    → ⊥
clash i i' n n' e t t' hi hn ht fresh refused = cc (
  fresh,
  refused,
  ap (λ (x : Text). (consume_nonce x n' e t').0) hi,
  ap (λ (x : Text). (consume_nonce i x e t').0) hn,
  ap (λ (x : Tables). (consume_nonce i n e x).0) ht,
)

module _ (ctx : Context) (r : Request) (c : Clocks) (w : World) (d : Device) (w' : World) where
  -- Once a request was accepted, no request with its headers is accepted again, whatever was
  -- written in between, if the device was not removed, no sweep ran later than the second time,
  -- and the timestamp was less than the whole skew ahead of the clock.
  pub replay_refused :
      (headers : SignedRequestHeaders) (r' : Request) (c' : Clocks) (ws : List Write) (w2 : World)
      (d' : Device) (w3 : World)
      → authenticate ctx r c w ≡ (ok d, w')
      → parse_auth_headers ctx.unicode r.headers ≡ ok headers
      → parse_auth_headers ctx.unicode r'.headers ≡ ok headers
      → headers.timestamp < c.now + ctx.skew
      → All (IsQuiet d.device_id c'.now) ws
      → w2.store.tables ≡ writes ws w'.store.tables
      → ¬ (authenticate ctx r' c' w2 ≡ (ok d', w3))
  unfolding write writes
  replay_refused headers r' c' ws w2 d' w3 first parsed parsed' ahead quiet between again =
      let (a, left) = authenticate-IsAdmitted ctx r c w d w' first in
      let (a', _) = authenticate-IsAdmitted ctx r' c' w2 d' w3 again in
      let same : a.headers ≡ headers = ok-injective (sym a.parsed ∙ parsed) in
      let same' : a'.headers ≡ headers = ok-injective (sym a'.parsed ∙ parsed') in
      let id : d.device_id ≡ headers.device_id =
        device_id-get_device a.headers.device_id w.store.tables d a.enrolled
        ∙ ap (λ (h : SignedRequestHeaders). h.device_id) same in
      let id' : d'.device_id ≡ headers.device_id =
        device_id-get_device a'.headers.device_id w2.store.tables d' a'.enrolled
        ∙ ap (λ (h : SignedRequestHeaders). h.device_id) same' in
      let e : ℕ = c.now + 2 * ctx.skew in
      let nonce_of = λ (h : SignedRequestHeaders). h.nonce in
      let spent : (consume_nonce d.device_id headers.nonce e w.store.tables).0 ≡ true =
        subst
          (λ (h : SignedRequestHeaders).
            (consume_nonce d.device_id h.nonce e w.store.tables).0 ≡ true)
          same a.fresh in
      let kept : w'.store.tables
          ≡ touch_device d.device_id c.now
              (consume_nonce d.device_id headers.nonce e w.store.tables).1 =
        subst
          (λ (h : SignedRequestHeaders).
            w'.store.tables
            ≡ touch_device d.device_id c.now (consume_nonce d.device_id h.nonce e w.store.tables).1)
          same left in
      elim (Bool-cases (ltb c'.now e)) [
        | inl soon ↦
            clash d.device_id d'.device_id headers.nonce a'.headers.nonce _ _ w2.store.tables
              (id' ∙ sym id) (ap nonce_of same') (between ∙ ap (writes ws) kept) a'.fresh
              (consume_nonce_once d.device_id headers.nonce e w.store.tables
                (touch d.device_id c.now ∷ ws) (c'.now + 2 * ctx.skew) spent
                (tt, All-Spares d.device_id c'.now e ws (ltb→lt c'.now e soon) quiet))
        | inr late ↦
            let stamp = ap (λ (h : SignedRequestHeaders). h.timestamp) same' in
            let old = a'.recent.1 in
            let past : e ≤ c'.now = ground arith in omega (arith, stamp, old)
      ]

-- A nonce that is inserted with the expiry `now + 2 * skew` is inserted once more after a sweep at
-- the second `now + 2 * skew`, with any expiry; and a timestamp of `now + skew` passes the clock
-- check at `now` and at `now + 2 * skew` alike.
pub sweep_reopens :
    (i n : Text) (now skew later : ℕ) (t : Tables)
    → (consume_nonce i n (now + 2 * skew) t).0 ≡ true
    → (check_timestamp (now + skew) now skew ≡ ok tt)
      × (check_timestamp (now + skew) (now + 2 * skew) skew ≡ ok tt)
      × ((consume_nonce i n later
            (sweep_nonces (now + 2 * skew) (consume_nonce i n (now + 2 * skew) t).1).1).0
          ≡ true)
unfolding consume_nonce sweep_nonces
sweep_reopens i n now skew later t h = (
  (check_timestamp_iff (now + skew) now skew).1 (omega arith, omega arith),
  (check_timestamp_iff (now + skew) (now + 2 * skew) skew).1 (omega arith, omega arith),
  ground (arith, none_left t.nonces),
)
  where
    none_left :
        (rs : List Nonce)
        → any (is_nonce i n) rs ≡ false
        → any (is_nonce i n) (keep (λ x. not (expired (now + 2 * skew) x)) rs) ≡ false
    none_left [] k = refl
    none_left (x ∷ rs) k = ground (arith, none_left rs)
