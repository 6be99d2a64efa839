-- ===== src/RateLimit/Refill.antt =====
-- One bucket: its bounds, the rate that it grants, and what a stale bucket is worth.
use pc_helper_ios.Prelude.{
  ℕ, ◌+◌, ◌-◌, ◌*◌, ◌≤◌, ◌≡◌, subst, Bool, true, List, [], ◌∷◌, arith, if◌then◌else◌,
}
use pc_helper_ios.RateLimit.{Bucket, Limits, refill, spend, is_stale, full}

-- A request at time `now`: the bucket is refilled, then the tokens are taken.
unfoldable pub request : Limits → ℕ → ℕ → Bucket → Bool × Bucket
unfolding refill spend
request l cost now b = spend cost (refill l now b)

-- The tokens that the requests at these times are granted, and the bucket after them.
pub granted : Limits → ℕ → List ℕ → Bucket → ℕ × Bucket
unfolding request
granted l cost [] b = (0, b)
granted l cost (now ∷ later) b =
    let (allowed, b') = request l cost now b in
    let (sum, last) = granted l cost later b' in ((if allowed then cost else 0) + sum, last)

-- the times do not go back, from `t` on
abbrev pub IsMonotone : ℕ → List ℕ → Type 0
IsMonotone t [] = Unit
IsMonotone t (now ∷ later) = (t ≤ now) × IsMonotone now later

-- the last of the times
abbrev pub last_time : ℕ → List ℕ → ℕ
last_time t [] = t
last_time t (now ∷ later) = last_time now later

split_time : (a b c r : ℕ) → a ≤ b → b ≤ c → (c - a) * r ≡ (b - a) * r + (c - b) * r
split_time a b c r h k = let e : c - a ≡ (b - a) + (c - b) = omega arith in rw e (omega arith)

last_time-le : (t : ℕ) (times : List ℕ) → IsMonotone t times → t ≤ last_time t times
last_time-le t [] m = omega arith
last_time-le t (now ∷ later) m = omega (arith, last_time-le now later m.1)

-- what one request takes and leaves is at most what the bucket held and the time refilled
request_budget :
    (l : Limits) (cost now : ℕ) (b : Bucket)
    → (if (request l cost now b).0 then cost else 0) + (request l cost now b).1.tokens
      ≤ b.tokens + (now - b.updated) * l.rate
unfolding request
request_budget l cost now b = ground arith

updated-request : (l : Limits) (cost now : ℕ) (b : Bucket) → (request l cost now b).1.updated ≡ now
unfolding request
updated-request l cost now b = ground arith

module _ (l : Limits) (cost : ℕ) where
  granted_budget :
      (times : List ℕ) (b : Bucket)
      → IsMonotone b.updated times
      → (granted l cost times b).0 + (granted l cost times b).1.tokens
        ≤ b.tokens + (last_time b.updated times - b.updated) * l.rate
  unfolding granted
  granted_budget [] b m = omega arith
  granted_budget (now ∷ later) b m =
      let b' : Bucket = (request l cost now b).1 in
      let e = updated-request l cost now b in
      let ih = granted_budget later b' (rw e m.1) in
      let step = request_budget l cost now b in
      omega (
        arith,
        subst
            (λ t.
              (granted l cost later b').0 + (granted l cost later b').1.tokens
              ≤ b'.tokens + (last_time t later - t) * l.rate)
            e ih,
        step,
        split_time b.updated now (last_time now later) l.rate m.0 (last_time-le now later m.1),
      )

  -- Over any run of requests whose times do not go back, a bucket grants no more than what it
  -- held at first and what the elapsed time refills.
  pub granted-le :
      (times : List ℕ) (b : Bucket)
      → IsMonotone b.updated times
      → (granted l cost times b).0 ≤ b.tokens + (last_time b.updated times - b.updated) * l.rate
  granted-le times b m = omega (arith, granted_budget times b m)

-- A bucket never holds more than the burst after a request.
pub tokens-request-le :
    (l : Limits) (cost now : ℕ) (b : Bucket) → (request l cost now b).1.tokens ≤ l.burst
unfolding request
tokens-request-le l cost now b = ground arith

-- A stale bucket whose time is not ahead of the clock carries no state: refilled, it is the bucket
-- that a new key starts with.
pub refill-stale :
    (l : Limits) (now : ℕ) (b : Bucket)
    → b.updated ≤ now
    → is_stale l now b ≡ true
    → refill l now b ≡ full l now
unfolding refill is_stale
refill-stale l now b h s =
    let e = split_time 0 b.updated now l.rate (omega arith) h in ground (arith, e)
