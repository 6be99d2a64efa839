-- ===== src/RateLimit.antt =====
-- pc-service/src/wol_unlock/ratelimit.py: token buckets under text keys. Times are counted in ticks,
-- `hz` to a second, and tokens in parts, `60 * hz` to a token, so that one tick refills exactly
-- `per_minute` parts: the model is the code over exact numbers in the place of floats.
pub mod Refill
pub mod Keys
use pc_helper_ios.Prelude.{
  ℕ, zero, suc, ◌+◌, ◌-◌, ◌*◌, ◌/◌, ◌%◌, ◌^◌, ◌≤◌, ◌<◌, min, max, String, ◌≡◌, refl, sym, ap, ◌∙◌,
  subst, fun_ext, ◌≢◌, ◌↔◌, ◌⊎◌, inl, inr, Bool, true, false, ◌&&◌, ◌||◌, not, Option, none, some,
  List, [], ◌∷◌, ◌++◌, map, reverse, arith, ltb, leb, ◌==◌, if◌then◌else◌, ltb→lt, lt→ltb, leb→le,
  le→leb, ==_iff, Bool-cases, Option-cases, is_some, length, take, drop, keep, any, all, find,
  length-append, length-keep-le, length-drop, insert_by, sort_by, length-sort_by, All, All-append,
  All-keep, Text, codes, text_eq, text_eq_refl, text_eq_iff,
}

pub record Bucket : Type 0 where
  pub tokens : ℕ
  pub updated : ℕ

-- The fields of a `RateLimiter` that do not change. `burst` is in parts.
pub record Limits : Type 0 where
  pub rate : ℕ
  pub burst : ℕ
  pub max_keys : ℕ

-- a dictionary in the order of insertion
abbrev pub Buckets : Type 0
Buckets = List (Text × Bucket)

-- `RateLimiter(per_minute, burst, max_keys=…)`
abbrev pub limits : ℕ → ℕ → ℕ → ℕ → Limits
limits hz per_minute burst max_keys = record {
  rate = per_minute;
  burst = burst * (60 * hz);
  max_keys = max_keys;
}

unfoldable pub get : Text → Buckets → Option Bucket
get k [] = none
get k ((j, b) ∷ bs) = if text_eq j k then some b else get k bs

-- the bucket object under the key is changed in place
unfoldable pub put : Text → Bucket → Buckets → Buckets
put k b [] = (k, b) ∷ []
put k b ((j, c) ∷ bs) = let rest = put k b bs in if text_eq j k then (j, b) ∷ bs else (j, c) ∷ rest

-- `elapsed = max(0.0, now - updated)`, then `tokens = min(burst, tokens + elapsed * rate)`
unfoldable pub refill : Limits → ℕ → Bucket → Bucket
refill l now b = record {
  tokens = min l.burst (b.tokens + (now - b.updated) * l.rate);
  updated = now;
}

-- the last lines of `allow`
unfoldable pub spend : ℕ → Bucket → Bool × Bucket
spend cost b =
    if ltb b.tokens cost then (false, b) else (true, record b { tokens = b.tokens - cost })

-- `tokens + (now - updated) * rate >= burst`, where `now - updated` may be negative
unfoldable pub is_stale : Limits → ℕ → Bucket → Bool
is_stale l now b = leb (l.burst + b.updated * l.rate) (b.tokens + now * l.rate)

abbrev by_updated : Text × Bucket → Text × Bucket → Bool
by_updated x y = leb x.1.updated y.1.updated

abbrev key_in : Buckets → Text × Bucket → Bool
key_in dropped x = any (λ (y : Text × Bucket). text_eq y.0 x.0) dropped

-- the least recently touched half, removed key by key
unfoldable pub forget_half : Buckets → Buckets
unfolding sort_by
forget_half bs =
    let dropped = take (length bs / 2) (sort_by by_updated bs) in
    keep (λ x. not (key_in dropped x)) bs

unfoldable pub evict : Limits → ℕ → Buckets → Buckets
unfolding is_stale forget_half
evict l now bs =
    let live = keep (λ (x : Text × Bucket). not (is_stale l now x.1)) bs in
    if leb l.max_keys (length live) then forget_half live else live

abbrev pub full : Limits → ℕ → Bucket
full l now = record { tokens = l.burst; updated = now }

-- `bucket`, and the table that holds it
abbrev pub bucket_for : Limits → Text → ℕ → Buckets → Option Bucket → Bucket × Buckets
bucket_for l k now bs none = (full l now, if leb l.max_keys (length bs) then evict l now bs else bs)
bucket_for l k now bs (some b) = (refill l now b, bs)

unfoldable pub allow : Limits → Text → ℕ → ℕ → Buckets → Bool × Buckets
unfolding get put refill spend evict
allow l k cost now bs =
    let (b, table) = bucket_for l k now bs (get k bs) in
    let (allowed, b') = spend cost b in (allowed, put k b' table)

unfoldable pub reset : Buckets → Buckets
reset bs = []
