-- ===== src/RateLimit/Keys.antt =====
-- The table of buckets: what a call decides, whom it touches, and how large the table gets.
use pc_helper_ios.Prelude.{
  ℕ, zero, suc, ◌+◌, ◌/◌, ◌≤◌, ◌<◌, ◌≡◌, refl, sym, ap, ◌∙◌, inl, inr, Bool, true, false, ◌||◌, not,
  none, some, List, [], ◌∷◌, arith, leb, if◌then◌else◌, leb→le, Bool-cases, Option-cases, is_some,
  length, take, keep, any, length-keep-le, insert_by, sort_by, length-sort_by, Text, text_eq,
  text_eq_refl, text_eq_iff,
}
use pc_helper_ios.RateLimit.{
  Bucket, Buckets, Limits, get, put, refill, spend, is_stale, by_updated, key_in, forget_half,
  evict, full, allow,
}
use pc_helper_ios.RateLimit.Refill.{request}

get-put :
    (k j : Text) (b : Bucket) (bs : Buckets)
    → get j (put k b bs) ≡ (if text_eq k j then some b else get j bs)
unfolding get put
get-put k j b [] = refl
get-put k j b ((i, c) ∷ bs) =
    ground (arith, text_eq_iff i k, text_eq_iff i j, text_eq_iff k j, get-put k j b bs)

length-put :
    (k : Text) (b : Bucket) (bs : Buckets)
    → length (put k b bs) ≡ length bs + (if is_some (get k bs) then 0 else 1)
unfolding get put
length-put k b [] = omega arith
length-put k b ((i, c) ∷ bs) = ground (arith, length-put k b bs)

length-put_new :
    (k : Text) (b : Bucket) (bs : Buckets) → get k bs ≡ none → length (put k b bs) ≡ length bs + 1
length-put_new k b bs h = length-put k b bs ∙ rw h

get-keep :
    (p : Text × Bucket → Bool) (k : Text) (bs : Buckets)
    → get k bs ≡ none
    → get k (keep p bs) ≡ none
unfolding get
get-keep p k [] h = refl
get-keep p k ((i, c) ∷ bs) h = ground (arith, get-keep p k bs)

get-evict :
    (l : Limits) (now : ℕ) (k : Text) (bs : Buckets)
    → get k bs ≡ none
    → get k (evict l now bs) ≡ none
unfolding evict
get-evict l now k bs h =
    let live = keep (λ (x : Text × Bucket). not (is_stale l now x.1)) bs in
    let e : get k live ≡ none = get-keep _ k bs h in
    elim (Bool-cases (leb l.max_keys (length live))) [
      | inl crowded ↦ rw crowded (get-keep _ k live e)
      | inr roomy ↦ rw roomy e
    ]

-- A filter that an element fails makes the list shorter.
length-keep-lt {ℓ} :
    {A : Type ℓ} (p q : A → Bool) (xs : List A)
    → ((x : A) → q x ≡ true → p x ≡ false)
    → any q xs ≡ true
    → length (keep p xs) < length xs
length-keep-lt p q [] h k = cc
length-keep-lt p q (x ∷ xs) h k = elim (Bool-cases (q x)) [
  | inl hit ↦ rw (h x hit) (omega (arith, length-keep-le p xs))
  | inr miss ↦ ground (arith, length-keep-lt p q xs h)
]

module _ {ℓ} {A : Type ℓ} (le : A → A → Bool) (q : A → Bool) where
  any-insert_by : (x : A) (xs : List A) → any q (insert_by le x xs) ≡ (q x || any q xs)
  unfolding insert_by
  any-insert_by x [] = refl
  any-insert_by x (y ∷ ys) = ground (arith, any-insert_by x ys)

  any-sort_by : (xs : List A) → any q (sort_by le xs) ≡ any q xs
  unfolding sort_by
  any-sort_by [] = refl
  any-sort_by (x ∷ xs) = any-insert_by x (sort_by le xs) ∙ ap (λ b. q x || b) (any-sort_by xs)

abbrev same_key : Text → Text × Bucket → Bool
same_key k x = text_eq k x.0

-- With two buckets or more, half of them is at least one.
length-forget_half-lt : (bs : Buckets) → 2 ≤ length bs → length (forget_half bs) < length bs
unfolding forget_half
length-forget_half-lt bs h = go (length bs / 2) (sort_by by_updated bs) refl refl
  where
    go :
        (half : ℕ) (sorted : Buckets)
        → half ≡ length bs / 2
        → sorted ≡ sort_by by_updated bs
        → length (keep (λ x. not (key_in (take (length bs / 2) (sort_by by_updated bs)) x)) bs)
          < length bs
    go zero sorted e f = absurd (omega arith)
    go (suc half) [] e f =
        absurd (omega (arith, length-sort_by by_updated bs, ap (length {A = Text × Bucket}) f))
    go (suc half) (y ∷ ys) e f =
        rw (← e, ← f)
          (length-keep-lt _ (same_key y.0) bs (λ x hit. rw hit)
            (sym (any-sort_by by_updated (same_key y.0) bs) ∙ rw (← f, text_eq_refl y.0)))

length-evict-lt :
    (l : Limits) (now : ℕ) (bs : Buckets)
    → 2 ≤ l.max_keys
    → length bs ≤ l.max_keys
    → length (evict l now bs) < l.max_keys
unfolding evict
length-evict-lt l now bs two h =
    let live = keep (λ (x : Text × Bucket). not (is_stale l now x.1)) bs in
    let fewer : length live ≤ length bs = length-keep-le _ bs in
    elim (Bool-cases (leb l.max_keys (length live))) [
      | inl crowded ↦
          let k = leb→le l.max_keys (length live) crowded in
          rw crowded (omega (arith, length-forget_half-lt live (omega arith)))
      | inr roomy ↦ rw roomy (ground arith)
    ]

module _ (l : Limits) (k : Text) (cost now : ℕ) (bs : Buckets) where
  -- If `max_keys` is at least 2 and the table has at most `max_keys` buckets, then it has at most
  -- `max_keys` after a call.
  pub length-allow-le :
      2 ≤ l.max_keys → length bs ≤ l.max_keys → length (allow l k cost now bs).1 ≤ l.max_keys
  unfolding allow
  length-allow-le two h = elim (Option-cases (get k bs)) [
    | inl new ↦ elim (Bool-cases (leb l.max_keys (length bs))) [
      | inl crowded ↦
          rw (new, crowded)
            (omega (
              arith,
              length-put_new k (spend cost (full l now)).1 (evict l now bs)
                  (get-evict l now k bs new),
              length-evict-lt l now bs two h,
            ))
      | inr roomy ↦ rw (new, roomy) (ground (arith, length-put k (spend cost (full l now)).1 bs))
    ]
    | inr (b, known) ↦ rw known (ground (arith, length-put k (spend cost (refill l now b)).1 bs))
  ]

  -- A key that has a bucket is decided by that bucket alone, and the bucket is written back.
  pub allow-known :
      (b : Bucket)
      → get k bs ≡ some b
      → ((allow l k cost now bs).0 ≡ (request l cost now b).0)
        × (get k (allow l k cost now bs).1 ≡ some (request l cost now b).1)
  unfolding allow request
  allow-known b known =
      rw known (refl, get-put k k (spend cost (refill l now b)).1 bs ∙ rw (text_eq_refl k))

  -- While the table has room, a call leaves the buckets of the other keys as they are.
  pub get-allow_ne :
      (j : Text)
      → text_eq k j ≡ false
      → length bs < l.max_keys
      → get j (allow l k cost now bs).1 ≡ get j bs
  unfolding allow
  get-allow_ne j other room = elim (Option-cases (get k bs)) [
    | inl new ↦
        let roomy : leb l.max_keys (length bs) ≡ false = ground arith in
        rw (new, roomy) (get-put k j (spend cost (full l now)).1 bs ∙ rw other)
    | inr (b, known) ↦ rw known (get-put k j (spend cost (refill l now b)).1 bs ∙ rw other)
  ]
