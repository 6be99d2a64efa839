-- ===== src/Config/Address/Blocks.antt =====
-- A network is a block of addresses, and the block of an IPv4 network has its copy in IPv6.
use pc_helper_ios.Prelude.{
  ℕ, zero, suc, ◌+◌, ◌-◌, ◌*◌, ◌/◌, ◌%◌, ◌^◌, ◌≤◌, ◌<◌, ◌≡◌, refl, sym, ap, subst, ◌↔◌, inl, inr,
  Bool, true, false, Option, none, some, List, [], ◌∷◌, ◌++◌, arith, ◌==◌, any, Bool-cases, ==_iff,
  All, Text,
}
use native.Mathlib.Nat.{div-eq_of_lt-le, div-add-mod', mod-lt}
use pc_helper_ios.Config.Address.{Address, Network, unmapped, in_network, allowed, allows}

-- the number of addresses with one prefix
abbrev size : (bits prefix : ℕ) → ℕ
size bits prefix = 2 ^ (bits - prefix)

-- the `size` addresses from the base on
abbrev InBlock : (bits base prefix n : ℕ) → Type 0
InBlock bits base prefix n = (base ≤ n) × (n < base + size bits prefix)

-- ::ffff:0.0.0.0
abbrev mapped_base : ℕ
mapped_base = 0xffff * 2 ^ 32

-- The addresses of a network: of an IPv4 network, its block and the copy of it from ::ffff:0.0.0.0
-- on; of an IPv6 network, its block without ::ffff:0.0.0.0 to ::ffff:255.255.255.255.
abbrev pub Covers : Network → Address → Type 0
Covers (Network.v4 base prefix) (Address.v4 n) = InBlock 32 base prefix n
Covers (Network.v4 base prefix) (Address.v6 n) = InBlock 32 (mapped_base + base) prefix n
Covers (Network.v6 base prefix) (Address.v4 n) = ⊥
Covers (Network.v6 base prefix) (Address.v6 n) =
    InBlock 128 base prefix n × ((n / 2 ^ 32 == 0xffff) ≡ false)

abbrev IsBlock : (bits base prefix : ℕ) → Type 0
IsBlock bits base prefix = (base % size bits prefix ≡ 0) × (base + size bits prefix ≤ 2 ^ bits)

-- what `ip_network` checks: no bit of the base is set behind the prefix
abbrev pub IsStrict : Network → Type 0
IsStrict (Network.v4 base prefix) = IsBlock 32 base prefix
IsStrict (Network.v6 base prefix) = IsBlock 128 base prefix

pow_pos : (k : ℕ) → 0 < 2 ^ k
pow_pos zero = omega arith
pow_pos (suc k) = omega (arith, pow_pos k)

module _ (s base n : ℕ) where
  in_block : 0 < s → base % s ≡ 0 → (n / s == base / s) ≡ true → (base ≤ n) × (n < base + s)
  in_block pos strict h =
      let same : n / s ≡ base / s = (==_iff (n / s) (base / s)).0 h in
      let whole = div-add-mod' base s in
      let parts = div-add-mod' n s in
      let low = mod-lt n pos in
      let level : n / s * s ≡ base / s * s = ap (λ q. q * s) same in
      (omega (arith, whole, strict, parts, level), omega (arith, whole, strict, parts, level, low))

  block_in : base % s ≡ 0 → base ≤ n → n < base + s → (n / s == base / s) ≡ true
  block_in strict from below =
      let whole = div-add-mod' base s in
      let next : (base / s + 1) * s ≡ base / s * s + s = omega arith in
      (==_iff (n / s) (base / s)).1
        (div-eq_of_lt-le s (omega (arith, whole, strict)) (omega (arith, whole, strict, next)))

-- the quotient of an address of a mapped block, and what is left of it
mapped_parts :
    (base s n : ℕ)
    → base + s ≤ 2 ^ 32
    → mapped_base + base ≤ n
    → n < mapped_base + base + s
    → (n / 2 ^ 32 ≡ 0xffff) × (base ≤ n % 2 ^ 32) × (n % 2 ^ 32 < base + s)
mapped_parts base s n fits from below = (omega arith, omega arith, omega arith)

mapped_back :
    (base s n : ℕ)
    → n / 2 ^ 32 ≡ 0xffff
    → base ≤ n % 2 ^ 32
    → n % 2 ^ 32 < base + s
    → (mapped_base + base ≤ n) × (n < mapped_base + base + s)
mapped_back base s n mapped from below = (omega arith, omega arith)

covered :
    (net : Network) (ip : Address)
    → IsStrict net
    → (in_network (unmapped ip) net ≡ true) ↔ Covers net ip
unfolding in_network unmapped
covered (Network.v4 base prefix) (Address.v4 n) (strict, fits) = (
  in_block (size 32 prefix) base n (pow_pos (32 - prefix)) strict,
  λ (from, below). block_in (size 32 prefix) base n strict from below,
)
covered (Network.v4 base prefix) (Address.v6 n) (strict, fits) =
    elim (Bool-cases (n / 2 ^ 32 == 0xffff)) [
      | inl mapped ↦ rw mapped (
        λ h.
            let (from, below) =
              in_block (size 32 prefix) base (n % 2 ^ 32) (pow_pos (32 - prefix)) strict h in
            mapped_back base (size 32 prefix) n ((==_iff (n / 2 ^ 32) 0xffff).0 mapped) from below,
        λ (from, below).
            let (_, from', below') = mapped_parts base (size 32 prefix) n fits from below in
            block_in (size 32 prefix) base (n % 2 ^ 32) strict from' below',
      )
      | inr own ↦ rw own (
        λ h. cc,
        λ (from, below).
            let (mapped, _, _) = mapped_parts base (size 32 prefix) n fits from below in
            absurd (cc (own, (==_iff (n / 2 ^ 32) 0xffff).1 mapped)),
      )
    ]
covered (Network.v6 base prefix) (Address.v4 n) strict = (λ h. cc, λ h. absurd h)
covered (Network.v6 base prefix) (Address.v6 n) (strict, fits) =
    elim (Bool-cases (n / 2 ^ 32 == 0xffff)) [
      | inl mapped ↦ rw mapped (λ h. cc, λ (block, own). cc)
      | inr own ↦ rw own (
        λ h. (in_block (size 128 prefix) base n (pow_pos (128 - prefix)) strict h, refl),
        λ ((from, below), _). block_in (size 128 prefix) base n strict from below,
      )
    ]

-- a network of the list covers the address
pub record IsCovered (networks : List Network) (ip : Address) : Type 0 where
  pub before : List Network
  pub net : Network
  pub after : List Network
  pub split : networks ≡ before ++ net ∷ after
  pub covers : Covers net ip

any-IsCovered :
    (networks : List Network) (ip : Address)
    → All IsStrict networks
    → any (in_network (unmapped ip)) networks ≡ true
    → IsCovered networks ip
any-IsCovered [] ip strict h = cc
any-IsCovered (net ∷ nets) ip (first, strict) h = elim (Bool-cases (in_network (unmapped ip) net)) [
  | inl hit ↦ record {
    before = [];
    net = net;
    after = nets;
    split = refl;
    covers = (covered net ip first).0 hit;
  }
  | inr miss ↦
      let c = any-IsCovered nets ip strict (rw miss at h) in
      record {
        before = net ∷ c.before;
        net = c.net;
        after = c.after;
        split = ap (λ ns. net ∷ ns) c.split;
        covers = c.covers;
      }
]

any_between :
    (p : Network → Bool) (before : List Network) (net : Network) (after : List Network)
    → p net ≡ true
    → any p (before ++ net ∷ after) ≡ true
any_between p [] net after h = ground (arith, h)
any_between p (x ∷ before) net after h = ground (arith, any_between p before net after h)

IsStrict-between :
    (before : List Network) (net : Network) (after : List Network)
    → All IsStrict (before ++ net ∷ after)
    → IsStrict net
IsStrict-between [] net after (h, _) = h
IsStrict-between (x ∷ before) net after (_, h) = IsStrict-between before net after h

IsCovered-any :
    (networks : List Network) (ip : Address)
    → All IsStrict networks
    → IsCovered networks ip
    → any (in_network (unmapped ip)) networks ≡ true
IsCovered-any networks ip strict c =
    subst (λ ns. any (in_network (unmapped ip)) ns ≡ true) (sym c.split)
      (any_between (in_network (unmapped ip)) c.before c.net c.after (
        (covered c.net ip
            (IsStrict-between c.before c.net c.after (subst (All IsStrict) c.split strict))).1
          c.covers))

-- Where the networks are strict, an address is allowed if and only if it parses and lies in the
-- block of a configured network: that of addresses from its base on, as many as its prefix leaves;
-- an IPv4 network has also the same block from ::ffff:0.0.0.0 on, and no IPv6 network covers an
-- address of ::ffff:0.0.0.0 to ::ffff:255.255.255.255.
pub allows_iff :
    (ip_address : Text → Option Address) (networks : List Network) (addr : Text)
    → All IsStrict networks
    → (allows ip_address networks addr ≡ true)
      ↔ ((ip : Address) × (ip_address addr ≡ some ip) × IsCovered networks ip)
unfolding allows
allows_iff ip_address [] addr strict = (λ h. cc, λ (ip, found, c). IsCovered-any [] ip strict c)
allows_iff ip_address (n ∷ ns) addr strict = (to (ip_address addr), from)
  where
    to :
        (o : Option Address)
        → allowed (n ∷ ns) o ≡ true
        → (ip : Address) × (o ≡ some ip) × IsCovered (n ∷ ns) ip
    to none h = cc
    to (some ip) h = (ip, refl, any-IsCovered (n ∷ ns) ip strict h)

    from :
        ((ip : Address) × (ip_address addr ≡ some ip) × IsCovered (n ∷ ns) ip)
        → allowed (n ∷ ns) (ip_address addr) ≡ true
    from (ip, found, c) = rw found (IsCovered-any (n ∷ ns) ip strict c)
