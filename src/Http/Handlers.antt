-- ===== src/Http/Handlers.antt =====
-- pc-service/src/wol_unlock/http/handlers.py: what the handlers check of a request's body, and the
-- targets of a wake request.
use pc_helper_ios.Prelude.{
  ℕ, ◌≤◌, ◌≡◌, refl, sym, ap, ◌∙◌, subst, ◌⊎◌, inl, inr, Bool, true, ◌&&◌, Option, none, some, List,
  [], ◌∷◌, arith, leb, ◌==◌, if◌then◌else◌, Bool-cases, length, any, Text, codes, text_eq,
}
use pc_helper_ios.Errors.{
  Result, ok, ◌>>=◌, raise, bad_request, not_allowed, wake_failed, >>=-eq-ok, ok-injective,
}
use pc_helper_ios.Unicode.{Unicode}
use pc_helper_ios.Value.{pos, Value, null, integer, string, object, Fields, end, get}
use pc_helper_ios.Config.Address.{Address, Network, in_network}
use pc_helper_ios.Config.Sections.{WakeTarget, Config}
use pc_helper_ios.Config.Load.{wake_target_for}

abbrev as_object : Option Value → Result Fields
as_object (some (object fs)) = ok fs
as_object (some _) = raise bad_request
as_object none = raise bad_request

-- `json.loads`: none for a body that is not valid JSON
module _ (loads : Text → Option Value) where
  unfoldable pub json_body : Bool → Text → Result Fields
  json_body allow_empty [] = if allow_empty then ok end else raise bad_request
  json_body allow_empty (c ∷ raw) = as_object (loads (c ∷ raw))

abbrev as_text : Option Value → Result (Option Text)
as_text none = ok none
as_text (some null) = ok none
as_text (some (string s)) = ok (some s)
as_text (some _) = raise bad_request

unfoldable pub optional_str : Fields → Text → Result (Option Text)
optional_str fs key = as_text (get key fs)

abbrev as_required : ℕ → Option Value → Result Text
as_required most (some (string [])) = raise bad_request
as_required most (some (string (c ∷ s))) =
    if leb (length (c ∷ s)) most then ok (c ∷ s) else raise bad_request
as_required most (some _) = raise bad_request
as_required most none = raise bad_request

unfoldable pub require_str : Fields → Text → ℕ → Result Text
require_str fs key most = as_required most (get key fs)

abbrev pub port_of : Option Value → Result (Option ℕ)
port_of none = ok none
port_of (some null) = ok none
port_of (some (integer (pos n))) = if leb 1 n && leb n 65535 then ok (some n) else raise bad_request
port_of (some _) = raise bad_request

-- `IPv4Address(text)`, as a number, and the text of such a number
pub record Ipv4 : Type 0 where
  pub parse : Text → Option ℕ
  pub print : ℕ → Text

abbrev pub with_port : Option ℕ → WakeTarget → WakeTarget
with_port none t = t
with_port (some n) t = record t { port = n }

module _ (ip : Ipv4) (networks : List Network) where
  abbrev pub placed : Option ℕ → WakeTarget → Result WakeTarget
  placed none t = raise bad_request
  placed (some n) t =
      if any (in_network (Address.v4 n)) networks
      then ok (record t { broadcast = ip.print n })
      else raise not_allowed

  abbrev pub with_broadcast : Option Text → WakeTarget → Result WakeTarget
  with_broadcast none t = ok t
  with_broadcast (some s) t = placed (ip.parse s) t

  unfoldable pub apply_overrides : Fields → WakeTarget → Result WakeTarget
  unfolding optional_str
  apply_overrides fs t = do
    broadcast ← optional_str fs (codes "broadcast")
    moved ← with_broadcast broadcast t
    port ← port_of (get (codes "port") fs)
    ok (with_port port moved)

  -- the relayed target keeps its MAC, a new address is in an allowed network, a new port in range
  pub record IsOverride (t t' : WakeTarget) : Type 0 where
    pub mac : t'.mac ≡ t.mac
    pub address :
        (t'.broadcast ≡ t.broadcast)
        ⊎ ((n : ℕ) × (t'.broadcast ≡ ip.print n)
            × (any (in_network (Address.v4 n)) networks ≡ true))
    pub port : (t'.port ≡ t.port) ⊎ ((1 ≤ t'.port) × (t'.port ≤ 65535))

  with_broadcast-ok :
      (b : Option Text) (t t' : WakeTarget)
      → with_broadcast b t ≡ ok t'
      → (t'.mac ≡ t.mac)
        × (t'.port ≡ t.port)
        × ((t'.broadcast ≡ t.broadcast)
            ⊎ ((n : ℕ) × (t'.broadcast ≡ ip.print n)
                × (any (in_network (Address.v4 n)) networks ≡ true)))
  with_broadcast-ok none t t' h = (cc, cc, inl (cc))
  with_broadcast-ok (some s) t t' h = go (ip.parse s) h
    where
      go :
          (o : Option ℕ)
          → placed o t ≡ ok t'
          → (t'.mac ≡ t.mac)
            × (t'.port ≡ t.port)
            × ((t'.broadcast ≡ t.broadcast)
                ⊎ ((n : ℕ) × (t'.broadcast ≡ ip.print n)
                    × (any (in_network (Address.v4 n)) networks ≡ true)))
      go none k = cc
      go (some n) k = elim (Bool-cases (any (in_network (Address.v4 n)) networks)) [
        | inl inside ↦
            let e = ok-injective (rw inside at k) in
            (
              ap (λ (x : WakeTarget). x.mac) (sym e),
              ap (λ (x : WakeTarget). x.port) (sym e),
              inr (n, ap (λ (x : WakeTarget). x.broadcast) (sym e), inside),
            )
        | inr outside ↦ absurd (ground (arith, outside))
      ]

  port_of-InRange :
      (v : Option Value) (p : Option ℕ) (n : ℕ)
      → port_of v ≡ ok p
      → p ≡ some n
      → (1 ≤ n) × (n ≤ 65535)
  port_of-InRange v p n h e = ground arith

  with_port-ok :
      (v : Option Value) (p : Option ℕ) (t : WakeTarget)
      → port_of v ≡ ok p
      → ((with_port p t).port ≡ t.port)
        ⊎ ((1 ≤ (with_port p t).port) × ((with_port p t).port ≤ 65535))
  with_port-ok v none t h = inl refl
  with_port-ok v (some n) t h = inr (port_of-InRange v (some n) n h refl)

  mac-with_port : (p : Option ℕ) (t : WakeTarget) → (with_port p t).mac ≡ t.mac
  mac-with_port none t = refl
  mac-with_port (some n) t = refl

  broadcast-with_port : (p : Option ℕ) (t : WakeTarget) → (with_port p t).broadcast ≡ t.broadcast
  broadcast-with_port none t = refl
  broadcast-with_port (some n) t = refl

  -- With a caller's overrides a target keeps its MAC; its address is its own or one in an allowed
  -- network, and its port is its own or one from 1 to 65535.
  pub apply_overrides-IsOverride :
      (fs : Fields) (t t' : WakeTarget) → apply_overrides fs t ≡ ok t' → IsOverride t t'
  unfolding apply_overrides
  apply_overrides-IsOverride fs t t' h =
      let (b, _, h1) = >>=-eq-ok (optional_str fs (codes "broadcast")) _ h in
      let (moved, placed_at, h2) = >>=-eq-ok (with_broadcast b t) _ h1 in
      let (p, valid, h3) = >>=-eq-ok (port_of (get (codes "port") fs)) _ h2 in
      let (mac, port, address) = with_broadcast-ok b t moved placed_at in
      subst (IsOverride t) (ok-injective h3) (record {
        mac = mac-with_port p moved ∙ mac;
        address = rw (broadcast-with_port p moved) address;
        port = rw (← port) (with_port-ok (get (codes "port") fs) p moved valid);
      })

  abbrev pub allowlisted : Option WakeTarget → Fields → Result (List WakeTarget)
  allowlisted none fs = raise not_allowed
  allowlisted (some t) fs = do t' ← apply_overrides fs t; ok (t' ∷ [])

  abbrev pub or_self : Option Text → Text
  or_self none = codes "self"
  or_self (some []) = codes "self"
  or_self (some (c ∷ s)) = c ∷ s

  -- the targets of the wake handler; a MAC that does not parse raises a ConfigError
  unfoldable pub wake_targets_for : Unicode → Config → Fields → Result (List WakeTarget)
  wake_targets_for u cfg fs = do
    given ← optional_str fs (codes "target")
    if text_eq (or_self given) (codes "self")
        then (if length cfg.wake_targets == 0 then raise wake_failed else ok cfg.wake_targets)
        else (do target ← wake_target_for u (or_self given) cfg; allowlisted target fs)
