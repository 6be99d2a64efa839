-- ===== src/Http/Serve.antt =====
-- pc-service/src/wol_unlock/http/handlers.py: the wake and unlock handlers.
use pc_helper_ios.Prelude.{
  ℕ, ◌≡◌, refl, sym, ap, ◌∙◌, subst, inl, inr, Bool, true, Option, none, some, List, [], ◌∷◌, ◌==◌,
  Bool-cases, length, find, any, All, Text, codes, text_eq, text_eq_refl, arith,
}
use pc_helper_ios.Errors.{Result, ok, err, ◌>>=◌, not_allowed, >>=-eq-ok, ok-injective}
use pc_helper_ios.Action
use pc_helper_ios.Action.{Action, require, lift, require_then, lift_then}
use pc_helper_ios.Unicode.{Unicode}
use pc_helper_ios.Value.{Value, Fields}
use pc_helper_ios.Config.Sections.{WakeTarget, Config}
use pc_helper_ios.Config.Load.{wake_target_for}
use pc_helper_ios.Config.Mac.{normalize_mac}
use pc_helper_ios.Http.Handlers.{
  Ipv4, json_body, optional_str, apply_overrides, apply_overrides-IsOverride, allowlisted, or_self,
  wake_targets_for,
}
use pc_helper_ios.Session.{UnlockResult, Logind}
use pc_helper_ios.Session.Unlocking.{unlock_session}
use pc_helper_ios.Session.Unlocking.Confirmed.{IsConfirmed, unlock_session-IsConfirmed}
use pc_helper_ios.Wake.Packet.{IsMagic, build_magic_packet-IsMagic}
use pc_helper_ios.Wake.{
  WakeSendResult, send_to_target, sent_to, send_all, send_to_targets, build_magic_packet,
}

-- `session_id` in the body
abbrev session_key : Text
session_key = codes "session_id"

module _ (loads : Text → Option Value) (cfg : Config) (body : Text) where
  unfoldable pub unlock : {S : Type 0} → Logind S → Action S UnlockResult
  unfolding unlock_session
  unlock l = Action.◌>>◌ (require cfg.unlock_enabled not_allowed) (
      Action.◌>>=◌ (lift (do fs ← json_body loads true body; optional_str fs session_key))
        (λ id. unlock_session l id))

  unfoldable pub wake :
      (Text → WakeTarget → Option ℕ) → Unicode → Ipv4 → Result (List WakeSendResult)
  unfolding wake_targets_for send_to_targets
  wake send u ip = do
    fs ← json_body loads true body
    targets ← wake_targets_for ip cfg.http.allowed_networks u cfg fs
    send_to_targets send u targets

  -- If the unlock handler answers, then unlocking is enabled in the configuration, the session id
  -- is the one that the body gives, and the answer says of the session what was read.
  pub unlock-IsConfirmed :
      {S : Type 0} (l : Logind S) (s : S) {r : UnlockResult} {t : S}
      → unlock l s ≡ (ok r, t)
      → (cfg.unlock_enabled ≡ true)
        × (id : Option Text) × ((json_body loads true body >>= λ fs. optional_str fs session_key)
            ≡ ok id)
        × IsConfirmed l id s r
  unfolding unlock
  unlock-IsConfirmed l s h =
      let (enabled, h1) = require_then cfg.unlock_enabled not_allowed _ s h in
      let (id, given, h2) = lift_then _ (λ id. unlock_session l id) s h1 in
      (enabled, id, given, unlock_session-IsConfirmed l id s h2)

module _ (P : Text → Type 0) where
  abbrev pub TargetsIn : List WakeTarget → Type 0
  TargetsIn = All (λ (t : WakeTarget). P t.mac)

  find-All :
      (q : WakeTarget → Bool) (ts : List WakeTarget) (t : WakeTarget)
      → TargetsIn ts
      → find q ts ≡ some t
      → P t.mac
  find-All q [] t holds h = cc
  find-All q (x ∷ ts) t (p, holds) h = elim (Bool-cases (q x)) [
    | inl hit ↦
        subst (λ (o : Option WakeTarget). elim o [ none ↦ Unit {0} | some y ↦ P y.mac ])
          (rw hit at h) p
    | inr miss ↦ find-All q ts t holds (rw miss at h)
  ]

  module _ (u : Unicode) (send other : Text → WakeTarget → Option ℕ) where
    -- the two sockets do the same with the magic packets of those MACs
    abbrev pub AgreeIn : Type 0
    AgreeIn =
        (t : WakeTarget) (packet : Text)
        → P t.mac
        → IsMagic u t.mac t.secureon packet
        → send packet t ≡ other packet t

    send_to_target-agrees :
        (t : WakeTarget) → AgreeIn → P t.mac → send_to_target send u t ≡ send_to_target other u t
    unfolding send_to_target
    send_to_target-agrees t agree p = go (build_magic_packet u t.mac t.secureon) refl
      where
        go :
            (r : Result Text)
            → build_magic_packet u t.mac t.secureon ≡ r
            → (r >>= λ packet. sent_to t (send packet t))
              ≡ (r >>= λ packet. sent_to t (other packet t))
        go (err x) e = refl
        go (ok packet) e =
            ap (sent_to t)
              (agree t packet p (build_magic_packet-IsMagic u t.mac t.secureon packet e))

    send_all-agrees :
        (ts : List WakeTarget) → AgreeIn → TargetsIn ts → send_all send u ts ≡ send_all other u ts
    unfolding send_all
    send_all-agrees [] agree holds = refl
    send_all-agrees (t ∷ ts) agree (p, holds) =
        rw (send_to_target-agrees t agree p, send_all-agrees ts agree holds) refl

    send_to_targets-agrees :
        (ts : List WakeTarget)
        → AgreeIn
        → TargetsIn ts
        → send_to_targets send u ts ≡ send_to_targets other u ts
    unfolding send_to_targets
    send_to_targets-agrees [] agree holds = refl
    send_to_targets-agrees (t ∷ ts) agree holds = rw (send_all-agrees (t ∷ ts) agree holds) refl

  module _ (cfg : Config) (ip : Ipv4) (u : Unicode) where
    allowlisted-TargetsIn :
        (o : Option WakeTarget) (fs : Fields) (ts : List WakeTarget)
        → ((t : WakeTarget) → o ≡ some t → P t.mac)
        → allowlisted ip cfg.http.allowed_networks o fs ≡ ok ts
        → TargetsIn ts
    allowlisted-TargetsIn none fs ts p h = cc
    allowlisted-TargetsIn (some t) fs ts p h =
        let (t', moved, h1) = >>=-eq-ok (apply_overrides ip cfg.http.allowed_networks fs t) _ h in
        let same = (apply_overrides-IsOverride ip cfg.http.allowed_networks fs t t' moved).mac in
        subst TargetsIn (ok-injective h1) (subst P (sym same) (p t refl), tt)

    wake_targets_for-TargetsIn :
        (fs : Fields) (ts : List WakeTarget)
        → TargetsIn cfg.wake_targets
        → wake_targets_for ip cfg.http.allowed_networks u cfg fs ≡ ok ts
        → TargetsIn ts
    unfolding wake_targets_for wake_target_for
    wake_targets_for-TargetsIn fs ts holds h =
        let (given, _, h1) = >>=-eq-ok (optional_str fs (codes "target")) _ h in
        elim (Bool-cases (text_eq (or_self ip cfg.http.allowed_networks given) (codes "self"))) [
          | inl own ↦ elim (Bool-cases (length cfg.wake_targets == 0)) [
            | inl empty ↦ absurd (cc (rw (own, empty) at h1))
            | inr some_targets ↦ subst TargetsIn (ok-injective (rw (own, some_targets) at h1)) holds
          ]
          | inr named ↦
              let (o, e, h2) =
                >>=-eq-ok (wake_target_for u (or_self ip cfg.http.allowed_networks given) cfg) _
                  (rw named at h1) in
              let (mac, _, found) =
                >>=-eq-ok (normalize_mac u (or_self ip cfg.http.allowed_networks given)) _ e in
              allowlisted-TargetsIn o fs ts
                (λ t eq. find-All _ cfg.wake_targets t holds (ok-injective found ∙ eq)) h2
        ]

    wake-agrees :
        (loads : Text → Option Value) (body : Text) (send other : Text → WakeTarget → Option ℕ)
        → TargetsIn cfg.wake_targets
        → AgreeIn u send other
        → wake loads cfg body send u ip ≡ wake loads cfg body other u ip
    unfolding wake
    wake-agrees loads body send other holds agree = go (json_body loads true body)
      where
        chosen :
            (fs : Fields) (r : Result (List WakeTarget))
            → wake_targets_for ip cfg.http.allowed_networks u cfg fs ≡ r
            → (r >>= send_to_targets send u) ≡ (r >>= send_to_targets other u)
        chosen fs (err x) e = refl
        chosen fs (ok ts) e =
            send_to_targets-agrees u send other ts agree (wake_targets_for-TargetsIn fs ts holds e)

        go :
            (r : Result Fields)
            → (r >>= λ fs.
                wake_targets_for ip cfg.http.allowed_networks u cfg fs >>= send_to_targets send u)
              ≡ (r >>= λ fs.
                  wake_targets_for ip cfg.http.allowed_networks u cfg fs
                  >>= send_to_targets other u)
        go (err x) = refl
        go (ok fs) = chosen fs _ refl

-- a MAC of one of the targets
abbrev pub IsMacOf : List WakeTarget → Text → Type 0
IsMacOf ts mac = any (λ (t : WakeTarget). text_eq t.mac mac) ts ≡ true

later_mac :
    (t : WakeTarget) (ts : List WakeTarget) (mac : Text) → IsMacOf ts mac → IsMacOf (t ∷ ts) mac
later_mac t ts mac h = ground (arith, h)

each_mac :
    (ts all_targets : List WakeTarget)
    → ((mac : Text) → IsMacOf ts mac → IsMacOf all_targets mac)
    → TargetsIn (IsMacOf all_targets) ts
each_mac [] all_targets within = tt
each_mac (t ∷ ts) all_targets within = (
  within t.mac (rw (text_eq_refl t.mac) refl),
  each_mac ts all_targets (λ mac h. within mac (later_mac t ts mac h)),
)

-- The wake handler hands the socket nothing but magic packets of MACs of configured targets: over
-- two sockets that do the same with each such packet, whatever they do with any other, a request
-- has the same answer.
pub wake-meant :
    (loads : Text → Option Value) (cfg : Config) (body : Text) (u : Unicode) (ip : Ipv4)
    (send other : Text → WakeTarget → Option ℕ)
    → AgreeIn (IsMacOf cfg.wake_targets) u send other
    → wake loads cfg body send u ip ≡ wake loads cfg body other u ip
wake-meant loads cfg body u ip send other agree =
    wake-agrees (IsMacOf cfg.wake_targets) cfg ip u loads body send other
      (each_mac cfg.wake_targets cfg.wake_targets (λ mac h. h)) agree
