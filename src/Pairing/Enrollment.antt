-- ===== src/Pairing/Enrollment.antt =====
-- Who gets enrolled: what a submission has shown, and whose decision stores a device.
pub mod Approval
pub mod Trusted
use pc_helper_ios.Prelude.{
  ℕ, zero, suc, ◌+◌, ◌-◌, ◌*◌, ◌/◌, ◌%◌, ◌^◌, ◌≤◌, ◌<◌, min, max, String, ◌≡◌, refl, sym, ap, ◌∙◌,
  subst, fun_ext, ◌≢◌, ◌↔◌, ◌⊎◌, inl, inr, Bool, true, false, ◌&&◌, ◌||◌, not, Option, none, some,
  List, [], ◌∷◌, ◌++◌, map, reverse, arith, ltb, leb, ◌==◌, if◌then◌else◌, ltb→lt, lt→ltb, leb→le,
  le→leb, ==_iff, Bool-cases, Option-cases, is_some, length, take, drop, keep, any, all, find,
  length-append, length-keep-le, length-drop, insert_by, sort_by, length-sort_by, All, All-append,
  All-keep, Text, codes, text_eq, text_eq_refl, text_eq_iff,
}
use pc_helper_ios.Errors.{Result, ok, err, ◌>>=◌, >>=-eq-ok, ok-injective}
use pc_helper_ios.Unicode.{Unicode}
use pc_helper_ios.Crypto.Base64.{b64u_encode}
use pc_helper_ios.Crypto.Canonical.{canonical_pair, device_id_for, fingerprint}
use pc_helper_ios.Crypto.Verify.{Primitives}
use pc_helper_ios.Store.{Store, call}
use pc_helper_ios.Store.Statements.{Device, upsert_device}
use pc_helper_ios.Pairing.Code.{normalize_code, hash_code}
use pc_helper_ios.Pairing.Manager.{
  PairingState, idle, opened, awaiting_approval, Decision, undecided, timed_out, decided,
  PendingEnrollment, OpenWindow, Reason, Manager, Settings, System, start, is_idle, is_opened,
  begin, expire, resolve, finished, finish, close, close_in, decide, is_decided, release,
}
use pc_helper_ios.Pairing.Submit.{
  Attempt, Outcome, outcome, enrollment, admitted, proven, wrong_code, park, attempt_in, locked,
  decoded, submit, go_on, resume, time_out, cancel, shut_down, Op, do_begin, do_submit, do_resolve,
  do_cancel, do_shutdown, do_expire, do_resume, do_time_out, with_ticket, on_parked, unpark, step,
  steps,
}

module _ (u : Unicode) (p : Primitives) (cfg : Settings) where
  -- The key of an enrollment signed this server's fingerprint, and names the device.
  pub record IsVouched (e : PendingEnrollment) : Type 0 where
    pub code : Text
    pub message : Text
    pub proof : Text
    pub built : canonical_pair u code (b64u_encode e.pubkey) cfg.server_fp ≡ ok message
    pub signed : p.verifies e.pubkey proof message ≡ true
    pub named : device_id_for p.sha256 e.pubkey ≡ ok e.device_id

  -- what a property of the system needs so that a submission keeps it
  pub record Keeps (P : System → Type 0) : Type 1 where
    pub on_close : (r : Reason) (s : System) → P s → P (close_in r s)
    pub on_wrong : (w : OpenWindow) (s : System) → P s → P (wrong_code w s).1
    pub on_park :
        (e : PendingEnrollment) (s : System)
        → IsVouched e
        → cfg.require_approval ≡ true
        → P s
        → P (park e s).1
    pub on_finish :
        (e : PendingEnrollment) (wall : ℕ) (s : System)
        → IsVouched e
        → cfg.require_approval ≡ false
        → P s
        → P (outcome (finish e wall s)).1

  enrollment-ok :
      (a : Attempt) (pubkey : Text) (wall : ℕ) (s : System) (e : PendingEnrollment)
      → enrollment u p cfg a pubkey wall s ≡ ok e
      → (e.pubkey ≡ pubkey) × (device_id_for p.sha256 pubkey ≡ ok e.device_id)
  enrollment-ok a pubkey wall s e h =
      let (i, named, h1) = >>=-eq-ok (device_id_for p.sha256 pubkey) _ h in
      let (f, printed, h2) = >>=-eq-ok (fingerprint p.sha256 pubkey) _ h1 in
      let same = ok-injective h2 in
      (
        ap (λ (x : PendingEnrollment). x.pubkey) (sym same),
        named ∙ ap (λ (x : PendingEnrollment). ok x.device_id) same,
      )

  module _ (P : System → Type 0) (keeps : Keeps P) where
    admitted-keeps :
        (r : Result PendingEnrollment) (wall : ℕ) (s : System)
        → ((e : PendingEnrollment) → r ≡ ok e → IsVouched e)
        → P s
        → P (admitted u p cfg r wall s).1
    admitted-keeps (err x) wall s v h = h
    admitted-keeps (ok e) wall s v h = elim (Bool-cases cfg.require_approval) [
      | inl asked ↦ rw asked (keeps.on_park e s (v e refl) asked h)
      | inr unasked ↦ rw unasked (keeps.on_finish e wall s (v e refl) unasked h)
    ]

    proven-keeps :
        (r : Result Text) (a : Attempt) (code pubkey proof : Text) (wall : ℕ) (s : System)
        → r ≡ canonical_pair u code (b64u_encode pubkey) cfg.server_fp
        → P s
        → P (proven u p cfg r a pubkey proof wall s).1
    proven-keeps (err x) a code pubkey proof wall s e h = h
    proven-keeps (ok message) a code pubkey proof wall s e h =
        elim (Bool-cases (p.verifies pubkey proof message)) [
          | inl good ↦ rw good (
              admitted-keeps (enrollment u p cfg a pubkey wall s) wall s
                (λ x made.
                  let (key, named) = enrollment-ok a pubkey wall s x made in
                  record {
                    code = code;
                    message = message;
                    proof = proof;
                    built = rw key (sym e);
                    signed = rw key good;
                    named = rw key named;
                  })
                h)
          | inr bad ↦ rw bad (keeps.on_close _ s h)
        ]

    attempt_in-keeps :
        (w : OpenWindow) (a : Attempt) (pubkey proof : Text) (now wall : ℕ) (s : System)
        → P s
        → P (attempt_in u p cfg w a pubkey proof now wall s).1
    unfolding attempt_in
    attempt_in-keeps w a pubkey proof now wall s h =
        elim (Bool-cases (leb w.deadline_monotonic now)) [
          | inl late ↦ rw late (keeps.on_close _ s h)
          | inr early ↦
              elim (Bool-cases
                (text_eq (hash_code p.sha256 (normalize_code u a.code)) w.code_hash)) [
                  | inl right ↦ rw (early, right) (proven-keeps _ a _ pubkey proof wall s refl h)
                  | inr wrong ↦ rw (early, wrong) (keeps.on_wrong w s h)
                ]
        ]

    locked-keeps :
        (st : PairingState) (w : Option OpenWindow) (a : Attempt) (pubkey proof : Text)
        (now wall : ℕ) (s : System)
        → P s
        → P (locked u p cfg st w a pubkey proof now wall s).1
    unfolding locked
    locked-keeps awaiting_approval w a pubkey proof now wall s h = h
    locked-keeps idle w a pubkey proof now wall s h = h
    locked-keeps opened none a pubkey proof now wall s h = h
    locked-keeps opened (some w) a pubkey proof now wall s h =
        attempt_in-keeps w a pubkey proof now wall s h

    decoded-keeps :
        (r q : Result Text) (a : Attempt) (now wall : ℕ) (s : System)
        → P s
        → P (decoded u p cfg r q a now wall s).1
    decoded-keeps (err x) q a now wall s h = h
    decoded-keeps (ok pubkey) (err x) a now wall s h = h
    decoded-keeps (ok pubkey) (ok proof) a now wall s h =
        locked-keeps s.manager.state s.manager.window a pubkey proof now wall s h

    pub submit-keeps :
        (a : Attempt) (now wall : ℕ) (s : System) → P s → P (submit u p cfg a now wall s).1
    unfolding submit
    submit-keeps a now wall s h = decoded-keeps _ _ a now wall s h
