-- ===== src/Identity.antt =====
-- pc-service/src/wol_unlock/identity.py: the server's key file. The keys, and their PEM encoding,
-- are those of the cryptography library: parameters.
pub mod Killed
use pc_helper_ios.Prelude.{
  ℕ, ◌%◌, ◌≡◌, refl, ap, ◌∙◌, subst, ◌⊎◌, inl, inr, Bool, true, Option, none, some, [], ◌==◌,
  if◌then◌else◌, Bool-cases, Option-cases, take, Text,
}
use pc_helper_ios.Errors.{Result, ok, err, os_error, ◌>>=◌}
use pc_helper_ios.Action.{returned-injective}
use pc_helper_ios.Crypto.Base64.{b64u_encode}
use pc_helper_ios.Crypto.Canonical.{fingerprint}

pub record File : Type 0 where
  pub mode : ℕ
  pub content : Text

-- the key's path, and that path with `.tmp`
pub record Directory : Type 0 where
  pub key : Option File
  pub tmp : Option File

-- `load_pem_private_key`, where a key that is not Ed25519 is the ValueError that the module raises,
-- `private_bytes` and `public_bytes_raw`
pub record Library (K : Type 0) : Type 0 where
  pub load_pem : Text → Result K
  pub to_pem : K → Text
  pub public_raw : K → Text

-- the mode 0o600
abbrev pub owner_only : ℕ
owner_only = 384

-- `not mode & 0o077`
unfoldable pub is_private : File → Bool
is_private f = f.mode % 64 == 0

-- `os.open` with O_EXCL
abbrev opened : Option File → Directory → Result (Unit {0}) × Directory
opened (some f) d = (err os_error, d)
opened none d = (ok tt, record d { tmp = some (record { mode = owner_only; content = [] }) })

-- the temporary file with this much of the data in it
abbrev pub written : Text → Directory → Directory
written pem d = record d { tmp = some (record { mode = owner_only; content = pem }) }

-- `os.replace`
abbrev pub replaced : Directory → Directory
replaced d = record { key = d.tmp; tmp = none }

-- a write that raises removes the temporary file
abbrev stored : Text → (write sync : Result (Unit {0})) → Directory → Result (Unit {0}) × Directory
stored pem (err x) sync d = (err x, record d { tmp = none })
stored pem (ok done) sync d = (sync, replaced (written pem d))

abbrev pub write_opened :
    Text
    → (write sync : Result (Unit {0})) → Result (Unit {0}) × Directory
    → Result (Unit {0}) × Directory
write_opened pem write sync (err x, d) = (err x, d)
write_opened pem write sync (ok done, d) = stored pem write sync d

-- `_write_private`, where `write` is how the write and its fsync end, and `sync` how the opening and
-- the fsync of the directory do, when the key is in its place already
unfoldable pub write_private :
    Text → (write sync : Result (Unit {0})) → Directory → Result (Unit {0}) × Directory
write_private pem write sync d = write_opened pem write sync (opened d.tmp d)

returned-injective_at :
    {K : Type 0} {r : Result K} {d e : Directory} {k : K}
    → (let p : Result K × Directory = (r, d) in p) ≡ (ok k, e)
    → (r ≡ ok k) × (d ≡ e)
returned-injective_at h = (cc, cc)

module _ {K : Type 0} (lib : Library K) where
  abbrev loaded : Option File → Result K → Result K
  loaded none fresh = fresh
  loaded (some f) fresh = if is_private f then lib.load_pem f.content else err os_error

  abbrev created : K → Result (Unit {0}) × Directory → Result K × Directory
  created k (err x, d) = (err x, d)
  created k (ok done, d) = (ok k, d)

  abbrev load_from :
      Option File → K → (write sync : Result (Unit {0})) → Directory → Result K × Directory
  load_from (some f) new_key write sync d =
      (if is_private f then lib.load_pem f.content else err os_error, d)
  load_from none new_key write sync d =
      created new_key (write_private (lib.to_pem new_key) write sync d)

  -- `load_or_create`, where `new_key` is what `generate` draws
  unfoldable pub load_or_create :
      (new_key : K) → (write sync : Result (Unit {0})) → Directory → Result K × Directory
  unfolding is_private write_private
  load_or_create new_key write sync d = load_from d.key new_key write sync d

  -- the properties of a `ServerIdentity`
  abbrev pub public_b64 : K → Text
  public_b64 k = b64u_encode (lib.public_raw k)

  unfoldable pub fingerprint_of : (sha256 : Text → Text) → K → Result Text
  unfolding fingerprint
  fingerprint_of sha256 k = fingerprint sha256 (lib.public_raw k)

  unfoldable pub short_fingerprint : (sha256 : Text → Text) → K → Result Text
  unfolding fingerprint_of
  short_fingerprint sha256 k = fingerprint_of sha256 k >>= λ f. ok (take 8 f)

  -- the file holds the key, and nobody but the owner reads it
  abbrev pub IsKept : K → Option File → Type 0
  IsKept k none = ⊥
  IsKept k (some f) = (is_private f ≡ true) × (lib.load_pem f.content ≡ ok k)

  -- If the library reads back the key that it wrote, then the identity that is loaded or created is
  -- the key that the file holds afterwards, and the file is private to the owner.
  pub load_or_create-IsKept :
      (new_key : K) (write sync : Result (Unit {0})) (d : Directory) {k : K} {after : Directory}
      → lib.load_pem (lib.to_pem new_key) ≡ ok new_key
      → load_or_create new_key write sync d ≡ (ok k, after)
      → IsKept k after.key
  unfolding load_or_create write_private is_private
  load_or_create-IsKept new_key write sync d {k} {after} reads h = elim (Option-cases d.key) [
    | inr (f, there) ↦ found f _ refl (rw there at h)
    | inl missing ↦ elim (Option-cases d.tmp) [
      | inr (t, left) ↦ cc (rw (missing, left) at h)
      | inl none_left ↦ made _ write sync (rw (missing, none_left) at h)
    ]
  ]
    where
      found :
          (f : File) (z : Directory)
          → z.key ≡ some f
          → (let r : Result K × Directory =
                (if is_private f then lib.load_pem f.content else err os_error, z) in
              r)
            ≡ (ok k, after)
          → IsKept k after.key
      found f z there e = elim (Bool-cases (is_private f)) [
        | inl private ↦
            let (same, kept) = returned-injective_at (rw private at e) in
            subst (λ (x : Directory). IsKept k x.key) kept (rw there (private, same))
        | inr exposed ↦ cc (rw exposed at e)
      ]

      made :
          (x : Directory) (w z : Result (Unit {0}))
          → created new_key (stored (lib.to_pem new_key) w z x) ≡ (ok k, after)
          → IsKept k after.key
      made x (err y) z e = cc
      made x (ok done) (err y) e = cc
      made x (ok done) (ok synced) e =
          let (same, kept) = returned-injective e in
          subst (λ (z : Directory). IsKept k z.key) kept (refl, reads ∙ ap ok same)
