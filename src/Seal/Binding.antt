-- ===== src/Seal/Binding.antt =====
-- One envelope of sce/core.py, opened under two environments.
use sce.Base.{ℕ, ◌≡◌, ◌⊎◌, inl, inr, sym, ◌∙◌, ap}
use mathlib.Core.Path.{subst, subst₂}
use sce.Error.{Result, ok, ok-injective}
use sce.Value.{Bytes, Value, ModelManifest, bytes, model_manifest}
use sce.Library.{Primitives, Documented}
use sce.Manifest.{require_manifest}
use sce.Manifest.Environment.{SameEnvironment}
use sce.Manifest.Construct.{IsManifest, memh-injective}
use sce.Keys.{check_epoch, aad, derive_key_material, require_secret, kdf_canonical}
use sce.Keys.Binding.{Collision, Break, commitment-binds}
use sce.Envelope.{Parsed, parse}
use sce.Seal.{require_state, bounded_context, seal_state, unseal_state}
use sce.Seal.Open.{Released, unseal_state-Unsealed}
use sce.Seal.RoundTrip.{unseal_state-seal_state}

-- The arguments that an envelope is opened with.
pub record Presented : Type 0 where
  pub manifest : ModelManifest
  pub secret : Value
  pub epoch : Value
  pub context : Value

-- The same manifest up to NFC and order, and the same secret, epoch and context.
pub record SamePresented (p : Primitives) (a b : Presented) : Type 0 where
  pub environment : SameEnvironment p a.manifest.fields b.manifest.fields
  pub secret : require_secret a.secret ≡ require_secret b.secret
  pub epoch : check_epoch a.epoch ≡ check_epoch b.epoch
  pub context : bounded_context a.context ≡ bounded_context b.context

-- A break of a primitive at inputs that the two opens of an envelope have computed: the canonical
-- bytes of the two manifests, or the derivations of the two keys under the salt of the envelope.
pub data KnownBreak (p : Primitives) (sealed : Value) (a b : Presented) : Type 0 where
  fingerprint :
      (va : IsManifest p a.manifest) (vb : IsManifest p b.manifest)
      → Collision p va.bytes vb.bytes
      → KnownBreak p sealed a b
  derivation :
      (f : Parsed) (s x t y ca cb : Bytes) (ea eb : ℕ)
      → parse sealed ≡ ok f
      → require_secret a.secret ≡ ok s
      → bounded_context a.context ≡ ok ca
      → check_epoch a.epoch ≡ ok ea
      → kdf_canonical ca ea a.manifest.memh ≡ ok x
      → require_secret b.secret ≡ ok t
      → bounded_context b.context ≡ ok cb
      → check_epoch b.epoch ≡ ok eb
      → kdf_canonical cb eb b.manifest.memh ≡ ok y
      → Break p f.salt s x t y
      → KnownBreak p sealed a b

-- Two derivations whose inputs break a primitive.
abbrev pub BrokenDerivation :
    Primitives → Value → Bytes → ℕ → Bytes → Value → Bytes → ℕ → Bytes → Bytes → Type 0
BrokenDerivation p v m e c v' m' e' c' salt =
    (s : Bytes) × (x : Bytes) × (t : Bytes) × (y : Bytes) × (require_secret v ≡ ok s)
    × (kdf_canonical c e m ≡ ok x)
    × (require_secret v' ≡ ok t)
    × (kdf_canonical c' e' m' ≡ ok y)
    × Break p salt s x t y

module _ (p : Primitives) where
  abbrev pub open_under : Value → Presented → Result Bytes
  open_under sealed a = unseal_state p sealed (model_manifest a.manifest) a.secret a.epoch a.context

  same_manifest :
      (m : ModelManifest) {n : ModelManifest} → require_manifest (model_manifest m) ≡ ok n → n ≡ m
  unfolding require_manifest
  same_manifest m h = sym (ok-injective h)

  -- The derivation reads the secret only through its check.
  derive_key_material-same :
      (v w : Value) (m : Bytes) (e : ℕ) (c salt : Bytes)
      → require_secret v ≡ require_secret w
      → derive_key_material p v m e c salt ≡ derive_key_material p w m e c salt
  unfolding derive_key_material
  derive_key_material-same v w m e c salt h = rw h

  -- Two releases from one parsed envelope.
  Released-binds :
      (f : Parsed) (m : Bytes) (v : Value) (e : ℕ) (c : Bytes) (m' : Bytes) (v' : Value) (e' : ℕ)
      (c' : Bytes) {t u : Bytes}
      → Released p f m v e c t
      → Released p f m' v' e' c' u
      → ((require_secret v ≡ require_secret v') × (c ≡ c') × (e ≡ e') × (m ≡ m') × (t ≡ u))
        ⊎ BrokenDerivation p v m e c v' m' e' c' f.salt
  Released-binds f m v e c m' v' e' c' r q =
      elim (commitment-binds p v m e c v' m' e' c' f.salt r.derived q.derived
        (sym r.committed ∙ q.committed)) [
          | inr broken ↦ inr broken
          | inl (hs, hc, he, hm) ↦
              let km : r.km ≡ q.km = ok-injective (
                sym r.derived
                ∙ derive_key_material-same v v' m e c f.salt hs
                ∙ (λ i. derive_key_material p v' (hm i) (he i) (hc i) f.salt)
                ∙ q.derived) in
              let a : r.associated ≡ q.associated =
                ok-injective (sym r.bound ∙ (λ i. aad f.prefix (hm i) (he i)) ∙ q.bound) in
              let plain : _ ≡ _ = ok-injective (
                sym r.decrypted
                ∙ (λ i. p.decrypt (km i).k_enc f.nonce f.ciphertext (a i))
                ∙ q.decrypted) in
              inl (hs, hc, he, hm, plain)
        ]

  -- If an envelope opens under two constructed manifests with their secrets, epochs and contexts,
  -- then these are the same and so is the plaintext, or a primitive is broken at inputs that the two
  -- opens computed, the envelope's salt among them.
  pub unseal_state-binds :
      (sealed : Value) (a b : Presented) {t u : Bytes}
      → IsManifest p a.manifest
      → IsManifest p b.manifest
      → open_under sealed a ≡ ok t
      → open_under sealed b ≡ ok u
      → (SamePresented p a b × (t ≡ u)) ⊎ KnownBreak p sealed a b
  unseal_state-binds sealed a b {t} {u} va vb ha hb =
      let x =
        unseal_state-Unsealed p sealed (model_manifest a.manifest) a.secret a.epoch a.context ha in
      let y =
        unseal_state-Unsealed p sealed (model_manifest b.manifest) b.secret b.epoch b.context hb in
      let mx = ap (λ (m : ModelManifest). m.memh) (same_manifest a.manifest x.is_manifest) in
      let my = ap (λ (m : ModelManifest). m.memh) (same_manifest b.manifest y.is_manifest) in
      let f : y.f ≡ x.f = ok-injective (sym y.parsed ∙ x.parsed) in
      let rx : Released p x.f a.manifest.memh a.secret x.e x.c t =
        subst (λ h. Released p x.f h a.secret x.e x.c t) mx x.released in
      let ry : Released p x.f b.manifest.memh b.secret y.e y.c u =
        subst₂ (λ g h. Released p g h b.secret y.e y.c u) f my y.released in
      elim (Released-binds x.f a.manifest.memh a.secret x.e x.c b.manifest.memh b.secret y.e y.c rx
        ry) [
          | inr (s, z, r, w, hs, hz, hr, hw, broken) ↦ inr (
              derivation x.f s z r w x.c y.c x.e y.e x.parsed hs x.is_context x.is_epoch hz hr
                y.is_context y.is_epoch hw broken)
          | inl (hs, hc, he, hm, plain) ↦ elim (memh-injective p a.manifest b.manifest va vb hm) [
            | inr collision ↦ inr (fingerprint va vb collision)
            | inl same ↦ inl (
              record {
                environment = same;
                secret = hs;
                epoch = x.is_epoch ∙ ap ok he ∙ sym y.is_epoch;
                context = x.is_context ∙ ap ok hc ∙ sym y.is_context;
              },
              plain,
            )
          ]
        ]

  -- If an envelope sealed under one constructed manifest, secret, epoch and context opens under
  -- another, then these are the same and the plaintext is the sealed state, or a primitive is
  -- broken at inputs that the two calls computed, the envelope's salt among them, with primitives as
  -- documented.
  pub seal_state-fails_closed :
      Documented p
      → (calls : ℕ) (state count : Value) (a b : Presented) {s sealed t : Bytes} {after : ℕ}
      → IsManifest p a.manifest
      → IsManifest p b.manifest
      → require_state state ≡ ok s
      → seal_state p calls state (model_manifest a.manifest) a.secret a.epoch a.context count
        ≡ ok (sealed, after)
      → open_under (bytes sealed) b ≡ ok t
      → (SamePresented p a b × (s ≡ t)) ⊎ KnownBreak p (bytes sealed) a b
  seal_state-fails_closed d calls state count a b {sealed = sealed} va vb hs h ho =
      unseal_state-binds (bytes sealed) a b va vb
        (unseal_state-seal_state p d calls state (model_manifest a.manifest) a.secret a.epoch
          a.context count hs h)
        ho
