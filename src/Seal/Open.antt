-- ===== src/Seal/Open.antt =====
-- What `unseal_state` of sce/core.py returns and how it fails.
use sce.Base.{ℕ, ◌≡◌, ◌∙◌, ap, Bool, true, Option, some, list_eq, list_eq→eq, arith}
use sce.Error.{Result, ok, >>=-eq-ok}
use sce.Value.{Bytes, Value, ModelManifest}
use sce.Library.{Primitives}
use sce.Manifest.{require_manifest}
use sce.Keys.{KeyMaterial, check_epoch, derive_key_material, aad}
use sce.Envelope.{Parsed, parse}
use sce.Seal.{bounded_context, opened, verdict, open_parsed, unseal_state}

-- The evidence that a plaintext was released on.
pub record Released (p : Primitives) (f : Parsed) (memh : Bytes) (secret : Value) (epoch : ℕ)
    (context plaintext : Bytes) : Type 0 where
  pub km : KeyMaterial
  pub associated : Bytes
  pub derived : derive_key_material p secret memh epoch context f.salt ≡ ok km
  pub bound : aad f.prefix memh epoch ≡ ok associated
  pub committed : f.commitment ≡ km.commitment
  pub decrypted : p.decrypt km.k_enc f.nonce f.ciphertext associated ≡ ok plaintext

opened-eq-ok : (r : Result Bytes) {t : Bytes} → opened r ≡ ok (some t) → r ≡ ok t
unfolding opened
opened-eq-ok r h = ground arith

verdict-eq-ok :
    (b : Bool) (o : Option Bytes) {t : Bytes} → verdict b o ≡ ok t → (b ≡ true) × (o ≡ some t)
unfolding verdict
verdict-eq-ok b o h = ground arith

module _ (p : Primitives) where
  -- A plaintext is released only if the stored commitment is that of the presented environment
  -- and the decryption under its key and associated data succeeded; it is what that returned.
  pub open_parsed-Released :
      (f : Parsed) (memh : Bytes) (secret : Value) (epoch : ℕ) (context : Bytes) {t : Bytes}
      → open_parsed p f memh secret epoch context ≡ ok t
      → Released p f memh secret epoch context t
  unfolding open_parsed
  open_parsed-Released f memh secret epoch context h =
      let (km, hk, h₁) = >>=-eq-ok (derive_key_material p secret memh epoch context f.salt) _ h in
      let (a, ha, h₂) = >>=-eq-ok (aad f.prefix memh epoch) _ h₁ in
      let (o, ho, h₃) = >>=-eq-ok (opened (p.decrypt km.k_enc f.nonce f.ciphertext a)) _ h₂ in
      let (same, plain) = verdict-eq-ok (list_eq f.commitment km.commitment) o h₃ in
      record {
        km = km;
        associated = a;
        derived = hk;
        bound = ha;
        committed = list_eq→eq f.commitment km.commitment same;
        decrypted = opened-eq-ok (p.decrypt km.k_enc f.nonce f.ciphertext a) (ho ∙ ap ok plain);
      }

  -- The checks that an opened envelope went through.
  pub record Unsealed (sealed manifest secret epoch context : Value) (plaintext : Bytes)
      : Type 0 where
    pub m : ModelManifest
    pub c : Bytes
    pub e : ℕ
    pub f : Parsed
    pub is_manifest : require_manifest manifest ≡ ok m
    pub is_context : bounded_context context ≡ ok c
    pub is_epoch : check_epoch epoch ≡ ok e
    pub parsed : parse sealed ≡ ok f
    pub released : Released p f m.memh secret e c plaintext

  -- A plaintext that `unseal_state` returned is what the decryption returned under the key and the
  -- associated data of the checked arguments, and the stored commitment is that of the key.
  pub unseal_state-Unsealed :
      (sealed manifest secret epoch context : Value) {t : Bytes}
      → unseal_state p sealed manifest secret epoch context ≡ ok t
      → Unsealed sealed manifest secret epoch context t
  unfolding unseal_state
  unseal_state-Unsealed sealed manifest secret epoch context h =
      let (m, hm, h₁) = >>=-eq-ok (require_manifest manifest) _ h in
      let (c, hc, h₂) = >>=-eq-ok (bounded_context context) _ h₁ in
      let (e, he, h₃) = >>=-eq-ok (check_epoch epoch) _ h₂ in
      let (f, hf, h₄) = >>=-eq-ok (parse sealed) _ h₃ in
      record {
        m = m;
        c = c;
        e = e;
        f = f;
        is_manifest = hm;
        is_context = hc;
        is_epoch = he;
        parsed = hf;
        released = open_parsed-Released f m.memh secret e c h₄;
      }
