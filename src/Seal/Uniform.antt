-- ===== src/Seal/Uniform.antt =====
-- The refusals of `unseal_state` of sce/core.py.
use sce.Base.{
  ℕ, ◌≤◌, ◌<◌, ◌≡◌, refl, ◌^◌, ◌⊎◌, inl, inr, arith, Bool, true, false, Option, some, none, length,
  list_eq, ◌++◌, codes,
}
use sce.Error.{Exception, Result, ok, raise, state_seal_mismatch, invalid_tag, mismatch_message}
use sce.Value.{Bytes, Value, ModelManifest, model_manifest}
use sce.Bytes.{max_lp_field, big_endian}
use sce.Bytes.Laws.{to_bytes-ok}
use sce.Library.{Primitives, Documented}
use sce.Manifest.{require_manifest}
use sce.Manifest.Construct.{IsManifest, length-memh}
use sce.Keys.{check_epoch, require_secret, aad, domain}
use sce.Keys.Derive.{
  kdf_canonical-ok, derive_key_material-ok, length-k_enc, split_material, material,
}
use sce.Envelope.{Parsed, parse}
use sce.Seal.{bounded_context, opened, verdict, open_parsed, unseal_state}
use sce.Seal.Total.{bounded_context-le, check_epoch-lt, parse-sizes}

-- A plaintext, or the one refusal.
abbrev pub Uniform : Result Bytes → Type 0
Uniform r = ((t : Bytes) × (r ≡ ok t)) ⊎ (r ≡ raise (state_seal_mismatch mismatch_message))

verdict-Uniform : (b : Bool) (o : Option Bytes) → Uniform (verdict b o)
unfolding verdict
verdict-Uniform true (some t) = inl (t, refl)
verdict-Uniform true none = inr refl
verdict-Uniform false o = inr refl

opened-returns :
    (r : Result Bytes)
    → ((e : Exception) → r ≡ raise e → e ≡ invalid_tag)
    → (o : Option Bytes) × (opened r ≡ ok o)
unfolding opened
opened-returns (ok t) h = (some t, refl)
opened-returns (raise e) h = (none, rw (h e refl) refl)

aad-returns : (h memh : Bytes) (e : ℕ) → e < 2 ^ 64 → (a : Bytes) × (aad h memh e ≡ ok a)
unfolding aad
aad-returns h memh e he =
    (domain ++ (codes "|hdr|" ++ (h ++ (memh ++ big_endian 8 e))), rw (to_bytes-ok 8 e he))

module _ (p : Primitives) (d : Documented p) where
  open_parsed-Uniform :
      (f : Parsed) (memh : Bytes) (v : Value) (e : ℕ) (c : Bytes) {k : Bytes}
      → length memh ≡ 32
      → e < 2 ^ 64
      → length c ≤ max_lp_field
      → length f.nonce ≡ 12
      → require_secret v ≡ ok k
      → Uniform (open_parsed p f memh v e c)
  unfolding open_parsed
  open_parsed-Uniform f memh v e c {k} hm he hc hn hk =
      let (x, hx) = kdf_canonical-ok c e memh hc he (omega arith) in
      let km = split_material p (material p f.salt k x) in
      let (a, ha) = aad-returns f.prefix memh e he in
      let (o, ho) = opened-returns (p.decrypt km.k_enc f.nonce f.ciphertext a) (λ z h.
        d.decrypt_raises km.k_enc f.nonce f.ciphertext a z (length-k_enc p d f.salt k x) hn h) in
      rw (derive_key_material-ok p v memh e c f.salt hk hx, ha, ho)
        (verdict-Uniform (list_eq f.commitment km.commitment) o)

  -- An envelope that parses, under a constructed manifest and arguments that pass their checks, is
  -- opened or refused with the one message, whatever differs, with primitives as documented.
  pub unseal_state-Uniform :
      (sealed secret epoch context : Value) (m : ModelManifest) {f : Parsed} {c k : Bytes} {e : ℕ}
      → IsManifest p m
      → parse sealed ≡ ok f
      → bounded_context context ≡ ok c
      → check_epoch epoch ≡ ok e
      → require_secret secret ≡ ok k
      → Uniform (unseal_state p sealed (model_manifest m) secret epoch context)
  unfolding unseal_state require_manifest
  unseal_state-Uniform sealed secret epoch context m {f} {c} {k} {e} vm hf hc he hk =
      rw (hc, he, hf)
        (open_parsed-Uniform f m.memh secret e c (length-memh p d m vm) (check_epoch-lt epoch he)
          (bounded_context-le context hc) (parse-sizes sealed hf).nonce_size hk)
