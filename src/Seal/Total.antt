-- ===== src/Seal/Total.antt =====
-- The exceptions of `unseal_state` and of the inspection functions of sce/core.py.
use sce.Base.{ℕ, ◌≡◌, refl, ◌≤◌, ◌^◌, ◌<◌, Bool, Option, none, some, arith, length, ltb, ltb→le}
use mathlib.Core.Path.{subst}
use sce.Error.{
  ok-injective, Exception, Message, Result, ok, raise, raise_if, >>=-eq-ok, raise_if-eq-ok,
  invalid_tag, OnlySceError, OnlySceError-ok, OnlySceError-raise, OnlySceError-raise_if,
  OnlySceError-bind,
}
use sce.Value.{Bytes, Value, ModelManifest, bytes, bytearray, model_manifest}
use sce.Bytes.{max_lp_field}
use sce.Bytes.Laws.{to_bytes-ok}
use sce.Library.{Primitives, Documented}
use sce.Manifest.{require_manifest}
use sce.Manifest.Construct.{IsManifest, length-memh}
use sce.Keys.{check_epoch, derive_key_material, aad, kdf_info, require_secret}
use sce.Keys.Derive.{kdf_canonical-ok, derive_key_material-eq-ok, length-k_enc}
use sce.Envelope.{Parsed, parse, parse_bytes, require_envelope_bytes}
use sce.Envelope.Accepts.{parse_bytes-sizes}
use sce.Envelope.Layout.{IsSized}
use sce.Seal.{require_context, bounded_context, opened, verdict, open_parsed, unseal_state}

pub require_manifest-OnlySceError : (v : Value) → OnlySceError (require_manifest v)
unfolding require_manifest
require_manifest-OnlySceError (model_manifest m) = OnlySceError-ok m
require_manifest-OnlySceError v = OnlySceError-raise _ refl

pub require_context-OnlySceError : (v : Value) → OnlySceError (require_context v)
unfolding require_context
require_context-OnlySceError (bytes b) = OnlySceError-ok b
require_context-OnlySceError (bytearray b) = OnlySceError-ok b
require_context-OnlySceError v = OnlySceError-raise _ refl

pub bounded_context-OnlySceError : (v : Value) → OnlySceError (bounded_context v)
unfolding bounded_context
bounded_context-OnlySceError v =
    OnlySceError-bind (require_context v) _ (require_context-OnlySceError v) λ c h.
      OnlySceError-bind (raise_if _ _) _ (OnlySceError-raise_if _ _ refl) λ u k. OnlySceError-ok c

pub bounded_context-le :
    (v : Value) {c : Bytes} → bounded_context v ≡ ok c → length c ≤ max_lp_field
unfolding bounded_context
bounded_context-le v h =
    let (c, hc, k) = >>=-eq-ok (require_context v) _ h in
    let (small, e) = raise_if-eq-ok (ltb max_lp_field (length c)) _ _ k in
    let same : c ≡ _ = ok-injective e in
    subst (λ x. length x ≤ max_lp_field) same (ltb→le max_lp_field (length c) small)

pub require_manifest-eq-ok :
    (v : Value) {m : ModelManifest} → require_manifest v ≡ ok m → v ≡ model_manifest m
unfolding require_manifest
require_manifest-eq-ok v h = ground arith

pub check_epoch-OnlySceError : (v : Value) → OnlySceError (check_epoch v)
unfolding check_epoch
check_epoch-OnlySceError v = record { caught = λ e h. ground arith }

pub check_epoch-lt : (v : Value) {e : ℕ} → check_epoch v ≡ ok e → e < 2 ^ 64
unfolding check_epoch
check_epoch-lt v h = ground arith

pub require_envelope_bytes-OnlySceError :
    (v : Value) (m : Message) → OnlySceError (require_envelope_bytes v m)
unfolding require_envelope_bytes
require_envelope_bytes-OnlySceError v m = record { caught = λ e h. ground arith }

parse_bytes-OnlySceError : (s : Bytes) → OnlySceError (parse_bytes s)
unfolding parse_bytes
parse_bytes-OnlySceError s = record { caught = λ e h. ground arith }

-- Whatever value `_parse` is given, it returns or raises an exception of the library.
pub parse-OnlySceError : (v : Value) → OnlySceError (parse v)
unfolding parse
parse-OnlySceError v =
    OnlySceError-bind (require_envelope_bytes v _) _ (require_envelope_bytes-OnlySceError v _)
      λ s h. parse_bytes-OnlySceError s

pub parse-sizes : (v : Value) {f : Parsed} → parse v ≡ ok f → IsSized f.nonce f.salt f.commitment
unfolding parse
parse-sizes v h =
    let (s, hs, k) = >>=-eq-ok (require_envelope_bytes v _) _ h in parse_bytes-sizes s k

require_secret-OnlySceError : (v : Value) → OnlySceError (require_secret v)
unfolding require_secret
require_secret-OnlySceError v = record { caught = λ e h. ground arith }

opened_invalid_tag :
    (r : Result Bytes) → ((e : Exception) → r ≡ raise e → e ≡ invalid_tag) → OnlySceError (opened r)
unfolding opened
opened_invalid_tag (ok t) h = OnlySceError-ok (some t)
opened_invalid_tag (raise e) h = rw (h e refl) (OnlySceError-ok none)

module _ (p : Primitives) (d : Documented p) where
  pub derive_key_material-OnlySceError :
      (v : Value) (memh : Bytes) (e : ℕ) (c salt : Bytes)
      → length memh ≡ 32
      → e < 2 ^ 64
      → length c ≤ max_lp_field
      → OnlySceError (derive_key_material p v memh e c salt)
  unfolding derive_key_material kdf_info
  derive_key_material-OnlySceError v memh e c salt hm he hc =
      OnlySceError-bind (require_secret v) _ (require_secret-OnlySceError v) λ s hs.
        let (x, hx) = kdf_canonical-ok c e memh hc he (omega arith) in rw hx (OnlySceError-ok _)

  opened-OnlySceError :
      (key nonce c a : Bytes)
      → length key ≡ 32
      → length nonce ≡ 12
      → OnlySceError (opened (p.decrypt key nonce c a))
  opened-OnlySceError key nonce c a hk hn =
      opened_invalid_tag (p.decrypt key nonce c a) (λ e h. d.decrypt_raises key nonce c a e hk hn h)

  verdict-OnlySceError : (b : Bool) (o : Option Bytes) → OnlySceError (verdict b o)
  unfolding verdict
  verdict-OnlySceError b o = record { caught = λ e h. ground arith }

  -- Once the arguments are read, an open raises nothing but exceptions of the library.
  open_parsed-OnlySceError :
      (f : Parsed) (memh : Bytes) (v : Value) (e : ℕ) (c : Bytes)
      → length memh ≡ 32
      → e < 2 ^ 64
      → length c ≤ max_lp_field
      → length f.nonce ≡ 12
      → OnlySceError (open_parsed p f memh v e c)
  unfolding open_parsed aad
  open_parsed-OnlySceError f memh v e c hm he hc hn =
      OnlySceError-bind (derive_key_material p v memh e c f.salt) _
        (derive_key_material-OnlySceError v memh e c f.salt hm he hc)
        λ km hk.
          let (s, x, hs, hx, eq) = derive_key_material-eq-ok p v memh e c f.salt hk in
          let key : length km.k_enc ≡ 32 = rw eq (length-k_enc p d f.salt s x) in
          rw (to_bytes-ok 8 e he) (
            OnlySceError-bind (opened (p.decrypt km.k_enc f.nonce f.ciphertext _)) _
              (opened-OnlySceError km.k_enc f.nonce f.ciphertext _ key hn)
              λ o ho. verdict-OnlySceError _ o)

  -- Whatever values `unseal_state` is given, a manifest among them being a constructed one, it
  -- returns or raises an exception of the library, with primitives as documented.
  pub unseal_state-OnlySceError :
      (sealed manifest secret epoch context : Value)
      → ((m : ModelManifest) → manifest ≡ model_manifest m → IsManifest p m)
      → OnlySceError (unseal_state p sealed manifest secret epoch context)
  unfolding unseal_state
  unseal_state-OnlySceError sealed manifest secret epoch context valid =
      OnlySceError-bind (require_manifest manifest) _ (require_manifest-OnlySceError manifest)
        λ m hm.
          OnlySceError-bind (bounded_context context) _ (bounded_context-OnlySceError context)
            λ c hc. OnlySceError-bind (check_epoch epoch) _ (check_epoch-OnlySceError epoch) λ e he.
              OnlySceError-bind (parse sealed) _ (parse-OnlySceError sealed) λ f hf.
                open_parsed-OnlySceError f m.memh secret e c
                  (length-memh p d m (valid m (require_manifest-eq-ok manifest hm)))
                  (check_epoch-lt epoch he) (bounded_context-le context hc)
                  (parse-sizes sealed hf).nonce_size
