-- ===== src/Seal/Returns.antt =====
-- When `seal_state` of sce/core.py returns, and what it raises.
use sce.Base.{
  ℕ, ◌+◌, ◌≡◌, refl, ◌≤◌, ◌<◌, ◌^◌, ◌++◌, arith, length, length-append, ltb, ltb→le, lt→ltb, le→ltb,
  codes,
}
use sce.Error.{
  ok, OnlySceError, OnlySceError-ok, OnlySceError-bind, OnlySceError-guard, OnlySceError-returns,
}
use sce.Value.{Bytes, Value, ModelManifest, model_manifest}
use sce.Bytes.{big_endian, max_lp_field}
use sce.Bytes.Laws.{to_bytes-ok, length-big_endian}
use sce.Library.{Primitives, Documented}
use sce.Manifest.{require_manifest}
use sce.Manifest.Construct.{IsManifest, length-memh}
use sce.Keys.{KeyMaterial, domain, check_epoch, require_secret, derive_key_material, aad}
use sce.Keys.Derive.{
  kdf_canonical-ok, derive_key_material-ok, derive_key_material-eq-ok, length-k_enc,
}
use sce.Envelope.{pack_uint, pack_ctlen}
use sce.Envelope.Layout.{header, IsSized, pack_header-lem, length-header}
use sce.Seal.{max_state, require_state, bounded_context, check_seal_count, seal_with, seal_state}
use sce.Seal.Total.{
  require_manifest-OnlySceError, bounded_context-OnlySceError, bounded_context-le,
  check_epoch-OnlySceError, check_epoch-lt, require_manifest-eq-ok,
  derive_key_material-OnlySceError,
}
use sce.Seal.RoundTrip.{length-commitment}

-- `len(_aad(…))` for a header, a 32-byte fingerprint and an epoch
abbrev pub aad_len : ℕ
aad_len = 121

pack_ctlen-ok : (n : ℕ) → n < 2 ^ 32 → pack_ctlen n ≡ ok (big_endian 4 n)
unfolding pack_ctlen pack_uint
pack_ctlen-ok n h = rw (lt→ltb n (2 ^ 32) h)

aad-ok :
    (h memh : Bytes) (e : ℕ)
    → length h ≡ 65
    → length memh ≡ 32
    → e < 2 ^ 64
    → (a : Bytes) × (aad h memh e ≡ ok a) × (length a ≡ aad_len)
unfolding aad
aad-ok h memh e lh lm he = (
  domain ++ (codes "|hdr|" ++ (h ++ (memh ++ big_endian 8 e))),
  rw (to_bytes-ok 8 e he),
  omega (
    arith,
    length-append h (memh ++ big_endian 8 e),
    length-append memh (big_endian 8 e),
    length-big_endian 8 e,
  ),
)

module _ (p : Primitives) (d : Documented p) (room : aad_len ≤ p.max_text) where
  -- After a derivation that returned, the seal of a state that fits returns.
  seal_with-returns :
      (salt nonce state memh : Bytes) (v : Value) (e : ℕ) (c : Bytes) {km : KeyMaterial}
      → length nonce ≡ 12
      → length salt ≡ 16
      → length memh ≡ 32
      → e < 2 ^ 64
      → length state ≤ max_state
      → length state ≤ p.max_text
      → derive_key_material p v memh e c salt ≡ ok km
      → (r : Bytes) × (seal_with p salt nonce state memh v e c ≡ ok r)
  unfolding seal_with
  seal_with-returns salt nonce state memh v e c {km} hn hs hm he small fits hk =
      let z : IsSized nonce salt km.commitment = record {
        nonce_size = hn;
        salt_size = hs;
        commitment_size = length-commitment p d v memh e c salt hk;
      } in
      let (s, x, hs, hx, eq) = derive_key_material-eq-ok p v memh e c salt hk in
      let key : length km.k_enc ≡ 32 = rw eq (length-k_enc p d salt s x) in
      let (a, ha, la) =
        aad-ok (header nonce salt km.commitment) memh e (length-header nonce salt km.commitment z)
          hm he in
      let (ct, hc) = d.encrypt_returns km.k_enc nonce state a key hn fits (rw la room) in
      let n : length ct < 2 ^ 32 = omega (arith, d.length-encrypt km.k_enc nonce state a ct hc) in
      (
        header nonce salt km.commitment ++ (big_endian 4 (length ct) ++ ct),
        rw (hk, pack_header-lem nonce salt km.commitment z, ha, hc, pack_ctlen-ok (length ct) n),
      )

  -- With arguments that pass their checks, a constructed manifest, a secret that passes its check
  -- and a state that the cipher takes, `seal_state` returns an envelope after two draws, with
  -- primitives as documented that take the associated data.
  pub seal_state-returns :
      (calls : ℕ) (state secret epoch context count : Value) (m : ModelManifest) {s c k : Bytes}
      {e : ℕ}
      → IsManifest p m
      → require_state state ≡ ok s
      → length s ≤ max_state
      → length s ≤ p.max_text
      → bounded_context context ≡ ok c
      → check_seal_count count ≡ ok tt
      → check_epoch epoch ≡ ok e
      → require_secret secret ≡ ok k
      → (sealed : Bytes) × (seal_state p calls state (model_manifest m) secret epoch context count
          ≡ ok (sealed, calls + 2))
  unfolding seal_state require_manifest
  seal_state-returns calls state secret epoch context count m {s} {c} {k} {e} vm hs small fits hc hu
        he hk =
      let salt = p.urandom calls 16 in
      let (x, hx) =
        kdf_canonical-ok c e m.memh (bounded_context-le context hc) (check_epoch-lt epoch he)
          (omega (arith, length-memh p d m vm)) in
      let (r, hr) =
        seal_with-returns salt (p.urandom (calls + 1) 12) s m.memh secret e c
          (d.length-urandom (calls + 1) 12) (d.length-urandom calls 16) (length-memh p d m vm)
          (check_epoch-lt epoch he) small fits
          (derive_key_material-ok p secret m.memh e c salt hk hx) in
      (r, rw (hs, le→ltb max_state (length s) small, hc, hu, he, hr))

  require_state-OnlySceError : (v : Value) → OnlySceError (require_state v)
  unfolding require_state
  require_state-OnlySceError v = record { caught = λ e h. ground arith }

  check_seal_count-OnlySceError : (v : Value) → OnlySceError (check_seal_count v)
  unfolding check_seal_count
  check_seal_count-OnlySceError v = record { caught = λ e h. ground arith }

  seal_with-OnlySceError :
      (salt nonce state memh : Bytes) (v : Value) (e : ℕ) (c : Bytes)
      → length nonce ≡ 12
      → length salt ≡ 16
      → length memh ≡ 32
      → e < 2 ^ 64
      → length c ≤ max_lp_field
      → length state ≤ max_state
      → length state ≤ p.max_text
      → OnlySceError (seal_with p salt nonce state memh v e c)
  unfolding seal_with
  seal_with-OnlySceError salt nonce state memh v e c hn hs hm he hc small fits =
      OnlySceError-returns (derive_key_material p v memh e c salt) _
        (derive_key_material-OnlySceError p d v memh e c salt hm he hc)
        λ km hk. seal_with-returns salt nonce state memh v e c hn hs hm he small fits hk

  -- Whatever values `seal_state` is given, a manifest among them being a constructed one and a
  -- state one that the cipher takes, it returns or raises an exception of the library, with
  -- primitives as documented that take the associated data.
  pub seal_state-OnlySceError :
      (calls : ℕ) (state manifest secret epoch context count : Value)
      → ((m : ModelManifest) → manifest ≡ model_manifest m → IsManifest p m)
      → ((s : Bytes) → require_state state ≡ ok s → length s ≤ p.max_text)
      → OnlySceError (seal_state p calls state manifest secret epoch context count)
  unfolding seal_state
  seal_state-OnlySceError calls state manifest secret epoch context count valid fits =
      OnlySceError-bind (require_manifest manifest) _ (require_manifest-OnlySceError manifest)
        λ m hm. OnlySceError-bind (require_state state) _ (require_state-OnlySceError state) λ s hs.
          OnlySceError-guard (ltb max_state (length s)) _ _ refl λ small.
            OnlySceError-bind (bounded_context context) _ (bounded_context-OnlySceError context)
              λ c hc.
                OnlySceError-bind (check_seal_count count) _ (check_seal_count-OnlySceError count)
                  λ u hu.
                    OnlySceError-bind (check_epoch epoch) _ (check_epoch-OnlySceError epoch) λ e he.
                      OnlySceError-bind (seal_with p _ _ s m.memh secret e c) _
                        (seal_with-OnlySceError _ _ s m.memh secret e c
                          (d.length-urandom (calls + 1) 12) (d.length-urandom calls 16)
                          (length-memh p d m (valid m (require_manifest-eq-ok manifest hm)))
                          (check_epoch-lt epoch he) (bounded_context-le context hc)
                          (ltb→le max_state (length s) small) (fits s hs))
                        λ r hr. OnlySceError-ok (r, calls + 2)
