-- ===== src/Keys/Derive.antt =====
-- What `_kdf_info` and `_derive_key_material` of sce/core.py compute, and when they return.
use sce.Base.{
  le→ltb, ℕ, ◌^◌, ◌≤◌, ◌<◌, ◌≡◌, refl, sym, ◌∙◌, [], ◌++◌, arith, length, take, drop, append-cut,
  length-take, append-nil,
}
use sce.Error.{ok, >>=-eq-ok}
use sce.Value.{Bytes, Value, bytes}
use sce.Bytes.{big_endian, to_bytes, lp, max_lp_field}
use sce.Bytes.Laws.{
  lp-ok, lp-eq-ok, to_bytes-ok, to_bytes-eq-ok, length-big_endian, big_endian-injective, prefix-cut,
}
use sce.Library.{Primitives, Documented}
use sce.Keys.{
  key_len, kdf_info_prefix, kdf_canon_tag, kdf_canonical, require_secret, KeyMaterial, kdf_info,
  commit, derive_key_material,
}

-- A length-prefixed field.
abbrev prefixed : Bytes → Bytes
prefixed b = big_endian 4 (length b) ++ b

-- Every field is bounded and length-prefixed.
kdf_canonical-eq-ok :
    (c : Bytes) (e : ℕ) (m : Bytes) {r : Bytes}
    → kdf_canonical c e m ≡ ok r
    → (length c ≤ max_lp_field)
      × (e < 256 ^ 8)
      × (length m ≤ max_lp_field)
      × (r ≡ kdf_canon_tag ++ (prefixed c ++ (prefixed (big_endian 8 e) ++ prefixed m)))
unfolding kdf_canonical
kdf_canonical-eq-ok c e m h =
    let (c', hc, h₁) = >>=-eq-ok (lp c) _ h in
    let (n, hn, h₂) = >>=-eq-ok (to_bytes 8 e) _ h₁ in
    let (e', he, h₃) = >>=-eq-ok (lp n) _ h₂ in
    let (m', hm, h₄) = >>=-eq-ok (lp m) _ h₃ in
    let (lc, ec) = lp-eq-ok c hc in
    let (ln, en) = to_bytes-eq-ok 8 e hn in
    let (le, ee) = lp-eq-ok n he in let (lm, em) = lp-eq-ok m hm in (lc, ln, lm, cc)

-- The bytes that are hashed determine the context, the epoch and the fingerprint.
pub kdf_canonical-injective :
    (c : Bytes) (e : ℕ) (m : Bytes) (c' : Bytes) (e' : ℕ) (m' : Bytes) {r : Bytes}
    → kdf_canonical c e m ≡ ok r
    → kdf_canonical c' e' m' ≡ ok r
    → (c ≡ c') × (e ≡ e') × (m ≡ m')
kdf_canonical-injective c e m c' e' m' h h' =
    let (lc, le, lm, eq) = kdf_canonical-eq-ok c e m h in
    let (lc', le', lm', eq') = kdf_canonical-eq-ok c' e' m' h' in
    let tag = append-cut kdf_canon_tag kdf_canon_tag refl (sym eq ∙ eq') in
    let context = prefix-cut c c' lc lc' tag.1 in
    let epoch =
      prefix-cut (big_endian 8 e) (big_endian 8 e') (omega (arith, length-big_endian 8 e))
        (omega (arith, length-big_endian 8 e')) context.1 in
    let memh = prefix-cut m m' {r = []} {s = []} lm lm' (simp append-nil epoch.1) in
    (context.0, big_endian-injective 8 e e' le le' epoch.0, memh.0)

pub kdf_canonical-ok :
    (c : Bytes) (e : ℕ) (m : Bytes)
    → length c ≤ max_lp_field
    → e < 2 ^ 64
    → length m ≤ max_lp_field
    → (r : Bytes) × (kdf_canonical c e m ≡ ok r)
unfolding kdf_canonical
kdf_canonical-ok c e m hc he hm = (
  kdf_canon_tag ++ (prefixed c ++ (prefixed (big_endian 8 e) ++ prefixed m)),
  rw (
    lp-ok c hc,
    to_bytes-ok 8 e he,
    lp-ok (big_endian 8 e) (omega (arith, length-big_endian 8 e)),
    lp-ok m hm,
  ),
)

-- A secret of bytes that is long enough passes its check.
pub require_secret-long : (b : Bytes) → 16 ≤ length b → require_secret (bytes b) ≡ ok b
unfolding require_secret
require_secret-long b h = rw (le→ltb (length b) 16 h)

-- The 64 bytes that HKDF derives.
abbrev pub material : Primitives → Bytes → Bytes → Bytes → Bytes
material p salt secret canonical = p.hkdf 64 salt (kdf_info_prefix ++ p.sha3_256 canonical) secret

abbrev pub split_material : (p : Primitives) → Bytes → KeyMaterial
split_material p m = record { k_enc = take key_len m; commitment = commit p (drop key_len m) }

module _ (p : Primitives) where
  require_secret-eq-ok : (v : Value) {s : Bytes} → require_secret v ≡ ok s → 16 ≤ length s
  unfolding require_secret
  require_secret-eq-ok v h = ground arith

  -- A derivation that returns went through a secret that is long enough and the canonical bytes.
  pub derive_key_material-eq-ok :
      (v : Value) (m : Bytes) (e : ℕ) (c salt : Bytes) {km : KeyMaterial}
      → derive_key_material p v m e c salt ≡ ok km
      → (s : Bytes) × (x : Bytes) × (require_secret v ≡ ok s)
        × (kdf_canonical c e m ≡ ok x)
        × (km ≡ split_material p (material p salt s x))
  unfolding derive_key_material kdf_info
  derive_key_material-eq-ok v m e c salt h =
      let (s, hs, h₁) = >>=-eq-ok (require_secret v) _ h in
      let (i, hi, h₂) = >>=-eq-ok (kdf_info p c e m) _ h₁ in
      let (x, hx, h₃) = >>=-eq-ok (kdf_canonical c e m) _ hi in (s, x, hs, hx, cc)

  pub derive_key_material-ok :
      (v : Value) (m : Bytes) (e : ℕ) (c salt : Bytes) {s x : Bytes}
      → require_secret v ≡ ok s
      → kdf_canonical c e m ≡ ok x
      → derive_key_material p v m e c salt ≡ ok (split_material p (material p salt s x))
  unfolding derive_key_material kdf_info
  derive_key_material-ok v m e c salt hs hx = rw (hs, hx)

  -- The encryption key has 32 bytes.
  pub length-k_enc : Documented p → (salt s x : Bytes) → length (take 32 (material p salt s x)) ≡ 32
  length-k_enc d salt s x = omega (
    arith,
    length-take 32 (material p salt s x),
    d.length-hkdf 64 salt (kdf_info_prefix ++ p.sha3_256 x) s,
  )
