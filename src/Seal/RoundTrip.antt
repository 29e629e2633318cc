-- ===== src/Seal/RoundTrip.antt =====
-- `seal_state` and then `unseal_state` of sce/core.py.
use sce.Base.{ℕ, ◌+◌, ◌≡◌, sym, ◌∙◌, ap, ◌<◌, ◌^◌, list_eq_refl, arith, length, ◌++◌, ltb}
use mathlib.Core.Path.{ap₂, subst}
use sce.Error.{ok, ◌>>=◌, >>=-eq-ok, raise_if-eq-ok, ok-injective}
use sce.Value.{Bytes, Value, ModelManifest, bytes}
use sce.Bytes.{big_endian}
use sce.Library.{Primitives, Documented}
use sce.Manifest.{require_manifest}
use sce.Keys.{KeyMaterial, check_epoch, commit, derive_key_material, aad}
use sce.Keys.Derive.{derive_key_material-eq-ok}
use sce.Envelope.{
  nonce_len, salt_len, pack_header, pack_uint, pack_ctlen, parse, require_envelope_bytes,
}
use sce.Envelope.Layout.{
  header, envelope, fields_of, IsSized, pack_header-lem, length-envelope, parse_bytes-envelope,
}
use sce.Seal.{
  max_state, require_state, bounded_context, check_seal_count, opened, verdict, seal_with,
  seal_state, open_parsed, unseal_state,
}

-- How an envelope was made.
pub record Sealed (p : Primitives) (salt nonce state memh : Bytes) (secret : Value) (epoch : ℕ)
    (context sealed : Bytes) : Type 0 where
  pub km : KeyMaterial
  pub associated : Bytes
  pub ciphertext : Bytes
  pub derived : derive_key_material p secret memh epoch context salt ≡ ok km
  pub bound : aad (header nonce salt km.commitment) memh epoch ≡ ok associated
  pub encrypted : p.encrypt km.k_enc nonce state associated ≡ ok ciphertext
  pub layout : sealed ≡ envelope nonce salt km.commitment ciphertext
  pub sized : IsSized nonce salt km.commitment
  pub framed : length ciphertext < 2 ^ 32

pack_ctlen-eq-ok : (n : ℕ) {r : Bytes} → pack_ctlen n ≡ ok r → (n < 2 ^ 32) × (r ≡ big_endian 4 n)
unfolding pack_ctlen pack_uint
pack_ctlen-eq-ok n h = ground arith

-- The end of a seal is the framing of the ciphertext.
framing :
    (nonce salt k ct f : Bytes) {sealed : Bytes}
    → f ≡ header nonce salt k
    → (pack_ctlen (length ct) >>= λ n. ok (f ++ (n ++ ct))) ≡ ok sealed
    → (length ct < 2 ^ 32) × (sealed ≡ envelope nonce salt k ct)
unfolding envelope
framing nonce salt k ct f same h =
    let (n, hl, e) = >>=-eq-ok (pack_ctlen (length ct)) _ h in
    let (small, en) = pack_ctlen-eq-ok (length ct) hl in
    (small, ok-injective (sym e) ∙ ap₂ (λ a b. a ++ (b ++ ct)) same en)

module _ (p : Primitives) (d : Documented p) where
  pub length-commitment :
      (v : Value) (memh : Bytes) (e : ℕ) (c salt : Bytes) {km : KeyMaterial}
      → derive_key_material p v memh e c salt ≡ ok km
      → length km.commitment ≡ 32
  length-commitment v memh e c salt h =
      let (s, x, hs, hx, eq) = derive_key_material-eq-ok p v memh e c salt h in
      rw eq (unfold commit in d.length-sha3_256 _)

  seal_with-Sealed :
      (salt nonce state memh : Bytes) (v : Value) (e : ℕ) (c : Bytes) {sealed : Bytes}
      → length nonce ≡ 12
      → length salt ≡ 16
      → seal_with p salt nonce state memh v e c ≡ ok sealed
      → Sealed p salt nonce state memh v e c sealed
  unfolding seal_with
  seal_with-Sealed salt nonce state memh v e c hn hs h =
      let (km, hk, h₁) = >>=-eq-ok (derive_key_material p v memh e c salt) _ h in
      let z : IsSized nonce salt km.commitment = record {
        nonce_size = hn;
        salt_size = hs;
        commitment_size = length-commitment v memh e c salt hk;
      } in
      let (f, hf, h₂) = >>=-eq-ok (pack_header nonce salt km.commitment) _ h₁ in
      let same : f ≡ header nonce salt km.commitment =
        ok-injective (sym hf ∙ pack_header-lem nonce salt km.commitment z) in
      let (a, ha, h₃) = >>=-eq-ok (aad f memh e) _ h₂ in
      let (ct, hc, h₄) = >>=-eq-ok (p.encrypt km.k_enc nonce state a) _ h₃ in
      let (small, layout) = framing nonce salt km.commitment ct f same h₄ in
      record {
        km = km;
        associated = a;
        ciphertext = ct;
        derived = hk;
        bound = rw (← same) ha;
        encrypted = hc;
        layout = layout;
        sized = z;
        framed = small;
      }

  open-Sealed :
      (salt nonce state memh : Bytes) (v : Value) (e : ℕ) (c : Bytes) {sealed : Bytes}
      → (q : Sealed p salt nonce state memh v e c sealed)
      → open_parsed p (fields_of nonce salt q.km.commitment q.ciphertext) memh v e c ≡ ok state
  unfolding open_parsed opened verdict
  open-Sealed salt nonce state memh v e c q = rw (
    q.derived,
    q.bound,
    d.decrypt-encrypt q.km.k_enc nonce state q.associated q.ciphertext q.encrypted,
    list_eq_refl q.km.commitment,
  )

  parse-Sealed :
      (salt nonce state memh : Bytes) (v : Value) (e : ℕ) (c : Bytes) {sealed : Bytes}
      → (q : Sealed p salt nonce state memh v e c sealed)
      → parse (bytes sealed) ≡ ok (fields_of nonce salt q.km.commitment q.ciphertext)
  unfolding parse require_envelope_bytes
  parse-Sealed salt nonce state memh v e c q = rw q.layout (
      parse_bytes-envelope nonce salt q.km.commitment q.sized q.ciphertext
        (omega
          (arith, d.length-encrypt q.km.k_enc nonce state q.associated q.ciphertext q.encrypted))
        q.framed)

  -- The run of a seal that returned.
  pub record Run (calls : ℕ) (state manifest secret epoch context : Value) (sealed : Bytes)
      (after : ℕ) : Type 0 where
    pub s : Bytes
    pub m : ModelManifest
    pub c : Bytes
    pub e : ℕ
    pub is_state : require_state state ≡ ok s
    pub is_manifest : require_manifest manifest ≡ ok m
    pub is_context : bounded_context context ≡ ok c
    pub is_epoch : check_epoch epoch ≡ ok e
    pub made : Sealed p (p.urandom calls 16) (p.urandom (calls + 1) 12) s m.memh secret e c sealed
    pub drawn : after ≡ calls + 2

  pub seal_state-Run :
      (calls : ℕ) (state manifest secret epoch context count : Value) {sealed : Bytes} {after : ℕ}
      → seal_state p calls state manifest secret epoch context count ≡ ok (sealed, after)
      → Run calls state manifest secret epoch context sealed after
  unfolding seal_state
  seal_state-Run calls state manifest secret epoch context count h =
      let (m, hm, h₁) = >>=-eq-ok (require_manifest manifest) _ h in
      let (s, hs, h₂) = >>=-eq-ok (require_state state) _ h₁ in
      let (small, h₃) = raise_if-eq-ok (ltb max_state (length s)) _ _ h₂ in
      let (c, hc, h₄) = >>=-eq-ok (bounded_context context) _ h₃ in
      let (u, hu, h₅) = >>=-eq-ok (check_seal_count count) _ h₄ in
      let (e, he, h₆) = >>=-eq-ok (check_epoch epoch) _ h₅ in
      let (b, hb, h₇) =
        >>=-eq-ok
          (seal_with p (p.urandom calls salt_len) (p.urandom (calls + 1) nonce_len) s m.memh secret
            e c)
          _ h₆ in
      let out = ok-injective h₇ in
      record {
        s = s;
        m = m;
        c = c;
        e = e;
        is_state = hs;
        is_manifest = hm;
        is_context = hc;
        is_epoch = he;
        made = subst (Sealed p _ _ s m.memh secret e c) (ap (λ (z : Bytes × ℕ). z.0) out) (
            seal_with-Sealed _ _ s m.memh secret e c (d.length-urandom (calls + 1) 12)
              (d.length-urandom calls 16) hb);
        drawn = sym (ap (λ (z : Bytes × ℕ). z.1) out);
      }

  -- An envelope that `seal_state` returned opens under the manifest, secret, epoch and context that
  -- it was sealed with, and gives back the bytes of the state, with primitives as documented.
  pub unseal_state-seal_state :
      (calls : ℕ) (state manifest secret epoch context count : Value) {sealed s : Bytes} {after : ℕ}
      → require_state state ≡ ok s
      → seal_state p calls state manifest secret epoch context count ≡ ok (sealed, after)
      → unseal_state p (bytes sealed) manifest secret epoch context ≡ ok s
  unfolding unseal_state
  unseal_state-seal_state calls state manifest secret epoch context count hs h =
      let r = seal_state-Run calls state manifest secret epoch context count h in
      let same = ok-injective (sym r.is_state ∙ hs) in
      rw
        (
          r.is_manifest,
          r.is_context,
          r.is_epoch,
          parse-Sealed _ _ r.s r.m.memh secret r.e r.c r.made,
        )
        (open-Sealed _ _ r.s r.m.memh secret r.e r.c r.made ∙ ap ok same)

  -- An envelope that `seal_state` returned is 85 bytes longer than the state, with primitives as
  -- documented.
  pub length-seal_state :
      (calls : ℕ) (state manifest secret epoch context count : Value) {sealed s : Bytes} {after : ℕ}
      → require_state state ≡ ok s
      → seal_state p calls state manifest secret epoch context count ≡ ok (sealed, after)
      → length sealed ≡ length s + 85
  length-seal_state calls state manifest secret epoch context count hs h =
      let r = seal_state-Run calls state manifest secret epoch context count h in
      let q = r.made in
      omega (
        arith,
        ap length (ok-injective (sym r.is_state ∙ hs)),
        ap length q.layout,
        length-envelope _ _ q.km.commitment q.sized q.ciphertext,
        d.length-encrypt q.km.k_enc _ r.s q.associated q.ciphertext q.encrypted,
      )
