-- ===== src/Seal/Authentic.antt =====
-- Strings that `unseal_state` of sce/core.py opens in place of an envelope that was sealed.
use sce.Base.{
  ℕ, ◌+◌, ◌≡◌, refl, sym, ◌∙◌, ap, ◌⊎◌, inl, inr, ◌++◌, length, codes, append-cut, list_eq-cases,
}
use mathlib.Core.Path.{subst, ap₂}
use sce.Error.{ok, >>=-eq-ok, ok-injective}
use sce.Value.{Bytes, Value, ModelManifest, bytes, model_manifest}
use sce.Bytes.{IsBytes, to_bytes, big_endian}
use sce.Library.{Primitives, Documented}
use sce.Manifest.{require_manifest}
use sce.Keys.{domain, aad, check_epoch}
use sce.Envelope.{Parsed, parse, parse_bytes, require_envelope_bytes}
use sce.Envelope.Layout.{header, envelope, length-header}
use sce.Envelope.Accepts.{IsEnvelope, parse_bytes-IsEnvelope}
use sce.Seal.{require_state, bounded_context, seal_state, unseal_state}
use sce.Seal.Open.{Released, unseal_state-Unsealed}
use sce.Seal.RoundTrip.{Sealed, seal_state-Run, unseal_state-seal_state}

-- Equal associated data was made of the same header.
aad-cut :
    (h g memh : Bytes) (e : ℕ) {a b : Bytes}
    → length h ≡ length g
    → aad h memh e ≡ ok a
    → aad g memh e ≡ ok b
    → a ≡ b
    → h ≡ g
unfolding aad
aad-cut h g memh e n ha hb same =
    let (x, hx, ea) = >>=-eq-ok (to_bytes 8 e) _ ha in
    let (y, hy, eb) = >>=-eq-ok (to_bytes 8 e) _ hb in
    let whole = ok-injective ea ∙ same ∙ sym (ok-injective eb) in
    let rest = append-cut (domain ++ codes "|hdr|") (domain ++ codes "|hdr|") refl whole in
    (append-cut h g n rest.1).0

-- The cipher has accepted a nonce, a ciphertext and associated data, under a key of the secret,
-- that are not those that the seal got from it.
pub record Forgery (p : Primitives) (memh : Bytes) (secret : Value) (epoch : ℕ)
    (context sealed other : Bytes) : Type 0 where
  pub salt : Bytes
  pub nonce : Bytes
  pub state : Bytes
  pub made : Sealed p salt nonce state memh secret epoch context sealed
  pub f : Parsed
  pub t : Bytes
  pub parsed : parse_bytes other ≡ ok f
  pub released : Released p f memh secret epoch context t
  pub fresh : ¬ (
      (nonce ≡ f.nonce)
      × (made.associated ≡ released.associated)
      × (made.ciphertext ≡ f.ciphertext))

parse-bytes : (s : Bytes) {f : Parsed} → parse (bytes s) ≡ ok f → parse_bytes s ≡ ok f
unfolding parse require_envelope_bytes
parse-bytes s h = h

-- What is said of the arguments that a call has read holds of those it was given.
at_arguments :
    (P : Bytes → ℕ → Bytes → Type 0) (m : ModelManifest) (context epoch : Value) {n : ModelManifest}
    {c d : Bytes} {e i : ℕ}
    → bounded_context context ≡ ok c
    → check_epoch epoch ≡ ok e
    → require_manifest (model_manifest m) ≡ ok n
    → bounded_context context ≡ ok d
    → check_epoch epoch ≡ ok i
    → P n.memh i d
    → P m.memh e c
unfolding require_manifest
at_arguments P m context epoch {n} {c} {d} {e} {i} hc he hm hd hi k =
    let same : _ ≡ m = sym (ok-injective hm) in
    subst (λ c. P m.memh e c) (ok-injective (sym hd ∙ hc))
      (subst (λ e. P m.memh e d) (ok-injective (sym hi ∙ he))
        (subst (λ (n : ModelManifest). P n.memh i d) same k))

module _ (p : Primitives) where
  -- An envelope with the nonce, the ciphertext and the associated data of a seal is the sealed one.
  same_envelope :
      (salt nonce state memh : Bytes) (secret : Value) (e : ℕ) (c : Bytes) {sealed other : Bytes}
      {f : Parsed} {t : Bytes} (q : Sealed p salt nonce state memh secret e c sealed)
      → IsEnvelope other f
      → (r : Released p f memh secret e c t) → q.associated ≡ r.associated
      → q.ciphertext ≡ f.ciphertext
      → other ≡ sealed
  unfolding envelope
  same_envelope salt nonce state memh secret e c {f = f} q z r ea ec =
      let whole : f.prefix ≡ header f.nonce f.salt f.commitment =
        ap (λ (g : Parsed). g.prefix) z.fields in
      let bound = (λ i. aad (sym whole i) memh e) ∙ r.bound in
      let heads =
        aad-cut (header nonce salt q.km.commitment) (header f.nonce f.salt f.commitment) memh e
          (length-header nonce salt q.km.commitment q.sized
            ∙ sym (length-header f.nonce f.salt f.commitment z.sized))
          q.bound bound ea in
      z.layout
      ∙ ap₂ (λ h b. h ++ (big_endian 4 (length b) ++ b)) (sym heads) (sym ec)
      ∙ sym q.layout

  -- A string of bytes that opens under the manifest, secret, epoch and context that an envelope was
  -- sealed with is that envelope, and opens to the sealed state, or the cipher has accepted a
  -- forgery: a nonce, a ciphertext and associated data that are not those of the seal, with
  -- primitives as documented.
  pub unseal_state-authentic :
      Documented p
      → (calls : ℕ) (state secret epoch context count : Value) (m : ModelManifest)
        (sealed other : Bytes) {c : Bytes} {e after : ℕ} {t : Bytes}
      → bounded_context context ≡ ok c
      → check_epoch epoch ≡ ok e
      → IsBytes other
      → seal_state p calls state (model_manifest m) secret epoch context count ≡ ok (sealed, after)
      → unseal_state p (bytes other) (model_manifest m) secret epoch context ≡ ok t
      → ((other ≡ sealed) × (require_state state ≡ ok t)) ⊎ Forgery p m.memh secret e c sealed other
  unseal_state-authentic d calls state secret epoch context count m sealed other {c} {e} {t = t} hc
        he valid run opens =
      let r = seal_state-Run p d calls state (model_manifest m) secret epoch context count run in
      let x = unseal_state-Unsealed p (bytes other) (model_manifest m) secret epoch context opens in
      let parsed = parse-bytes other x.parsed in
      let made : Sealed p (p.urandom calls 16) (p.urandom (calls + 1) 12) r.s m.memh secret e c
          sealed =
        at_arguments
          (λ h i j.
            Sealed p (p.urandom calls 16) (p.urandom (calls + 1) 12) r.s h secret i j sealed)
          m context epoch hc he r.is_manifest r.is_context r.is_epoch r.made in
      let released : Released p x.f m.memh secret e c t =
        at_arguments (λ h i j. Released p x.f h secret i j t) m context epoch hc he x.is_manifest
          x.is_context x.is_epoch x.released in
      elim (list_eq-cases other sealed) [
        | inl same ↦
            let back =
              unseal_state-seal_state p d calls state (model_manifest m) secret epoch context count
                r.is_state run in
            let plain : r.s ≡ t = ok-injective (
              sym back
              ∙ ap (λ b. unseal_state p (bytes b) (model_manifest m) secret epoch context)
                  (sym same)
              ∙ opens) in
            inl (same, r.is_state ∙ ap ok plain)
        | inr differ ↦ inr (record {
          salt = p.urandom calls 16;
          nonce = p.urandom (calls + 1) 12;
          state = r.s;
          made = made;
          f = x.f;
          t = t;
          parsed = parsed;
          released = released;
          fresh = λ triple. differ (
              same_envelope _ _ r.s m.memh secret e c made
                (parse_bytes-IsEnvelope other x.f valid parsed) released triple.1 triple.2);
        })
      ]
