-- ===== src/Keys/Binding.antt =====
-- Two key derivations of sce/core.py with one commitment.
use sce.Base.{
  ℕ, ◌≡◌, ◌≢◌, ◌⊎◌, inl, inr, refl, sym, ◌∙◌, ap, ◌++◌, drop, list_eq-cases, append-cut, codes,
}
use sce.Error.{ok}
use sce.Value.{Bytes, Value}
use sce.Library.{Primitives}
use sce.Keys.{
  key_len, domain, kdf_canonical, require_secret, KeyMaterial, commit, derive_key_material,
}
use sce.Keys.Derive.{material, derive_key_material-eq-ok, kdf_canonical-injective}

-- Two distinct byte strings with one SHA3-256 hash.
abbrev pub Collision : Primitives → Bytes → Bytes → Type 0
Collision p x y = (x ≢ y) × (p.sha3_256 x ≡ p.sha3_256 y)

-- The half of the key material that the commitment is made from, for a secret and the canonical
-- bytes of the derivation.
abbrev pub committed_half : Primitives → Bytes → Bytes → Bytes → Bytes
committed_half p salt s x = drop key_len (material p salt s x)

-- A break of a primitive, at inputs that two derivations with one salt have computed: a collision
-- of SHA3-256 on the canonical bytes or on what the commitments hash, or two secrets and infos
-- that are not the same from which HKDF derives the same half.
pub data Break (p : Primitives) (salt s x t y : Bytes) : Type 0 where
  canonical_collision : Collision p x y → Break p salt s x t y
  commit_collision :
      Collision p
        (domain ++ (codes "|commit|" ++ committed_half p salt s x))
        (domain ++ (codes "|commit|" ++ committed_half p salt t y))
      → Break p salt s x t y
  hkdf_collision :
      (s ≢ t) ⊎ (p.sha3_256 x ≢ p.sha3_256 y)
      → committed_half p salt s x ≡ committed_half p salt t y
      → Break p salt s x t y

module _ (p : Primitives) where
  open p use {sha3_256}

  -- Equal commitments come from equal secrets and equal canonical bytes, or break a primitive.
  commit-binds :
      (salt s x t y : Bytes)
      → commit p (committed_half p salt s x) ≡ commit p (committed_half p salt t y)
      → ((s ≡ t) × (x ≡ y)) ⊎ Break p salt s x t y
  unfolding commit
  commit-binds salt s x t y h =
      let a = committed_half p salt s x in
      let b = committed_half p salt t y in
      elim (list_eq-cases a b) [
        | inr ne ↦ inr (
            commit_collision (
              λ e.
                  ne
                    (append-cut (codes "|commit|") (codes "|commit|") refl
                      (append-cut domain domain refl e).1).1,
              h,
            ))
        | inl same ↦ elim (list_eq-cases s t) [
          | inr ne ↦ inr (hkdf_collision (inl ne) same)
          | inl eq ↦ elim (list_eq-cases (sha3_256 x) (sha3_256 y)) [
            | inr ne ↦ inr (hkdf_collision (inr ne) same)
            | inl hash ↦ elim (list_eq-cases x y) [
              | inr ne ↦ inr (canonical_collision (ne, hash))
              | inl xy ↦ inl (eq, xy)
            ]
          ]
        ]
      ]

  -- Two derivations that returned the same commitment for one salt had the same secret, context,
  -- epoch and fingerprint, or the inputs they computed break a primitive.
  pub commitment-binds :
      (v : Value) (m : Bytes) (e : ℕ) (c : Bytes) (v' : Value) (m' : Bytes) (e' : ℕ) (c' : Bytes)
      (salt : Bytes) {km km' : KeyMaterial}
      → derive_key_material p v m e c salt ≡ ok km
      → derive_key_material p v' m' e' c' salt ≡ ok km'
      → km.commitment ≡ km'.commitment
      → ((require_secret v ≡ require_secret v') × (c ≡ c') × (e ≡ e') × (m ≡ m'))
        ⊎ ((s : Bytes) × (x : Bytes) × (t : Bytes) × (y : Bytes) × (require_secret v ≡ ok s)
            × (kdf_canonical c e m ≡ ok x)
            × (require_secret v' ≡ ok t)
            × (kdf_canonical c' e' m' ≡ ok y)
            × Break p salt s x t y)
  commitment-binds v m e c v' m' e' c' salt h h' same =
      let (s, x, hs, hx, k) = derive_key_material-eq-ok p v m e c salt h in
      let (t, y, ht, hy, k') = derive_key_material-eq-ok p v' m' e' c' salt h' in
      elim (commit-binds salt s x t y (
        sym (ap (λ (z : KeyMaterial). z.commitment) k)
        ∙ same
        ∙ ap (λ (z : KeyMaterial). z.commitment) k')) [
          | inr broken ↦ inr (s, x, t, y, hs, hx, ht, hy, broken)
          | inl (st, xy) ↦
              let same_inputs = kdf_canonical-injective c e m c' e' m' (hx ∙ ap ok xy) hy in
              inl (hs ∙ ap ok st ∙ sym ht, same_inputs.0, same_inputs.1, same_inputs.2)
        ]
