-- ===== src/Manifest/Environment.antt =====
-- The environment that the canonical bytes of sce/core.py's `ModelManifest` stand for.
use mathlib.Core.List.{Permᴰ}
use sce.Base.{◌≡◌, sym, ◌∙◌, ap, [], map, ◌++◌, append-cut, refl}
use sce.Error.{ok, >>=-eq-ok}
use sce.Value.{Bytes, ManifestFields, str}
use sce.Library.{Primitives, Documented}
use sce.Manifest.{manifest_tag, enc_str, check_keys, enc_extra, canonical_bytes}
use sce.Manifest.Normal.{normal_entry, normalise, check_keys-map, canonical_bytes-normalise}
use sce.Manifest.Canonical.{enc_str-cut, enc_extra-cut, enc_extra-perm}

-- The same texts up to NFC, and the same entries up to NFC and order.
pub record SameEnvironment (p : Primitives) (m n : ManifestFields) : Type 0 where
  pub weights_hash : p.nfc m.weights_hash ≡ p.nfc n.weights_hash
  pub quantization : p.nfc m.quantization ≡ p.nfc n.quantization
  pub kernel_build_id : p.nfc m.kernel_build_id ≡ p.nfc n.kernel_build_id
  pub tensor_parallel : p.nfc m.tensor_parallel ≡ p.nfc n.tensor_parallel
  pub numerics_mode : p.nfc m.numerics_mode ≡ p.nfc n.numerics_mode
  pub extra : Permᴰ (map (normal_entry p) m.extra) (map (normal_entry p) n.extra)

module _ (p : Primitives) where
  -- The parts of a canonical encoding.
  record Parts (m : ManifestFields) (b : Bytes) : Type 0 where
    w : Bytes
    q : Bytes
    k : Bytes
    t : Bytes
    n : Bytes
    x : Bytes
    w_eq : enc_str p "weights_hash" (str m.weights_hash) ≡ ok w
    q_eq : enc_str p "quantization" (str m.quantization) ≡ ok q
    k_eq : enc_str p "kernel_build_id" (str m.kernel_build_id) ≡ ok k
    t_eq : enc_str p "tensor_parallel" (str m.tensor_parallel) ≡ ok t
    n_eq : enc_str p "numerics_mode" (str m.numerics_mode) ≡ ok n
    x_eq : enc_extra p m.extra ≡ ok x
    whole : b ≡ manifest_tag ++ (w ++ (q ++ (k ++ (t ++ (n ++ x)))))

  parts : (m : ManifestFields) {b : Bytes} → canonical_bytes p m ≡ ok b → Parts m b
  unfolding canonical_bytes
  parts m h =
      let (w, hw, h₁) = >>=-eq-ok (enc_str p "weights_hash" (str m.weights_hash)) _ h in
      let (q, hq, h₂) = >>=-eq-ok (enc_str p "quantization" (str m.quantization)) _ h₁ in
      let (k, hk, h₃) = >>=-eq-ok (enc_str p "kernel_build_id" (str m.kernel_build_id)) _ h₂ in
      let (t, ht, h₄) = >>=-eq-ok (enc_str p "tensor_parallel" (str m.tensor_parallel)) _ h₃ in
      let (n, hn, h₅) = >>=-eq-ok (enc_str p "numerics_mode" (str m.numerics_mode)) _ h₄ in
      let (x, hx, h₆) = >>=-eq-ok (enc_extra p m.extra) _ h₅ in
      record {
        w = w;
        q = q;
        k = k;
        t = t;
        n = n;
        x = x;
        w_eq = hw;
        q_eq = hq;
        k_eq = hk;
        t_eq = ht;
        n_eq = hn;
        x_eq = hx;
        whole = cc;
      }

  whole : (m : ManifestFields) {b : Bytes} → Parts m b → canonical_bytes p m ≡ ok b
  unfolding canonical_bytes
  whole m s = rw (s.w_eq, s.q_eq, s.k_eq, s.t_eq, s.n_eq, s.x_eq, s.whole)

  -- Manifests with the same canonical bytes describe the same environment: their five core fields
  -- have the same normal forms, and their extra entries are the same up to normal form and order.
  pub canonical_bytes-injective :
      (m n : ManifestFields) {b : Bytes}
      → canonical_bytes p m ≡ ok b
      → canonical_bytes p n ≡ ok b
      → SameEnvironment p m n
  canonical_bytes-injective m n hm hn =
      let s = parts m hm in
      let r = parts n hn in
      let tag = append-cut manifest_tag manifest_tag refl (sym s.whole ∙ r.whole) in
      let w = enc_str-cut p _ _ m.weights_hash n.weights_hash s.w_eq r.w_eq tag.1 in
      let q = enc_str-cut p _ _ m.quantization n.quantization s.q_eq r.q_eq w.1 in
      let k = enc_str-cut p _ _ m.kernel_build_id n.kernel_build_id s.k_eq r.k_eq q.1 in
      let t = enc_str-cut p _ _ m.tensor_parallel n.tensor_parallel s.t_eq r.t_eq k.1 in
      let u = enc_str-cut p _ _ m.numerics_mode n.numerics_mode s.n_eq r.n_eq t.1 in
      record {
        weights_hash = w.0;
        quantization = q.0;
        kernel_build_id = k.0;
        tensor_parallel = t.0;
        numerics_mode = u.0;
        extra = enc_extra-cut p m.extra n.extra s.x_eq (r.x_eq ∙ ap ok (sym u.1));
      }

  normalise-same :
      (m n : ManifestFields) {b : Bytes}
      → SameEnvironment p m n
      → check_keys p [] (normalise p m).extra ≡ ok tt
      → canonical_bytes p (normalise p m) ≡ ok b
      → canonical_bytes p (normalise p n) ≡ ok b
  normalise-same m n e hk h =
      let s = parts (normalise p m) h in
      whole (normalise p n) (record {
        w = s.w;
        q = s.q;
        k = s.k;
        t = s.t;
        n = s.n;
        x = s.x;
        w_eq = rw (← e.weights_hash) s.w_eq;
        q_eq = rw (← e.quantization) s.q_eq;
        k_eq = rw (← e.kernel_build_id) s.k_eq;
        t_eq = rw (← e.tensor_parallel) s.t_eq;
        n_eq = rw (← e.numerics_mode) s.n_eq;
        x_eq = enc_extra-perm p (normalise p m).extra (normalise p n).extra e.extra hk s.x_eq;
        whole = s.whole;
      })

  -- A manifest for the same environment as one with canonical bytes, whose extra keys do not
  -- collide, has the same canonical bytes, if the normal form is idempotent as documented.
  pub canonical_bytes-same :
      Documented p
      → (m n : ManifestFields) {b : Bytes} → SameEnvironment p m n
      → check_keys p [] m.extra ≡ ok tt
      → canonical_bytes p m ≡ ok b
      → canonical_bytes p n ≡ ok b
  canonical_bytes-same d m n e hk h =
      sym (canonical_bytes-normalise p d n)
      ∙ normalise-same m n e (check_keys-map p d [] m.extra hk)
          (canonical_bytes-normalise p d m ∙ h)
