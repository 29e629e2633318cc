-- ===== src/Manifest/Construct.antt =====
-- The constructor of `ModelManifest` and its pickling in sce/core.py.
use sce.Base.{
  length, ℕ, String, ◌≡◌, refl, sym, ◌∙◌, ap, true, List, [], ◌∷◌, ◌++◌, arith, ◌⊎◌, inl, inr,
  list_eq-cases, ◌≢◌,
}
use sce.Error.{
  ok-injective, Result, ok, raise, >>=-eq-ok, sce_error, extra_keys_collide, unicode_encode_error,
}
use sce.Value.{Items, item, Bytes, Text, Value, ManifestFields, ModelManifest, str, mapping, nil}
use sce.Utf8.{IsSurrogate, utf8-surrogate}
use sce.Library.{Primitives, Documented}
use sce.Manifest.{
  require_str, str_items, require_items, mem_text, enc_str, check_keys, canonical_bytes, items_of,
  freeze, new_manifest, rebuild,
}
use sce.Manifest.Collide.{keys_of, check_keys-collide}
use sce.Manifest.Environment.{SameEnvironment, canonical_bytes-injective, canonical_bytes-same}

str_items-items_of : (l : List (Text × Text)) → str_items (items_of l) ≡ ok l
unfolding str_items items_of
str_items-items_of [] = refl
str_items-items_of ((k, v) ∷ l) = rw (str_items-items_of l)

require_str-eq-ok : (name : String) (v : Value) {s : Text} → require_str name v ≡ ok s → v ≡ str s
unfolding require_str
require_str-eq-ok name v h = ground arith

str_items-eq-ok : (i : Items) {l : List (Text × Text)} → str_items i ≡ ok l → i ≡ items_of l
unfolding str_items items_of
str_items-eq-ok nil h = ap items_of (ok-injective h)
str_items-eq-ok (item (str k) (str v) rest) h =
    let (more, hm, e) = >>=-eq-ok (str_items rest) _ h in
    ap (item (str k) (str v)) (str_items-eq-ok rest hm) ∙ ap items_of (ok-injective e)
str_items-eq-ok (item k v rest) h = ground arith

require_items-eq-ok :
    (v : Value) {l : List (Text × Text)} → require_items v ≡ ok l → v ≡ mapping (items_of l)
unfolding require_items
require_items-eq-ok (mapping i) h = ap mapping (str_items-eq-ok i h)
require_items-eq-ok v h = ground arith

module _ (p : Primitives) where
  open p use {nfc, sha3_256}

  -- What the constructor establishes: no key of `extra` collides with another, the manifest has
  -- canonical bytes, and the cached fingerprint is their hash.
  pub record IsManifest (m : ModelManifest) : Type 0 where
    pub bytes : Bytes
    pub keys : check_keys p [] m.extra ≡ ok tt
    pub canonical : canonical_bytes p m.fields ≡ ok bytes
    pub fingerprint : m.memh ≡ sha3_256 bytes

  pub length-memh : Documented p → (m : ModelManifest) → IsManifest m → length m.memh ≡ 32
  length-memh d m v = ap length v.fingerprint ∙ d.length-sha3_256 v.bytes

  freeze-IsManifest :
      (f : ManifestFields) {m : ModelManifest} → freeze p f ≡ ok m → (m.fields ≡ f) × IsManifest m
  unfolding freeze
  freeze-IsManifest f {m} h =
      let (u, hu, h₁) = >>=-eq-ok (check_keys p [] f.extra) _ h in
      let (b, hb, e) = >>=-eq-ok (canonical_bytes p f) _ h₁ in
      let built : record { fields = f; memh = sha3_256 b } ≡ m = cc in
      rw (← built) (refl, record { bytes = b; keys = hu; canonical = hb; fingerprint = refl })

  -- The arguments that a manifest was constructed from: texts, and a mapping of texts to texts, all
  -- of which it keeps, in their order.
  pub record Constructed (w q k t n x : Value) (m : ModelManifest) : Type 0 where
    pub weights_hash : w ≡ str m.weights_hash
    pub quantization : q ≡ str m.quantization
    pub kernel_build_id : k ≡ str m.kernel_build_id
    pub tensor_parallel : t ≡ str m.tensor_parallel
    pub numerics_mode : n ≡ str m.numerics_mode
    pub extra : x ≡ mapping (items_of m.extra)
    pub formed : IsManifest m

  -- What the constructor returns was constructed from its arguments: they are texts and a mapping of
  -- texts to texts, all of which are kept, in their order, its keys do not collide, it has canonical
  -- bytes, and their hash is the fingerprint.
  pub new_manifest-Constructed :
      (w q k t n x : Value) {m : ModelManifest}
      → new_manifest p w q k t n x ≡ ok m
      → Constructed w q k t n x m
  unfolding new_manifest
  new_manifest-Constructed w q k t n x {m} h =
      let (w', hw, h₁) = >>=-eq-ok (require_str "weights_hash" w) _ h in
      let (q', hq, h₂) = >>=-eq-ok (require_str "quantization" q) _ h₁ in
      let (k', hk, h₃) = >>=-eq-ok (require_str "kernel_build_id" k) _ h₂ in
      let (t', ht, h₄) = >>=-eq-ok (require_str "tensor_parallel" t) _ h₃ in
      let (n', hn, h₅) = >>=-eq-ok (require_str "numerics_mode" n) _ h₄ in
      let (x', hx, h₆) = >>=-eq-ok (require_items x) _ h₅ in
      let (kept, formed) = freeze-IsManifest _ h₆ in
      record {
        weights_hash = require_str-eq-ok _ w hw ∙ ap (λ f. str f.weights_hash) (sym kept);
        quantization = require_str-eq-ok _ q hq ∙ ap (λ f. str f.quantization) (sym kept);
        kernel_build_id = require_str-eq-ok _ k hk ∙ ap (λ f. str f.kernel_build_id) (sym kept);
        tensor_parallel = require_str-eq-ok _ t ht ∙ ap (λ f. str f.tensor_parallel) (sym kept);
        numerics_mode = require_str-eq-ok _ n hn ∙ ap (λ f. str f.numerics_mode) (sym kept);
        extra = require_items-eq-ok x hx ∙ ap (λ f. mapping (items_of f.extra)) (sym kept);
        formed = formed;
      }

  pub new_manifest-IsManifest :
      (w q k t n x : Value) {m : ModelManifest} → new_manifest p w q k t n x ≡ ok m → IsManifest m
  new_manifest-IsManifest w q k t n x h = (new_manifest-Constructed w q k t n x h).formed

  -- A manifest built from texts has these fields.
  pub new_manifest-fields :
      (w q k t n : Text) {m : ModelManifest}
      → new_manifest p (str w) (str q) (str k) (str t) (str n) (mapping nil) ≡ ok m
      → m.fields ≡ record {
        weights_hash = w;
        quantization = q;
        kernel_build_id = k;
        tensor_parallel = t;
        numerics_mode = n;
        extra = [];
      }
  unfolding new_manifest require_str require_items str_items
  new_manifest-fields w q k t n h = (freeze-IsManifest _ h).0

  freeze-ok : (m : ModelManifest) → IsManifest m → freeze p m.fields ≡ ok m
  unfolding freeze
  freeze-ok m v =
      rw (v.keys, v.canonical)
        (ap {B = Result ModelManifest} (λ h. ok (record m { memh = h })) (sym v.fingerprint))

  -- Rebuilding a constructed manifest from its pickled form gives the same manifest.
  pub rebuild-IsManifest : (m : ModelManifest) → IsManifest m → rebuild p m ≡ ok m
  unfolding rebuild new_manifest require_str require_items
  rebuild-IsManifest m v = rw (str_items-items_of m.extra) (freeze-ok m v)

  -- A manifest of texts is refused with the message on collisions, which names the key of an entry,
  -- when two entries of `extra`, wherever they stand, have keys with the same normal form.
  pub new_manifest-collide :
      (w q k t n : Text) (a b c : List (Text × Text)) (i u j v : Text)
      → nfc i ≡ nfc j
      → (key : Text) × (mem_text key (keys_of (a ++ ((i, u) ∷ (b ++ ((j, v) ∷ c))))) ≡ true)
        × (new_manifest p
              (str w)
              (str q)
              (str k)
              (str t)
              (str n)
              (mapping (items_of (a ++ ((i, u) ∷ (b ++ ((j, v) ∷ c))))))
            ≡ raise (sce_error (extra_keys_collide key)))
  unfolding new_manifest require_str require_items freeze
  new_manifest-collide w q k t n a b c i u j v e =
      let (key, named, run) = check_keys-collide p [] a b c i u j v e in
      (key, named, rw (str_items-items_of (a ++ ((i, u) ∷ (b ++ ((j, v) ∷ c)))), run))

  -- Constructed manifests that describe the same environment, up to normal form and the order of
  -- `extra`, have the same fingerprint, if the normal form is idempotent as documented.
  pub memh-SameEnvironment :
      Documented p
      → (m n : ModelManifest) → IsManifest m
      → IsManifest n
      → SameEnvironment p m.fields n.fields
      → m.memh ≡ n.memh
  memh-SameEnvironment d m n vm vn e =
      let same = canonical_bytes-same p d m.fields n.fields e vm.keys vm.canonical in
      let bytes : vm.bytes ≡ vn.bytes = cc (same, vn.canonical) in
      vm.fingerprint ∙ ap sha3_256 bytes ∙ sym vn.fingerprint

  -- Two constructed manifests with equal fingerprints describe the same environment, or their
  -- canonical bytes differ and collide under SHA3-256.
  pub memh-injective :
      (m n : ModelManifest) (vm : IsManifest m) (vn : IsManifest n)
      → m.memh ≡ n.memh
      → SameEnvironment p m.fields n.fields
        ⊎ ((vm.bytes ≢ vn.bytes) × (sha3_256 vm.bytes ≡ sha3_256 vn.bytes))
  memh-injective m n vm vn h = elim (list_eq-cases vm.bytes vn.bytes) [
    | inl e ↦
        inl (
          canonical_bytes-injective p m.fields n.fields vm.canonical (vn.canonical ∙ ap ok (sym e)))
    | inr ne ↦ inr (ne, sym vm.fingerprint ∙ h ∙ vn.fingerprint)
  ]

  -- If the normal form of `weights_hash` has a surrogate, the other core fields being texts and
  -- the keys of `extra` free of collisions, the constructor raises a raw UnicodeEncodeError.
  pub new_manifest-surrogate :
      (w q k t n : Text) (l : List (Text × Text)) (s r : Text) (c : ℕ)
      → nfc w ≡ s ++ c ∷ r
      → IsSurrogate c
      → check_keys p [] l ≡ ok tt
      → new_manifest p (str w) (str q) (str k) (str t) (str n) (mapping (items_of l))
        ≡ raise unicode_encode_error
  unfolding new_manifest require_str require_items freeze canonical_bytes enc_str
  new_manifest-surrogate w q k t n l s r c e h hk =
      rw (str_items-items_of l, hk, e, utf8-surrogate s r c h)
