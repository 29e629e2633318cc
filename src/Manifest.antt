-- ===== src/Manifest.antt =====
-- `_enc_str` and `ModelManifest` of sce/core.py: validation, canonical bytes and fingerprint.
pub mod Sort
pub mod Keys
pub mod Normal
pub mod Canonical
pub mod Environment
pub mod Collide
pub mod Construct
pub mod Equality
use sce.Base.{
  String, Bool, true, false, ◌||◌, List, [], ◌∷◌, ◌++◌, map, ltb, list_eq, if◌then◌else◌, length,
  codes,
}
use sce.Error.{
  Result, ok, raise, ◌>>=◌, ◌>>◌, sce_error, field_not_str, field_too_long, field_must_be_str,
  extra_not_mapping, extra_not_str, extra_keys_collide, raise_if, not_a_manifest,
}
use sce.Value.{
  Bytes, Text, Value, Items, ManifestFields, ModelManifest, str, model_manifest, mapping, nil, item,
  type_name,
}
use sce.Bytes.{to_bytes, max_lp_field}
use sce.Utf8.{utf8}
use sce.Library.{Primitives}

-- `_MANIFEST_TAG`
abbrev pub manifest_tag : Bytes
manifest_tag = codes "SCEMAN1"

-- Order of byte strings, as `<` on Python's bytes.
unfoldable pub bytes_ltb : Bytes → Bytes → Bool
bytes_ltb [] [] = false
bytes_ltb [] (y ∷ ys) = true
bytes_ltb (x ∷ xs) [] = false
bytes_ltb (x ∷ xs) (y ∷ ys) = if ltb x y then true else if ltb y x then false else bytes_ltb xs ys

-- An entry of `extra` with its sort key.
abbrev pub Keyed : Type 0
Keyed = Bytes × (Text × Text)

-- Before the first entry whose key is not smaller: the sort is stable.
unfoldable pub insert_entry : Keyed → List Keyed → List Keyed
insert_entry x [] = x ∷ []
insert_entry x (y ∷ l) = if bytes_ltb y.0 x.0 then y ∷ insert_entry x l else x ∷ y ∷ l

-- `sorted(…, key=…)` once the keys are computed
unfoldable pub sort_entries : List Keyed → List Keyed
unfolding insert_entry
sort_entries [] = []
sort_entries (x ∷ l) = insert_entry x (sort_entries l)

-- `isinstance(getattr(self, name), str)` of `__post_init__`
unfoldable pub require_str : String → Value → Result Text
require_str name (str s) = ok s
require_str name v = raise (sce_error (field_must_be_str name))

-- The loop over `extra.items()` that checks the types.
unfoldable pub str_items : Items → Result (List (Text × Text))
str_items nil = ok []
str_items (item (str k) (str v) rest) = do more ← str_items rest; ok ((k, v) ∷ more)
str_items (item k v rest) = raise (sce_error extra_not_str)

unfoldable pub require_items : Value → Result (List (Text × Text))
unfolding str_items
require_items (mapping m) = str_items m
require_items v = raise (sce_error extra_not_mapping)

-- `nk in seen_norm`
unfoldable pub mem_text : Text → List Text → Bool
mem_text t [] = false
mem_text t (s ∷ l) = list_eq t s || mem_text t l

-- `_require_manifest`
unfoldable pub require_manifest : Value → Result ModelManifest
require_manifest (model_manifest m) = ok m
require_manifest v = raise (sce_error (not_a_manifest (type_name v)))

-- `compute_memh`
unfoldable pub compute_memh : Value → Result Bytes
unfolding require_manifest
compute_memh v = do m ← require_manifest v; ok m.memh

-- The mapping that `__reduce__` rebuilds.
unfoldable pub items_of : List (Text × Text) → Items
items_of [] = nil
items_of ((k, v) ∷ rest) = item (str k) (str v) (items_of rest)

module _ (p : Primitives) where
  open p use {nfc, sha3_256}

  -- `_enc_str`
  unfoldable pub enc_str : String → Value → Result Bytes
  enc_str label (str s) = do
    b ← utf8 (nfc s)
    raise_if (ltb max_lp_field (length b)) (sce_error (field_too_long label))
    n ← to_bytes 4 (length b)
    ok (n ++ b)
  enc_str label v = raise (sce_error (field_not_str label (type_name v)))

  -- The loop over `self.extra` that looks for keys that collide, with the normalised keys seen.
  unfoldable pub check_keys : List Text → List (Text × Text) → Result (Unit {0})
  unfolding mem_text
  check_keys seen [] = ok tt
  check_keys seen ((k, v) ∷ rest) =
      if mem_text (nfc k) seen
      then raise (sce_error (extra_keys_collide k))
      else check_keys (nfc k ∷ seen) rest

  -- The sort keys, NFC and UTF-8.
  unfoldable pub key_entries : List (Text × Text) → Result (List Keyed)
  key_entries [] = ok []
  key_entries ((k, v) ∷ rest) = do
    b ← utf8 (nfc k)
    more ← key_entries rest
    ok ((b, (k, v)) ∷ more)

  -- The loop that appends the sorted entries.
  unfoldable pub enc_entries : List (Text × Text) → Result Bytes
  enc_entries [] = ok []
  enc_entries ((k, v) ∷ rest) = do
    a ← enc_str "extra-key" (str k)
    b ← enc_str "extra-value" (str v)
    more ← enc_entries rest
    ok (a ++ b ++ more)

  -- The sorted entries, their count and their encoding.
  unfoldable pub enc_keyed : List Keyed → Result Bytes
  enc_keyed keyed = do
    let items = map (λ (x : Keyed). x.1) (sort_entries keyed)
    n ← to_bytes 4 (length items)
    body ← enc_entries items
    ok (n ++ body)

  -- The part of `canonical_bytes` that encodes `extra`.
  unfoldable pub enc_extra : List (Text × Text) → Result Bytes
  enc_extra extra = do keyed ← key_entries extra; enc_keyed keyed

  -- `canonical_bytes`
  unfoldable pub canonical_bytes : ManifestFields → Result Bytes
  canonical_bytes m = do
    w ← enc_str "weights_hash" (str m.weights_hash)
    q ← enc_str "quantization" (str m.quantization)
    k ← enc_str "kernel_build_id" (str m.kernel_build_id)
    t ← enc_str "tensor_parallel" (str m.tensor_parallel)
    n ← enc_str "numerics_mode" (str m.numerics_mode)
    x ← enc_extra m.extra
    ok (manifest_tag ++ (w ++ (q ++ (k ++ (t ++ (n ++ x))))))

  -- `__post_init__` after the checks of the types: the collision check, then the fingerprint.
  unfoldable pub freeze : ManifestFields → Result ModelManifest
  freeze fields = do
    check_keys [] fields.extra
    b ← canonical_bytes fields
    ok (record { fields = fields; memh = sha3_256 b })

  -- The constructor of the dataclass with `__post_init__`.
  unfoldable pub new_manifest : Value → Value → Value → Value → Value → Value → Result ModelManifest
  new_manifest weights_hash quantization kernel_build_id tensor_parallel numerics_mode extra = do
    w ← require_str "weights_hash" weights_hash
    q ← require_str "quantization" quantization
    k ← require_str "kernel_build_id" kernel_build_id
    t ← require_str "tensor_parallel" tensor_parallel
    n ← require_str "numerics_mode" numerics_mode
    x ← require_items extra
    freeze (record {
      weights_hash = w;
      quantization = q;
      kernel_build_id = k;
      tensor_parallel = t;
      numerics_mode = n;
      extra = x;
    })

  -- `__reduce__` and the call that pickle makes of what it returns
  unfoldable pub rebuild : ModelManifest → Result ModelManifest
  rebuild m =
      new_manifest (str m.weights_hash) (str m.quantization) (str m.kernel_build_id)
        (str m.tensor_parallel) (str m.numerics_mode) (mapping (items_of m.extra))
