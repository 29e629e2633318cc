-- ===== src/Tests/Manifest.antt =====
-- Runs of the manifest model of sce/core.py, and the theorems about it at these runs.
use mathlib.Core.List.{Permᴰ}
use sce.Base.{true, ◌≡◌, ◌⊎◌, ◌≢◌, refl, List, [], ◌∷◌, ◌++◌, arith, length, list_eq, codes}
use sce.Error.{ok, raise, sce_error, extra_keys_collide, unicode_encode_error}
use sce.Value.{Bytes, Text, ManifestFields, ModelManifest, str, mapping}
use sce.Bytes.{big_endian, to_bytes}
use sce.Utf8.{utf8}
use sce.Manifest.{
  mem_text, require_str, str_items, require_items, bytes_ltb, sort_entries, enc_str, check_keys,
  key_entries, enc_entries, enc_keyed, enc_extra, canonical_bytes, freeze, new_manifest, items_of,
  rebuild,
}
use sce.Manifest.Environment.{SameEnvironment, canonical_bytes-injective, canonical_bytes-same}
use sce.Manifest.Collide.{keys_of}
use sce.Manifest.Construct.{
  Constructed, new_manifest-Constructed, IsManifest, rebuild-IsManifest, new_manifest-collide,
  memh-injective, new_manifest-surrogate,
}
use sce.Manifest.Equality.{items_in, mapping_eq, manifest_eq, manifest_hash}
use sce.Manifest.Equality.Hash.{manifest_eq-manifest_hash}
use sce.Tests.{toy, toy-Documented}

abbrev pub lora : Text × Text
lora = (codes "lora", codes "a1")

abbrev pub rope : Text × Text
rope = (codes "rope", codes "x2")

abbrev pub fields_with : List (Text × Text) → ManifestFields
fields_with extra = record {
  weights_hash = codes "w1";
  quantization = codes "bf16";
  kernel_build_id = codes "k";
  tensor_parallel = codes "tp=1";
  numerics_mode = codes "bf16";
  extra = extra;
}

abbrev field : Text → Bytes
field s = 0 ∷ 0 ∷ 0 ∷ length s ∷ s

-- The canonical bytes, written out.
abbrev pub known_bytes : Bytes
known_bytes =
    codes "SCEMAN1"
    ++ (field (codes "w1")
        ++ (field (codes "bf16")
            ++ (field (codes "k")
                ++ (field (codes "tp=1")
                    ++ (field (codes "bf16")
                        ++ (0
                            ∷ 0
                            ∷ 0
                            ∷ 2
                            ∷ (field (codes "lora")
                                ++ (field (codes "a1")
                                    ++ (field (codes "rope") ++ field (codes "x2"))))))))))

abbrev pub manifest_with : List (Text × Text) → ModelManifest
manifest_with extra = record { fields = fields_with extra; memh = toy.sha3_256 known_bytes }

pub canonical_in_order : canonical_bytes toy (fields_with (lora ∷ rope ∷ [])) ≡ ok known_bytes
unfolding canonical_bytes enc_str utf8 to_bytes big_endian enc_extra key_entries enc_keyed
    sort_entries enc_entries bytes_ltb
canonical_in_order = refl

pub canonical_swapped : canonical_bytes toy (fields_with (rope ∷ lora ∷ [])) ≡ ok known_bytes
unfolding canonical_bytes enc_str utf8 to_bytes big_endian enc_extra key_entries enc_keyed
    sort_entries enc_entries bytes_ltb
canonical_swapped = refl

pub keys_in_order : check_keys toy [] (lora ∷ rope ∷ []) ≡ ok tt
unfolding check_keys list_eq
keys_in_order = refl

pub keys_swapped : check_keys toy [] (rope ∷ lora ∷ []) ≡ ok tt
unfolding check_keys list_eq
keys_swapped = refl

abbrev pub valid_in_order : IsManifest toy (manifest_with (lora ∷ rope ∷ []))
valid_in_order = record {
  bytes = known_bytes;
  keys = keys_in_order;
  canonical = canonical_in_order;
  fingerprint = refl;
}

abbrev pub valid_swapped : IsManifest toy (manifest_with (rope ∷ lora ∷ []))
valid_swapped = record {
  bytes = known_bytes;
  keys = keys_swapped;
  canonical = canonical_swapped;
  fingerprint = refl;
}

pub same_environment :
    SameEnvironment toy (fields_with (lora ∷ rope ∷ [])) (fields_with (rope ∷ lora ∷ []))
same_environment = record {
  weights_hash = refl;
  quantization = refl;
  kernel_build_id = refl;
  tensor_parallel = refl;
  numerics_mode = refl;
  extra = Permᴰ.swap refl refl;
}

new_manifest_run :
    new_manifest toy
      (str (codes "w1"))
      (str (codes "bf16"))
      (str (codes "k"))
      (str (codes "tp=1"))
      (str (codes "bf16"))
      (mapping (items_of (lora ∷ rope ∷ [])))
    ≡ ok (manifest_with (lora ∷ rope ∷ []))
unfolding new_manifest require_str require_items str_items items_of freeze check_keys list_eq
    canonical_bytes enc_str utf8 to_bytes big_endian enc_extra key_entries enc_keyed sort_entries
    enc_entries bytes_ltb
new_manifest_run = refl

canonical_bytes-injective_example :
    SameEnvironment toy (fields_with (lora ∷ rope ∷ [])) (fields_with (rope ∷ lora ∷ []))
canonical_bytes-injective_example =
    canonical_bytes-injective toy (fields_with (lora ∷ rope ∷ [])) (fields_with (rope ∷ lora ∷ []))
      canonical_in_order canonical_swapped

canonical_bytes-same_example : canonical_bytes toy (fields_with (rope ∷ lora ∷ [])) ≡ ok known_bytes
canonical_bytes-same_example =
    canonical_bytes-same toy toy-Documented (fields_with (lora ∷ rope ∷ []))
      (fields_with (rope ∷ lora ∷ [])) same_environment keys_in_order canonical_in_order

memh-injective_example :
    SameEnvironment toy (fields_with (lora ∷ rope ∷ [])) (fields_with (rope ∷ lora ∷ []))
    ⊎ ((known_bytes ≢ known_bytes) × (toy.sha3_256 known_bytes ≡ toy.sha3_256 known_bytes))
memh-injective_example =
    memh-injective toy (manifest_with (lora ∷ rope ∷ [])) (manifest_with (rope ∷ lora ∷ []))
      valid_in_order valid_swapped refl

rebuild-IsManifest_example :
    rebuild toy (manifest_with (lora ∷ rope ∷ [])) ≡ ok (manifest_with (lora ∷ rope ∷ []))
rebuild-IsManifest_example =
    rebuild-IsManifest toy (manifest_with (lora ∷ rope ∷ [])) valid_in_order

new_manifest-Constructed_example :
    Constructed toy
      (str (codes "w1"))
      (str (codes "bf16"))
      (str (codes "k"))
      (str (codes "tp=1"))
      (str (codes "bf16"))
      (mapping (items_of (lora ∷ rope ∷ [])))
      (manifest_with (lora ∷ rope ∷ []))
new_manifest-Constructed_example =
    new_manifest-Constructed toy (str (codes "w1")) (str (codes "bf16")) (str (codes "k"))
      (str (codes "tp=1")) (str (codes "bf16")) (mapping (items_of (lora ∷ rope ∷ [])))
      new_manifest_run

new_manifest-collide_example :
    (key : Text) × (mem_text key (keys_of (lora ∷ rope ∷ lora ∷ [])) ≡ true)
    × (new_manifest toy
          (str [])
          (str [])
          (str [])
          (str [])
          (str [])
          (mapping (items_of (lora ∷ rope ∷ lora ∷ [])))
        ≡ raise (sce_error (extra_keys_collide key)))
new_manifest-collide_example =
    new_manifest-collide toy [] [] [] [] [] [] (rope ∷ []) [] (codes "lora") (codes "a1")
      (codes "lora") (codes "a1") refl

new_manifest-surrogate_example :
    new_manifest toy
      (str (97 ∷ 0xd800 ∷ []))
      (str [])
      (str [])
      (str [])
      (str [])
      (mapping (items_of []))
    ≡ raise unicode_encode_error
new_manifest-surrogate_example =
    new_manifest-surrogate toy (97 ∷ 0xd800 ∷ []) [] [] [] [] [] (97 ∷ []) [] 0xd800 refl
      (omega arith) (unfold check_keys in refl)

equal_run : manifest_eq (manifest_with (lora ∷ rope ∷ [])) (manifest_with (rope ∷ lora ∷ [])) ≡ true
unfolding manifest_eq mapping_eq items_in list_eq
equal_run = refl

manifest_eq-manifest_hash_example :
    ((manifest_with (lora ∷ rope ∷ [])).memh ≡ (manifest_with (rope ∷ lora ∷ [])).memh)
    × (manifest_hash length (manifest_with (lora ∷ rope ∷ []))
        ≡ manifest_hash length (manifest_with (rope ∷ lora ∷ [])))
manifest_eq-manifest_hash_example =
    manifest_eq-manifest_hash toy toy-Documented length (manifest_with (lora ∷ rope ∷ []))
      (manifest_with (rope ∷ lora ∷ [])) valid_in_order valid_swapped equal_run
