-- ===== src/Manifest/Normal.antt =====
-- `canonical_bytes` of sce/core.py and the normal form of a manifest.
use sce.Base.{◌≡◌, refl, false, ap, List, [], ◌∷◌, arith, map, length}
use sce.Error.{Result, ok, raise, ◌>>=◌}
use sce.Value.{Text, ManifestFields, str}
use sce.Library.{Primitives, Documented}
use sce.Manifest.{
  mem_text, Keyed, insert_entry, sort_entries, enc_str, check_keys, key_entries, enc_entries,
  enc_keyed, enc_extra, canonical_bytes,
}

module _ (p : Primitives) where
  open p use {nfc}

  abbrev pub normal_entry : Text × Text → Text × Text
  normal_entry (k, v) = (nfc k, nfc v)

  abbrev pub normal_keyed : Keyed → Keyed
  normal_keyed (b, e) = (b, normal_entry e)

  -- The manifest whose texts are all normalised.
  abbrev pub normalise : ManifestFields → ManifestFields
  normalise m = record {
    weights_hash = nfc m.weights_hash;
    quantization = nfc m.quantization;
    kernel_build_id = nfc m.kernel_build_id;
    tensor_parallel = nfc m.tensor_parallel;
    numerics_mode = nfc m.numerics_mode;
    extra = map normal_entry m.extra;
  }

  insert_entry-map :
      (x : Keyed) (l : List Keyed)
      → insert_entry (normal_keyed x) (map normal_keyed l) ≡ map normal_keyed (insert_entry x l)
  unfolding insert_entry
  insert_entry-map x [] = refl
  insert_entry-map x (y ∷ l) = ground (arith, insert_entry-map x l)

  sort_entries-map :
      (l : List Keyed) → sort_entries (map normal_keyed l) ≡ map normal_keyed (sort_entries l)
  unfolding sort_entries
  sort_entries-map [] = refl
  sort_entries-map (x ∷ l) = rw (sort_entries-map l) (insert_entry-map x (sort_entries l))

  payload-map :
      (l : List Keyed)
      → map (λ (x : Keyed). x.1) (map normal_keyed l)
        ≡ map normal_entry (map (λ (x : Keyed). x.1) l)
  payload-map [] = refl
  payload-map (x ∷ l) = ap (λ r. normal_entry x.1 ∷ r) (payload-map l)

  length-map : (l : List (Text × Text)) → length (map normal_entry l) ≡ length l
  length-map [] = refl
  length-map (x ∷ l) = omega (arith, length-map l)

  module _ (d : Documented p) where
    enc_str-nfc : (label : _) (s : Text) → enc_str p label (str (nfc s)) ≡ enc_str p label (str s)
    unfolding enc_str
    enc_str-nfc label s = rw (d.nfc_idempotent s)

    pub check_keys-map :
        (seen : List Text) (l : List (Text × Text))
        → check_keys p seen l ≡ ok tt
        → check_keys p seen (map normal_entry l) ≡ ok tt
    unfolding check_keys
    check_keys-map seen [] h = refl
    check_keys-map seen ((k, v) ∷ l) h =
        let (new, rest) : (mem_text (nfc k) seen ≡ false)
            × (check_keys p (nfc k ∷ seen) l ≡ ok tt) =
          ground arith in
        rw (d.nfc_idempotent k, new, check_keys-map (nfc k ∷ seen) l rest)

    key_entries-map :
        (l : List (Text × Text))
        → key_entries p (map normal_entry l) ≡ (key_entries p l >>= λ r. ok (map normal_keyed r))
    unfolding key_entries
    key_entries-map [] = refl
    key_entries-map ((k, v) ∷ l) = rw (d.nfc_idempotent k, key_entries-map l) (ground arith)

    enc_entries-map :
        (l : List (Text × Text)) → enc_entries p (map normal_entry l) ≡ enc_entries p l
    unfolding enc_entries
    enc_entries-map [] = refl
    enc_entries-map ((k, v) ∷ l) = rw (enc_str-nfc _ k, enc_str-nfc _ v, enc_entries-map l)

    after :
        (r : Result (List Keyed))
        → ((r >>= λ r. ok (map normal_keyed r)) >>= enc_keyed p) ≡ (r >>= enc_keyed p)
    unfolding enc_keyed
    after (raise e) = refl
    after (ok r) =
        rw
          (
            sort_entries-map r,
            payload-map (sort_entries r),
            length-map (map (λ (x : Keyed). x.1) (sort_entries r)),
          )
          (rw (enc_entries-map (map (λ (x : Keyed). x.1) (sort_entries r))))

    enc_extra-map : (l : List (Text × Text)) → enc_extra p (map normal_entry l) ≡ enc_extra p l
    unfolding enc_extra
    enc_extra-map l = rw (key_entries-map l) (after (key_entries p l))

    pub canonical_bytes-normalise :
        (m : ManifestFields) → canonical_bytes p (normalise m) ≡ canonical_bytes p m
    unfolding canonical_bytes
    canonical_bytes-normalise m = simp (
      enc_str-nfc "weights_hash" m.weights_hash,
      enc_str-nfc "quantization" m.quantization,
      enc_str-nfc "kernel_build_id" m.kernel_build_id,
      enc_str-nfc "tensor_parallel" m.tensor_parallel,
      enc_str-nfc "numerics_mode" m.numerics_mode,
      enc_extra-map m.extra,
    )
