-- ===== src/Manifest/Equality.antt =====
-- `__eq__` and `__hash__` of `ModelManifest` in sce/core.py: the dataclass compares its fields, and
-- the hash is that of the fingerprint.
pub mod Hash
use sce.Base.{
  Bool, true, false, ◌&&◌, Option, none, some, List, [], ◌∷◌, length, ◌==◌, list_eq, if◌then◌else◌,
}
use sce.Value.{Bytes, Text, ModelManifest}

-- `extra.get(key)`
unfoldable pub get : Text → List (Text × Text) → Option Text
get key [] = none
get key ((k, v) ∷ rest) = if list_eq key k then some v else get key rest

unfoldable pub has_value : Option Text → Text → Bool
has_value none v = false
has_value (some w) v = list_eq v w

-- Every item of the first mapping is one of the second.
unfoldable pub items_in : List (Text × Text) → List (Text × Text) → Bool
unfolding get has_value
items_in [] other = true
items_in ((k, v) ∷ rest) other = has_value (get k other) v && items_in rest other

-- `extra == other.extra`, of two mappings
unfoldable pub mapping_eq : List (Text × Text) → List (Text × Text) → Bool
mapping_eq a b = length a == length b && items_in a b

-- `__eq__`
unfoldable pub manifest_eq : ModelManifest → ModelManifest → Bool
manifest_eq m n =
    list_eq m.weights_hash n.weights_hash
    && (list_eq m.quantization n.quantization
        && (list_eq m.kernel_build_id n.kernel_build_id
            && (list_eq m.tensor_parallel n.tensor_parallel
                && (list_eq m.numerics_mode n.numerics_mode && mapping_eq m.extra n.extra))))

-- `__hash__`, for the hash that Python has for bytes
unfoldable pub manifest_hash {ℓ} : {H : Type ℓ} → (Bytes → H) → ModelManifest → H
manifest_hash hash m = hash m.memh
