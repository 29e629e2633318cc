-- ===== src/Value.antt =====
-- The Python values that reach the entry points of sce/core.py and sce/stream.py, and the record
-- of a constructed `ModelManifest`.
use sce.Base.{ℕ, ◌≡◌, String, Bool, List}

-- `bytes`: a list of numbers below 256. `str`: a list of code points.
abbrev pub Bytes : Type 0
Bytes = List ℕ

abbrev pub Text : Type 0
Text = List ℕ

-- `negsuc n` is -(n + 1).
pub data ℤ : Type 0 where
  pos : ℕ → ℤ
  negsuc : ℕ → ℤ

-- The dataclass fields of a manifest. `extra` is the read-only snapshot, in the insertion order of
-- the mapping.
pub record ManifestFields : Type 0 where
  pub weights_hash : Text
  pub quantization : Text
  pub kernel_build_id : Text
  pub tensor_parallel : Text
  pub numerics_mode : Text
  pub extra : List (Text × Text)

-- A constructed manifest: its fields and the cached `_memh`.
pub record ModelManifest : Type 0 where
  pub fields : ManifestFields
  pub open fields use *
  pub memh : Bytes

-- `other` is a value of any other class, with the class's name.
mutual
  pub data Value : Type 0 where
    none : Value
    bool : Bool → Value
    int : ℤ → Value
    str : Text → Value
    bytes : Bytes → Value
    bytearray : Bytes → Value
    -- with its `len`, which counts items, and the bytes that `bytes` makes of it
    memoryview : ℕ → Bytes → Value
    model_manifest : ModelManifest → Value
    mapping : Items → Value
    other : String → Value

  -- The items of a mapping, in its order.
  pub data Items : Type 0 where
    nil : Items
    item : Value → Value → Items → Items

-- `type(value).__name__`
abbrev pub type_name : Value → String
type_name none = "NoneType"
type_name (bool b) = "bool"
type_name (int n) = "int"
type_name (str s) = "str"
type_name (bytes b) = "bytes"
type_name (bytearray b) = "bytearray"
type_name (memoryview n b) = "memoryview"
type_name (model_manifest m) = "ModelManifest"
type_name (mapping m) = "dict"
type_name (other n) = n

pub model_manifest-injective : {m n : ModelManifest} → model_manifest m ≡ model_manifest n → m ≡ n
model_manifest-injective h = cc
