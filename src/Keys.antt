-- ===== src/Keys.antt =====
-- Key derivation and associated data of sce/core.py.
pub mod Derive
pub mod Binding
use sce.Base.{ℕ, ◌*◌, ◌^◌, ◌++◌, ltb, if◌then◌else◌, length, take, drop, codes}
use sce.Error.{
  Result, ok, raise, ◌>>=◌, ◌>>◌, raise_if, sce_error, bad_epoch, secret_not_bytes,
  secret_too_short,
}
use sce.Value.{Bytes, Value, pos, int, bytes, bytearray, type_name}
use sce.Bytes.{to_bytes, lp}
use sce.Library.{Primitives}

-- `_KEY_LEN`
abbrev pub key_len : ℕ
key_len = 32

-- `_DOMAIN`
abbrev pub domain : Bytes
domain = codes "LDDP-SCE-v4"

-- `_KDF_INFO_PREFIX`
abbrev pub kdf_info_prefix : Bytes
kdf_info_prefix = codes "LDDP-SCE|kdf-v4|"

-- `_KDF_CANON_TAG`
abbrev pub kdf_canon_tag : Bytes
kdf_canon_tag = codes "LDDP-SCE|kdf-canon-v4"

-- `_check_epoch`, with the number that it lets through. A bool is no `int` here.
unfoldable pub check_epoch : Value → Result ℕ
check_epoch (int (pos n)) = if ltb n (2 ^ 64) then ok n else raise (sce_error bad_epoch)
check_epoch v = raise (sce_error bad_epoch)

-- The bytes that `_kdf_info` hashes.
unfoldable pub kdf_canonical : Bytes → ℕ → Bytes → Result Bytes
kdf_canonical context epoch_id memh = do
  c ← lp context
  n ← to_bytes 8 epoch_id
  e ← lp n
  m ← lp memh
  ok (kdf_canon_tag ++ (c ++ (e ++ m)))

-- The check of the master secret in `_derive_key_material`.
unfoldable pub require_secret : Value → Result Bytes
require_secret (bytes b) = do raise_if (ltb (length b) 16) (sce_error secret_too_short); ok b
require_secret (bytearray b) = do raise_if (ltb (length b) 16) (sce_error secret_too_short); ok b
require_secret v = raise (sce_error (secret_not_bytes (type_name v)))

-- The pair that `_derive_key_material` returns.
pub record KeyMaterial : Type 0 where
  pub k_enc : Bytes
  pub commitment : Bytes

module _ (p : Primitives) where
  open p use {sha3_256, hkdf}

  -- `_kdf_info`
  unfoldable pub kdf_info : Bytes → ℕ → Bytes → Result Bytes
  kdf_info context epoch_id memh = do
    canonical ← kdf_canonical context epoch_id memh
    ok (kdf_info_prefix ++ sha3_256 canonical)

  -- The commitment to a half of the key material.
  unfoldable pub commit : Bytes → Bytes
  commit half = sha3_256 (domain ++ (codes "|commit|" ++ half))

  -- `_derive_key_material`
  unfoldable pub derive_key_material : Value → Bytes → ℕ → Bytes → Bytes → Result KeyMaterial
  derive_key_material master_secret memh epoch_id context salt = do
    secret ← require_secret master_secret
    info ← kdf_info context epoch_id memh
    let material = hkdf (key_len * 2) salt info secret
    ok (record { k_enc = take key_len material; commitment = commit (drop key_len material) })

-- `_aad`
unfoldable pub aad : Bytes → Bytes → ℕ → Result Bytes
aad header_prefix memh epoch_id = do
  e ← to_bytes 8 epoch_id
  ok (domain ++ (codes "|hdr|" ++ (header_prefix ++ (memh ++ e))))
