-- ===== src/Seal.antt =====
-- `seal_state` and `unseal_state` of sce/core.py.
pub mod Open
pub mod RoundTrip
pub mod Total
pub mod Returns
pub mod Binding
pub mod Octets
pub mod Uniform
pub mod Refuses
pub mod Plain
pub mod Authentic
use sce.Base.{ℕ, ◌+◌, ◌-◌, ◌^◌, Bool, true, Option, none, some, ◌++◌, not, ltb, list_eq, length}
use sce.Error.{
  Result, ok, raise, ◌>>=◌, ◌>>◌, raise_if, sce_error, state_seal_mismatch, invalid_tag,
  mismatch_message, state_not_bytes, state_too_long, context_not_bytes, context_too_long,
  bad_seal_count, seal_count_at_ceiling,
}
use sce.Value.{Bytes, Value, pos, int, bytes, bytearray}
use sce.Bytes.{max_lp_field}
use sce.Library.{Primitives}
use sce.Manifest.{require_manifest}
use sce.Keys.{check_epoch, derive_key_material, aad}
use sce.Envelope.{Parsed, nonce_len, salt_len, tag_len, pack_header, pack_ctlen, parse}

-- `_MAX_STATE`
abbrev pub max_state : ℕ
max_state = 2 ^ 32 - 1 - tag_len

-- `SEAL_COUNT_CEILING_PER_KEY`
abbrev pub seal_count_ceiling : ℕ
seal_count_ceiling = 2 ^ 40

-- `isinstance(state, (bytes, bytearray))`, and `bytes(state)`
unfoldable pub require_state : Value → Result Bytes
require_state (bytes b) = ok b
require_state (bytearray b) = ok b
require_state v = raise (sce_error state_not_bytes)

-- `isinstance(context, (bytes, bytearray))`, and `bytes(context)`
unfoldable pub require_context : Value → Result Bytes
require_context (bytes b) = ok b
require_context (bytearray b) = ok b
require_context v = raise (sce_error context_not_bytes)

-- The check of the context at both entry points.
unfoldable pub bounded_context : Value → Result Bytes
bounded_context v = do
  c ← require_context v
  raise_if (ltb max_lp_field (length c)) (sce_error context_too_long)
  ok c

-- The check of `seal_count`.
unfoldable pub check_seal_count : Value → Result (Unit {0})
check_seal_count Value.none = ok tt
check_seal_count (int (pos n)) =
    raise_if (not (ltb n seal_count_ceiling)) (sce_error (seal_count_at_ceiling n))
check_seal_count v = raise (sce_error bad_seal_count)

-- `try … except InvalidTag` around the decryption
unfoldable pub opened : Result Bytes → Result (Option Bytes)
opened (ok plaintext) = ok (some plaintext)
opened (raise invalid_tag) = ok none
opened (raise e) = raise e

-- `if not (commitment_ok and aead_ok)` and the return
unfoldable pub verdict : Bool → Option Bytes → Result Bytes
verdict true (some plaintext) = ok plaintext
verdict _ _ = raise (state_seal_mismatch mismatch_message)

module _ (p : Primitives) where
  open p use {encrypt, decrypt, urandom}

  -- `seal_state` after its checks, with the salt and the nonce that were drawn.
  unfoldable pub seal_with : Bytes → Bytes → Bytes → Bytes → Value → ℕ → Bytes → Result Bytes
  seal_with salt nonce state memh master_secret epoch_id context = do
    km ← derive_key_material p master_secret memh epoch_id context salt
    prefix ← pack_header nonce salt km.commitment
    a ← aad prefix memh epoch_id
    ciphertext ← encrypt km.k_enc nonce state a
    n ← pack_ctlen (length ciphertext)
    ok (prefix ++ (n ++ ciphertext))

  -- `seal_state`, in a process that has called `os.urandom` `calls` times; it returns the envelope
  -- and the count of the calls after it.
  unfoldable pub seal_state : ℕ → Value → Value → Value → Value → Value → Value → Result (Bytes × ℕ)
  seal_state calls state manifest master_secret epoch_id context seal_count = do
    m ← require_manifest manifest
    s ← require_state state
    raise_if (ltb max_state (length s)) (sce_error (state_too_long (length s)))
    c ← bounded_context context
    check_seal_count seal_count
    e ← check_epoch epoch_id
    sealed ←
        seal_with (urandom calls salt_len) (urandom (calls + 1) nonce_len) s m.memh master_secret e
          c
    ok (sealed, calls + 2)

  -- The open of a parsed envelope: the commitment and the decryption are always both tried.
  unfoldable pub open_parsed : Parsed → Bytes → Value → ℕ → Bytes → Result Bytes
  open_parsed f memh master_secret epoch_id context = do
    km ← derive_key_material p master_secret memh epoch_id context f.salt
    a ← aad f.prefix memh epoch_id
    plaintext ← opened (decrypt km.k_enc f.nonce f.ciphertext a)
    verdict (list_eq f.commitment km.commitment) plaintext

  -- `unseal_state`
  unfoldable pub unseal_state : Value → Value → Value → Value → Value → Result Bytes
  unseal_state sealed manifest master_secret epoch_id context = do
    m ← require_manifest manifest
    c ← bounded_context context
    e ← check_epoch epoch_id
    f ← parse sealed
    open_parsed f m.memh master_secret e c
