-- ===== src/Envelope.antt =====
-- The envelope layout of sce/core.py: `_HEADER_PREFIX`, `_CTLEN`, `_parse`, and the inspection
-- functions `describe_envelope` and `explain_mismatch`.
pub mod Layout
pub mod Accepts
pub mod Inspect
use sce.Base.{
  ℕ, ◌+◌, ◌-◌, ◌^◌, List, [], ◌∷◌, ◌++◌, not, ltb, ◌==◌, list_eq, if◌then◌else◌, length, take, drop,
  replicate, codes,
}
use sce.Error.{
  Message, Result, ok, raise, ◌>>=◌, ◌>>◌, raise_if, struct_error, malformed_envelope, not_bytes,
  short_header, bad_magic, bad_version, length_mismatch, short_ciphertext,
}
use sce.Value.{Bytes, Value, ModelManifest, bytes, bytearray, memoryview, type_name}
use sce.Bytes.{big_endian, from_bytes, slice}
use sce.Manifest.{require_manifest}

-- `_MAGIC`
abbrev pub magic : Bytes
magic = codes "SCE4"

-- `_VERSION`
abbrev pub version : ℕ
version = 4

-- `_NONCE_LEN`
abbrev pub nonce_len : ℕ
nonce_len = 12

-- `_SALT_LEN`
abbrev pub salt_len : ℕ
salt_len = 16

-- `_TAG_LEN`
abbrev pub tag_len : ℕ
tag_len = 16

-- `_COMMIT_LEN`
abbrev pub commit_len : ℕ
commit_len = 32

-- `_HEADER_PREFIX.size`
abbrev pub header_size : ℕ
header_size = 65

-- `_CTLEN.size`
abbrev pub ctlen_size : ℕ
ctlen_size = 4

-- Format `ns` of the struct module: the bytes, padded with zeros or cut.
unfoldable pub pack_bytes : ℕ → Bytes → Bytes
pack_bytes n b = take n (b ++ replicate n 0)

-- Formats `B`, `I` and `Q` (w = 1, 4, 8), big-endian.
unfoldable pub pack_uint : ℕ → ℕ → Result Bytes
pack_uint w n = if ltb n (256 ^ w) then ok (big_endian w n) else raise struct_error

-- `_HEADER_PREFIX.pack(_MAGIC, _VERSION, nonce, salt, commitment)`
unfoldable pub pack_header : Bytes → Bytes → Bytes → Result Bytes
pack_header nonce salt commitment = do
  v ← pack_uint 1 version
  ok (
      pack_bytes 4 magic
      ++ (v
          ++ (pack_bytes nonce_len nonce
              ++ (pack_bytes salt_len salt ++ pack_bytes commit_len commitment))))

-- `_CTLEN.pack(len(ciphertext))`
unfoldable pub pack_ctlen : ℕ → Result Bytes
pack_ctlen n = pack_uint ctlen_size n

-- The header fields that `_HEADER_PREFIX.unpack` returns, the prefix itself and the ciphertext.
pub record Parsed : Type 0 where
  pub prefix : Bytes
  pub magic_field : Bytes
  pub version_field : ℕ
  pub nonce : Bytes
  pub salt : Bytes
  pub commitment : Bytes
  pub ciphertext : Bytes

-- `_require_envelope_bytes`
unfoldable pub require_envelope_bytes : Value → Message → Result Bytes
require_envelope_bytes (bytes b) what = ok b
require_envelope_bytes (bytearray b) what = ok b
require_envelope_bytes (memoryview n b) what = ok b
require_envelope_bytes v what = raise (malformed_envelope what)

-- `_HEADER_PREFIX.unpack` and the split of an envelope that is long enough.
unfoldable pub unpack : Bytes → Parsed
unpack sealed =
    let prefix = take header_size sealed in
    record {
      prefix = prefix;
      magic_field = slice 0 4 prefix;
      version_field = from_bytes 0 (slice 4 5 prefix);
      nonce = slice 5 17 prefix;
      salt = slice 17 33 prefix;
      commitment = slice 33 65 prefix;
      ciphertext = drop (header_size + ctlen_size) sealed;
    }

-- `_parse` once the value is known to be bytes
unfoldable pub parse_bytes : Bytes → Result Parsed
parse_bytes sealed = do
  raise_if (ltb (length sealed) (header_size + ctlen_size)) (malformed_envelope short_header)
  let fields = unpack sealed
  raise_if (not (list_eq fields.magic_field magic)) (malformed_envelope bad_magic)
  raise_if (not (fields.version_field == version))
      (malformed_envelope (bad_version fields.version_field))
  let ct_len = from_bytes 0 (slice header_size (header_size + ctlen_size) sealed)
  raise_if (not (length fields.ciphertext == ct_len)) (malformed_envelope length_mismatch)
  raise_if (ltb (length fields.ciphertext) tag_len) (malformed_envelope short_ciphertext)
  ok fields

-- `_parse`
unfoldable pub parse : Value → Result Parsed
parse v = do
  sealed ← require_envelope_bytes v (not_bytes "sealed envelope" (type_name v))
  parse_bytes sealed

-- The dictionary that `describe_envelope` returns.
pub record Description : Type 0 where
  pub magic_field : Bytes
  pub version_field : ℕ
  pub ciphertext_bytes : ℕ
  pub total_envelope_bytes : ℕ

-- `len(v)` of a bytes-like value, which for a memoryview is not always the count of its bytes
abbrev pub value_length : Value → ℕ
value_length (bytes b) = length b
value_length (bytearray b) = length b
value_length (memoryview n b) = n
value_length v = 0

-- `describe_envelope`
unfoldable pub describe_envelope : Value → Result Description
describe_envelope v = do
  fields ← parse v
  ok (record {
    magic_field = fields.magic_field;
    version_field = fields.version_field;
    ciphertext_bytes = length fields.ciphertext;
    total_envelope_bytes = value_length v;
  })

-- The note that `explain_mismatch` returns: the text of the structural fault, or the first 16
-- hexadecimal digits of the presented fingerprint, which are its first 8 bytes.
pub data Explanation : Type 0 where
  not_valid : Message → Explanation
  refused : Bytes → Explanation

-- `except MalformedEnvelope` of `explain_mismatch`
unfoldable pub explain : Bytes → Result Parsed → Result Explanation
explain memh (ok fields) = ok (refused (take 8 memh))
explain memh (raise (malformed_envelope e)) = ok (not_valid e)
explain memh (raise e) = raise e

-- `explain_mismatch`
unfoldable pub explain_mismatch : Value → Value → Result Explanation
explain_mismatch sealed manifest = do m ← require_manifest manifest; explain m.memh (parse sealed)
