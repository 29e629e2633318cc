-- ===== src/Library.antt =====
-- What sce/core.py and sce/stream.py call and do not implement: `unicodedata.normalize("NFC", ·)`,
-- `hashlib.sha3_256`, HKDF-SHA3-256 and AESGCMSIV of the cryptography package, and `os.urandom`.
pub mod Octets
pub mod Ascii
pub mod Random
use sce.Base.{All, ◌<◌, ℕ, ◌+◌, ◌≤◌, ◌≡◌, length}
use sce.Error.{Exception, Result, ok, raise, invalid_tag}
use sce.Value.{Bytes, Text}

pub record Primitives : Type 0 where
  pub nfc : Text → Text
  pub sha3_256 : Bytes → Bytes
  -- HKDF(SHA3_256(), length, salt, info).derive(ikm)
  pub hkdf : ℕ → Bytes → Bytes → Bytes → Bytes
  -- AESGCMSIV(key).encrypt(nonce, text, associated data) and decrypt
  pub encrypt : Bytes → Bytes → Bytes → Bytes → Result Bytes
  pub decrypt : Bytes → Bytes → Bytes → Bytes → Result Bytes
  -- the longest text and associated data that the package accepts
  pub max_text : ℕ
  -- os.urandom(n) at the i-th call of the process
  pub urandom : ℕ → ℕ → Bytes

-- The documented behaviour that the theorems rely on. Nothing is assumed of collisions.
pub record Documented (p : Primitives) : Type 0 where
  pub nfc_idempotent : (t : Text) → p.nfc (p.nfc t) ≡ p.nfc t
  pub length-sha3_256 : (b : Bytes) → length (p.sha3_256 b) ≡ 32
  pub length-hkdf : (n : ℕ) (salt info ikm : Bytes) → length (p.hkdf n salt info ikm) ≡ n
  pub length-urandom : (i n : ℕ) → length (p.urandom i n) ≡ n
  pub encrypt_returns :
      (key nonce text aad : Bytes)
      → length key ≡ 32
      → length nonce ≡ 12
      → length text ≤ p.max_text
      → length aad ≤ p.max_text
      → (c : Bytes) × (p.encrypt key nonce text aad ≡ ok c)
  pub length-encrypt :
      (key nonce text aad c : Bytes)
      → p.encrypt key nonce text aad ≡ ok c
      → length c ≡ length text + 16
  pub decrypt-encrypt :
      (key nonce text aad c : Bytes)
      → p.encrypt key nonce text aad ≡ ok c
      → p.decrypt key nonce c aad ≡ ok text
  pub decrypt_raises :
      (key nonce c aad : Bytes) (e : Exception)
      → length key ≡ 32
      → length nonce ≡ 12
      → p.decrypt key nonce c aad ≡ raise e
      → e ≡ invalid_tag

-- A text of ASCII is its own normal form, as `unicodedata` documents by the Unicode standard.
pub record AsciiNormal (p : Primitives) : Type 0 where
  pub nfc_ascii : (t : Text) → All (λ c. c < 128) t → p.nfc t ≡ t
