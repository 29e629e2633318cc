-- ===== src/Library/Octets.antt =====
-- The results of the external primitives of sce/core.py as Python `bytes`.
use sce.Base.{ℕ, ◌≡◌}
use sce.Error.{ok}
use sce.Value.{Bytes}
use sce.Bytes.{IsBytes}
use sce.Library.{Primitives}

pub record Octets (p : Primitives) : Type 0 where
  pub sha3_256-IsBytes : (b : Bytes) → IsBytes (p.sha3_256 b)
  pub urandom-IsBytes : (i n : ℕ) → IsBytes (p.urandom i n)
  pub encrypt-IsBytes :
      (key nonce text aad c : Bytes)
      → IsBytes text
      → p.encrypt key nonce text aad ≡ ok c
      → IsBytes c
