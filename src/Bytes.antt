-- ===== src/Bytes.antt =====
-- Python's `int.to_bytes(w, "big")`, `int.from_bytes`, and the length prefix `_lp` of sce/core.py
-- and of sce/stream.py.
pub mod Laws
pub mod Slices
use sce.Base.{
  ℕ, zero, suc, ◌+◌, ◌-◌, ◌*◌, ◌/◌, ◌%◌, ◌^◌, [], ◌∷◌, ◌++◌, ltb, if◌then◌else◌, length, take, drop,
  All, ◌<◌,
}
use sce.Error.{Result, ok, raise, ◌>>=◌, sce_error, lp_too_long, overflow_error}
use sce.Value.{Bytes}

-- `_MAX_LP_FIELD`
abbrev pub max_lp_field : ℕ
max_lp_field = 2 ^ 32 - 1

-- The last `w` base-256 digits of `n`, most significant first.
unfoldable pub big_endian : ℕ → ℕ → Bytes
big_endian zero n = []
big_endian (suc w) n = big_endian w (n / 256) ++ n % 256 ∷ []

-- `n.to_bytes(w, "big")`
unfoldable pub to_bytes : ℕ → ℕ → Result Bytes
to_bytes w n = if ltb n (256 ^ w) then ok (big_endian w n) else raise overflow_error

-- `int.from_bytes(b, "big")`, with the value of the digits already read.
unfoldable pub from_bytes : ℕ → Bytes → ℕ
from_bytes acc [] = acc
from_bytes acc (b ∷ bs) = from_bytes (acc * 256 + b) bs

-- `b[lo:hi]` for 0 ≤ lo ≤ hi
abbrev pub slice : ℕ → ℕ → Bytes → Bytes
slice lo hi b = take (hi - lo) (drop lo b)

-- Each element is a byte.
abbrev pub IsBytes : Bytes → Type 0
IsBytes = All (λ b. b < 256)

-- `_lp` of sce/core.py
unfoldable pub lp : Bytes → Result Bytes
unfolding to_bytes
lp b =
    if ltb max_lp_field (length b)
    then raise (sce_error lp_too_long)
    else do n ← to_bytes 4 (length b); ok (n ++ b)

-- `_lp` of sce/stream.py, which has no bound of its own
unfoldable pub stream_lp : Bytes → Result Bytes
unfolding to_bytes
stream_lp b = do n ← to_bytes 4 (length b); ok (n ++ b)
