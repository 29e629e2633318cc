-- ===== src/Base64.antt =====
-- Python's `base64.b64encode` and `base64.b64decode`, which the serving adapter of
-- examples/serving_adapter.py carries envelopes with.
pub mod RoundTrip
use sce.Base.{
  ℕ, ◌+◌, ◌-◌, ◌*◌, ◌/◌, ◌%◌, List, [], ◌∷◌, ◌++◌, Bool, true, false, ◌&&◌, Option, none, some, ltb,
  leb, ◌==◌, if◌then◌else◌,
}
use sce.Error.{Result, ok, raise, ◌>>=◌, ◌>>◌, raise_if, value_error}
use sce.Value.{Bytes, Text}

-- The character of a digit below 64, and the padding.
unfoldable pub digit_char : ℕ → ℕ
digit_char n =
    if ltb n 26
    then 65 + n
    else if ltb n 52
    then 71 + n
    else if ltb n 62
    then n - 4
    else if n == 62
    then 43
    else 47

abbrev pub pad : ℕ
pad = 61

-- The digit of a character, if it is in the alphabet.
unfoldable pub char_digit : ℕ → Option ℕ
char_digit c =
    if leb 65 c && leb c 90
    then some (c - 65)
    else if leb 97 c && leb c 122
    then some (c - 71)
    else if leb 48 c && leb c 57
    then some (c + 4)
    else if c == 43
    then some 62
    else if c == 47
    then some 63
    else none

-- `base64.b64encode`
unfoldable pub b64encode : Bytes → Text
unfolding digit_char
b64encode [] = []
b64encode (a ∷ []) = digit_char (a / 4) ∷ digit_char (a % 4 * 16) ∷ pad ∷ pad ∷ []
b64encode (a ∷ b ∷ []) =
    digit_char (a / 4) ∷ digit_char (a % 4 * 16 + b / 16) ∷ digit_char (b % 16 * 4) ∷ pad ∷ []
b64encode (a ∷ b ∷ c ∷ rest) =
    digit_char (a / 4)
    ∷ digit_char (a % 4 * 16 + b / 16)
    ∷ digit_char (b % 16 * 4 + c / 64)
    ∷ digit_char (c % 64)
    ∷ b64encode rest

-- Where the decoder stands: the digits read of a group of four, the bits of the last digit that
-- are still to be written, and the pads read since.
pub record Quad : Type 0 where
  pub pos : ℕ
  pub left : ℕ
  pub pads : ℕ

abbrev pub start : Quad
start = record { pos = 0; left = 0; pads = 0 }

-- What a character does: the decoder goes on and writes a byte or none, or it has read the padding
-- and stops.
pub data Step : Type 0 where
  more : Quad → Bytes → Step
  stop : Step

-- A digit of the alphabet.
unfoldable pub read_digit : Quad → ℕ → Step
read_digit q n =
    if q.pos == 0
    then more (record { pos = 1; left = n; pads = 0 }) []
    else if q.pos == 1
    then more (record { pos = 2; left = n % 16; pads = 0 }) ((q.left * 4 + n / 16) ∷ [])
    else if q.pos == 2
    then more (record { pos = 3; left = n % 4; pads = 0 }) ((q.left * 16 + n / 4) ∷ [])
    else more start ((q.left * 64 + n) ∷ [])

-- A pad counts only after two digits, and ends the input when it completes the group.
unfoldable pub read_pad : Quad → Step
read_pad q =
    if leb 2 q.pos
    then if leb 4 (q.pos + (q.pads + 1)) then stop else more (record q { pads = q.pads + 1 }) []
    else more q []

-- Characters outside the alphabet are skipped.
unfoldable pub read_char : Quad → ℕ → Step
unfolding char_digit read_pad read_digit
read_char q c =
    if c == pad
    then read_pad q
    else elim (char_digit c) [ none ↦ more q [] | some n ↦ read_digit q n ]

-- The loop of the decoder; a group that is not complete at the end is an error.
unfoldable pub decode_quads : Quad → Text → Result Bytes
unfolding read_char
decode_quads q [] = if q.pos == 0 then ok [] else raise value_error
decode_quads q (c ∷ cs) = elim (read_char q c) [
  | stop ↦ ok []
  | more q' out ↦ (do rest ← decode_quads q' cs; ok (out ++ rest))
]

unfoldable pub is_ascii : Text → Bool
is_ascii [] = true
is_ascii (c ∷ cs) = ltb c 128 && is_ascii cs

-- `base64.b64decode` of a str, without validation
unfoldable pub b64decode : Text → Result Bytes
unfolding is_ascii decode_quads
b64decode s = if is_ascii s then decode_quads start s else raise value_error
