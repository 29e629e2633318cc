-- ===== src/Texts.antt =====
-- What the examples use of Python's `str`: `count`, `join`, `hex`, `fromhex` and numbers in formatted strings.
pub mod Decimal
pub mod Hex
use sce.Base.{
  ℕ, zero, suc, ◌+◌, ◌-◌, ◌/◌, ◌%◌, List, [], ◌∷◌, ◌++◌, Bool, true, false, ◌&&◌, ltb, ◌==◌, ◌*◌,
  ◌||◌, leb, Option, none, some, if◌then◌else◌, length, replicate,
}
use sce.Error.{Result, ok, raise, ◌>>=◌, value_error}
use sce.Value.{Bytes, Text}

unfoldable pub starts_with : Text → Text → Bool
starts_with [] s = true
starts_with (c ∷ w) [] = false
starts_with (c ∷ w) (d ∷ s) = c == d && starts_with w s

-- The occurrences of a word from left to right, with how much of the last one is still to be
-- passed.
unfoldable pub count_from : Text → ℕ → Text → ℕ
unfolding starts_with
count_from word skip [] = 0
count_from word (suc skip) (c ∷ s) = count_from word skip s
count_from word zero (c ∷ s) =
    let found = starts_with word (c ∷ s) in
    let rest = count_from word (if found then length word - 1 else 0) s in
    if found then suc rest else rest

-- `s.count(word)` for a word that is not empty
abbrev pub count : Text → Text → ℕ
count word s = count_from word 0 s

-- `sep.join(parts)`
unfoldable pub join_with : Text → List Text → Text
join_with sep [] = []
join_with sep (t ∷ []) = t
join_with sep (t ∷ u ∷ ts) = t ++ (sep ++ join_with sep (u ∷ ts))

-- The decimal digits of a number, on as much fuel as there may be digits.
unfoldable pub digits : ℕ → ℕ → Text
digits zero n = []
digits (suc fuel) n =
    let rest = digits fuel (n / 10) in
    if ltb n 10 then (48 + n) ∷ [] else rest ++ (48 + n % 10) ∷ []

-- `f"{n}"`
abbrev pub decimal : ℕ → Text
decimal n = digits (suc n) n

-- `f"{n:06d}"`
unfoldable pub decimal_six : ℕ → Text
decimal_six n = let s = decimal n in replicate (6 - length s) 48 ++ s

unfoldable pub hex_digit : ℕ → ℕ
hex_digit n = if ltb n 10 then 48 + n else 87 + n

-- `b.hex()`
unfoldable pub hex : Bytes → Text
unfolding hex_digit
hex [] = []
hex (b ∷ bs) = hex_digit (b / 16) ∷ hex_digit (b % 16) ∷ hex bs

unfoldable pub hex_value : ℕ → Result ℕ
hex_value c =
    if leb 48 c && leb c 57
    then ok (c - 48)
    else if leb 97 c && leb c 102
    then ok (c - 87)
    else if leb 65 c && leb c 70
    then ok (c - 55)
    else raise value_error

-- The first digit of a byte, or a space before it.
unfoldable pub first_digit : ℕ → Result (Option ℕ)
unfolding hex_value
first_digit c =
    if (leb 9 c && leb c 13) || c == 32 then ok none else do h ← hex_value c; ok (some h)

-- `bytes.fromhex` after the first digit of a byte, or between two bytes
unfoldable pub from_hex : Option ℕ → Text → Result Bytes
unfolding first_digit hex_value
from_hex none [] = ok []
from_hex (some h) [] = raise value_error
from_hex none (c ∷ s) = do first ← first_digit c; from_hex first s
from_hex (some h) (c ∷ s) = do l ← hex_value c; rest ← from_hex none s; ok ((h * 16 + l) ∷ rest)
