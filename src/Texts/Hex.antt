-- ===== src/Texts/Hex.antt =====
-- Hexadecimal texts of Python's `bytes`.
use sce.Base.{ℕ, ◌+◌, ◌*◌, ◌/◌, ◌%◌, ◌<◌, ◌≡◌, refl, ap, ◌∙◌, Option, none, some, [], ◌∷◌, arith}
use mathlib.Core.Path.{subst}
use sce.Error.{ok, >>=-eq-ok, ok-injective}
use sce.Value.{Bytes, Text}
use sce.Bytes.{IsBytes}
use sce.Texts.{hex_digit, hex, hex_value, first_digit, from_hex}

hex_value-hex_digit : (n : ℕ) → n < 16 → hex_value (hex_digit n) ≡ ok n
unfolding hex_value hex_digit
hex_value-hex_digit n h = ground arith

first_digit-hex_digit : (n : ℕ) → n < 16 → first_digit (hex_digit n) ≡ ok (some n)
unfolding first_digit hex_value hex_digit
first_digit-hex_digit n h = ground arith

pub from_hex-hex : (b : Bytes) → IsBytes b → from_hex none (hex b) ≡ ok b
unfolding from_hex hex
from_hex-hex [] h = refl
from_hex-hex (x ∷ b) h =
    let whole : x / 16 * 16 + x % 16 ≡ x = omega arith in
    rw (
      first_digit-hex_digit (x / 16) (omega (arith, h.0)),
      hex_value-hex_digit (x % 16) (omega arith),
      from_hex-hex b h.1,
      whole,
    )

hex_value-lt : (c : ℕ) {n : ℕ} → hex_value c ≡ ok n → n < 16
unfolding hex_value
hex_value-lt c h = ground arith

first_digit-lt : (c : ℕ) {n : ℕ} → first_digit c ≡ ok (some n) → n < 16
unfolding first_digit hex_value
first_digit-lt c h = ground arith

-- What is read are bytes.
pub from_hex-IsBytes :
    (first : Option ℕ) (s : Text) {b : Bytes}
    → ((n : ℕ) → first ≡ some n → n < 16)
    → from_hex first s ≡ ok b
    → IsBytes b
unfolding from_hex
from_hex-IsBytes none [] low h = subst IsBytes (ok-injective h) tt
from_hex-IsBytes (some d) [] low h = ground arith
from_hex-IsBytes none (c ∷ s) low h =
    let (next, hn, k) = >>=-eq-ok (first_digit c) _ h in
    from_hex-IsBytes next s (λ n e. first_digit-lt c (hn ∙ ap ok e)) k
from_hex-IsBytes (some d) (c ∷ s) low h =
    let (l, hl, k) = >>=-eq-ok (hex_value c) _ h in
    let (rest, hr, e) = >>=-eq-ok (from_hex none s) _ k in
    subst IsBytes (ok-injective e) (
      omega (arith, low d refl, hex_value-lt c hl),
      from_hex-IsBytes none s (λ n e. absurd (ground arith)) hr,
    )
