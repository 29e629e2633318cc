-- ===== src/Bytes/Laws.antt =====
-- Big-endian numbers and length prefixes read back.
use native.Mathlib.Nat.{pow-suc, pow-succ', div-one, lt-div-mul-add, one-le-pow, div-div-eq-div-mul}
use sce.Base.{
  ℕ, zero, suc, ◌+◌, ◌*◌, ◌/◌, ◌%◌, ◌^◌, ◌≤◌, ◌<◌, ◌≡◌, refl, ap, sym, ◌∙◌, [], ◌∷◌, ◌++◌, arith,
  lt→ltb, length, length-append, append-cut, append_assoc,
}
use sce.Error.{ok}
use sce.Value.{Bytes}
use sce.Bytes.{IsBytes, big_endian, to_bytes, from_bytes, lp, stream_lp, max_lp_field}

pub length-big_endian : (w n : ℕ) → length (big_endian w n) ≡ w
unfolding big_endian
length-big_endian zero n = refl
length-big_endian (suc w) n =
    length-append (big_endian w (n / 256)) (n % 256 ∷ [])
    ∙ omega (arith, length-big_endian w (n / 256))

from_bytes-append :
    (acc : ℕ) (bs : Bytes) (b : ℕ) → from_bytes acc (bs ++ b ∷ []) ≡ from_bytes acc bs * 256 + b
unfolding from_bytes
from_bytes-append acc [] b = refl
from_bytes-append acc (x ∷ bs) b = from_bytes-append (acc * 256 + x) bs b

-- A number that fits reads back from its digits.
pub from_bytes-big_endian : (w n : ℕ) → n < 256 ^ w → from_bytes 0 (big_endian w n) ≡ n
unfolding big_endian from_bytes
from_bytes-big_endian zero n h = ground arith
from_bytes-big_endian (suc w) n h =
    from_bytes-append 0 (big_endian w (n / 256)) (n % 256)
    ∙ omega (arith, from_bytes-big_endian w (n / 256) (omega (arith, pow-suc 256 w)))

pub to_bytes-ok : (w n : ℕ) → n < 256 ^ w → to_bytes w n ≡ ok (big_endian w n)
unfolding to_bytes
to_bytes-ok w n h = rw (lt→ltb n (256 ^ w) h)

pub to_bytes-eq-ok :
    (w n : ℕ) {r : Bytes} → to_bytes w n ≡ ok r → (n < 256 ^ w) × (r ≡ big_endian w n)
unfolding to_bytes
to_bytes-eq-ok w n h = ground arith

pub big_endian-injective :
    (w n m : ℕ) → n < 256 ^ w → m < 256 ^ w → big_endian w n ≡ big_endian w m → n ≡ m
big_endian-injective w n m hn hm e =
    sym (from_bytes-big_endian w n hn) ∙ ap (from_bytes 0) e ∙ from_bytes-big_endian w m hm

-- A bounded field is prefixed by its length.
pub lp-ok : (b : Bytes) → length b ≤ max_lp_field → lp b ≡ ok (big_endian 4 (length b) ++ b)
unfolding lp
lp-ok b h = ground arith

pub lp-eq-ok :
    (b : Bytes) {r : Bytes}
    → lp b ≡ ok r
    → (length b ≤ max_lp_field) × (r ≡ big_endian 4 (length b) ++ b)
unfolding lp
lp-eq-ok b h = ground arith

pub stream_lp-eq-ok :
    (b : Bytes) {r : Bytes}
    → stream_lp b ≡ ok r
    → (length b ≤ max_lp_field) × (r ≡ big_endian 4 (length b) ++ b)
unfolding stream_lp
stream_lp-eq-ok b h = ground arith

-- A length prefix delimits: equal concatenations that begin with prefixed fields have the same
-- field and the same rest.
pub prefix-cut :
    (b c : Bytes) {r s : Bytes}
    → length b ≤ max_lp_field
    → length c ≤ max_lp_field
    → (big_endian 4 (length b) ++ b) ++ r ≡ (big_endian 4 (length c) ++ c) ++ s
    → (b ≡ c) × (r ≡ s)
prefix-cut b c {r} {s} hb hc e =
    let head =
      append-cut (big_endian 4 (length b)) (big_endian 4 (length c))
        (length-big_endian 4 (length b) ∙ sym (length-big_endian 4 (length c)))
        (simp append_assoc at e) in
    append-cut b c (big_endian-injective 4 (length b) (length c) (omega arith) (omega arith) head.0)
      head.1

big_endian-cons : (w n : ℕ) → big_endian (suc w) n ≡ n / 256 ^ w % 256 ∷ big_endian w n
unfolding big_endian
big_endian-cons zero n = rw (div-one n)
big_endian-cons (suc w) n =
    rw (big_endian-cons w (n / 256), div-div-eq-div-mul n 256 (256 ^ w), pow-succ' 256 w)

-- The digits read after an accumulator leave it as the quotient.
from_bytes-div : (acc : ℕ) (b : Bytes) → IsBytes b → from_bytes acc b / 256 ^ length b ≡ acc
unfolding from_bytes
from_bytes-div acc [] h = div-one acc
from_bytes-div acc (x ∷ b) h =
    ap (λ k. from_bytes (acc * 256 + x) b / k) (pow-suc 256 (length b))
    ∙ sym (div-div-eq-div-mul (from_bytes (acc * 256 + x) b) (256 ^ length b) 256)
    ∙ ap (λ k. k / 256) (from_bytes-div (acc * 256 + x) b h.1)
    ∙ omega (arith, h.0)

-- Bytes are the digits of the number that they read as.
pub big_endian-from_bytes :
    (acc : ℕ) (b : Bytes) → IsBytes b → big_endian (length b) (from_bytes acc b) ≡ b
unfolding from_bytes
big_endian-from_bytes acc [] h = unfold big_endian in refl
big_endian-from_bytes acc (x ∷ b) h =
    big_endian-cons (length b) (from_bytes (acc * 256 + x) b)
    ∙ rw (from_bytes-div (acc * 256 + x) b h.1, big_endian-from_bytes (acc * 256 + x) b h.1)
        (ap (λ y. y ∷ b) (omega (arith, h.0)))

pub from_bytes-lt : (b : Bytes) → IsBytes b → from_bytes 0 b < 256 ^ length b
from_bytes-lt b h = omega (
  arith,
  lt-div-mul-add {a = from_bytes 0 b} {b = 256 ^ length b}
      (one-le-pow (length b) 256 (omega arith)),
  ap (λ (q : ℕ). q * 256 ^ length b) (from_bytes-div 0 b h),
)
