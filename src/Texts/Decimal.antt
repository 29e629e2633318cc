-- ===== src/Texts/Decimal.antt =====
-- Decimal digits of the formatted strings of examples/.
use sce.Base.{
  ℕ, zero, suc, ◌+◌, ◌-◌, ◌*◌, ◌/◌, ◌%◌, ◌<◌, ◌≤◌, ◌≡◌, refl, sym, ◌∙◌, ap, [], ◌∷◌, ◌++◌, arith,
  Bool-cases, inl, inr, ltb, ltb→lt, ltb→le, replicate, length, All, All-append,
}
use sce.Value.{Text}
use sce.Texts.{digits, decimal, decimal_six}

-- The number that digits stand for, after those already read.
unfoldable read_digits : ℕ → Text → ℕ
read_digits acc [] = acc
read_digits acc (c ∷ s) = read_digits (acc * 10 + (c - 48)) s

read_digits-snoc :
    (acc : ℕ) (s : Text) (c : ℕ) → read_digits acc (s ++ c ∷ []) ≡ read_digits acc s * 10 + (c - 48)
unfolding read_digits
read_digits-snoc acc [] c = refl
read_digits-snoc acc (x ∷ s) c = read_digits-snoc (acc * 10 + (x - 48)) s c

read_digits-digits : (fuel n : ℕ) → n < fuel → read_digits 0 (digits fuel n) ≡ n
unfolding digits
read_digits-digits zero n h = absurd (omega arith)
read_digits-digits (suc fuel) n h = elim (Bool-cases (ltb n 10)) [
  | inl e ↦ rw e (unfold read_digits in omega arith)
  | inr e ↦
      rw (e, read_digits-snoc 0 (digits fuel (n / 10)) (48 + n % 10))
        (omega (arith, read_digits-digits fuel (n / 10) (omega (arith, ltb→le n 10 e))))
]

read_digits-zeros : (k : ℕ) (s : Text) → read_digits 0 (replicate k 48 ++ s) ≡ read_digits 0 s
unfolding read_digits
read_digits-zeros zero s = refl
read_digits-zeros (suc k) s = read_digits-zeros k s

-- Numbers with the same six-place decimal are the same.
pub decimal_six-injective : (n m : ℕ) → decimal_six n ≡ decimal_six m → n ≡ m
unfolding decimal_six
decimal_six-injective n m h =
    sym (read_digits-digits (suc n) n (omega arith))
    ∙ sym (read_digits-zeros (6 - length (decimal n)) (decimal n))
    ∙ ap (read_digits 0) h
    ∙ read_digits-zeros (6 - length (decimal m)) (decimal m)
    ∙ read_digits-digits (suc m) m (omega arith)

-- Digits are characters below `limit`, if it is above theirs.
pub digits-All : (limit fuel n : ℕ) → 58 ≤ limit → All (λ c. c < limit) (digits fuel n)
unfolding digits
digits-All limit zero n h = tt
digits-All limit (suc fuel) n h = elim (Bool-cases (ltb n 10)) [
  | inl e ↦ rw e (omega (arith, ltb→lt n 10 e), tt)
  | inr e ↦
      rw e
        (All-append _ (digits fuel (n / 10)) _ (digits-All limit fuel (n / 10) h) (omega arith, tt))
]
