-- ===== src/Base64/RoundTrip.antt =====
-- Base64 of Python's standard library, encoded and decoded.
use sce.Base.{
  ℕ, ◌+◌, ◌*◌, ◌/◌, ◌%◌, ◌<◌, ◌≡◌, refl, ◌∙◌, ap, true, false, [], ◌∷◌, ◌++◌, some, arith, ◌==◌,
  ltb, length, ◌≢◌,
}
use sce.Error.{ok}
use sce.Value.{Bytes, Text}
use sce.Bytes.{IsBytes}
use sce.Base64.{
  digit_char, char_digit, pad, b64encode, Quad, start, read_digit, read_pad, read_char, more, stop,
  decode_quads, is_ascii, b64decode,
}

char_digit-digit_char : (n : ℕ) → n < 64 → char_digit (digit_char n) ≡ some n
unfolding char_digit digit_char
char_digit-digit_char n h = ground arith

digit_char-ne-pad : (n : ℕ) → n < 64 → (digit_char n == pad) ≡ false
unfolding digit_char
digit_char-ne-pad n h = ground arith

-- No digit is the padding.
read_char-digit_char : (q : Quad) (n : ℕ) → n < 64 → read_char q (digit_char n) ≡ read_digit q n
unfolding read_char
read_char-digit_char q n h = rw (digit_char-ne-pad n h, char_digit-digit_char n h)

-- The loop of the decoder after a character that writes, and at one that ends the input.
decode_quads-more :
    (q : Quad) (c : ℕ) (q' : Quad) (out : Bytes) (cs : Text) {t : Bytes}
    → read_char q c ≡ more q' out
    → decode_quads q' cs ≡ ok t
    → decode_quads q (c ∷ cs) ≡ ok (out ++ t)
unfolding decode_quads
decode_quads-more q c q' out cs h k = cc

decode_quads-stop :
    (q : Quad) (c : ℕ) (cs : Text) → read_char q c ≡ stop → decode_quads q (c ∷ cs) ≡ ok []
unfolding decode_quads
decode_quads-stop q c cs h = cc

abbrev quad : ℕ → ℕ → ℕ → Quad
quad i l k = record { pos = i; left = l; pads = k }

module _ (x : ℕ) (hx : x < 64) where
  -- The four places of a digit in its group.
  first :
      (cs : Text) {t : Bytes}
      → decode_quads (quad 1 x 0) cs ≡ ok t
      → decode_quads start (digit_char x ∷ cs) ≡ ok t
  unfolding read_digit
  first cs k =
      decode_quads-more start (digit_char x) (quad 1 x 0) [] cs (read_char-digit_char start x hx) k

  second :
      (l : ℕ) (cs : Text) {t : Bytes}
      → decode_quads (quad 2 (x % 16) 0) cs ≡ ok t
      → decode_quads (quad 1 l 0) (digit_char x ∷ cs) ≡ ok ((l * 4 + x / 16) ∷ t)
  unfolding read_digit
  second l cs k =
      decode_quads-more (quad 1 l 0) (digit_char x) (quad 2 (x % 16) 0) _ cs
        (read_char-digit_char (quad 1 l 0) x hx) k

  third :
      (l : ℕ) (cs : Text) {t : Bytes}
      → decode_quads (quad 3 (x % 4) 0) cs ≡ ok t
      → decode_quads (quad 2 l 0) (digit_char x ∷ cs) ≡ ok ((l * 16 + x / 4) ∷ t)
  unfolding read_digit
  third l cs k =
      decode_quads-more (quad 2 l 0) (digit_char x) (quad 3 (x % 4) 0) _ cs
        (read_char-digit_char (quad 2 l 0) x hx) k

  fourth :
      (l : ℕ) (cs : Text) {t : Bytes}
      → decode_quads start cs ≡ ok t
      → decode_quads (quad 3 l 0) (digit_char x ∷ cs) ≡ ok ((l * 64 + x) ∷ t)
  unfolding read_digit
  fourth l cs k =
      decode_quads-more (quad 3 l 0) (digit_char x) start _ cs
        (read_char-digit_char (quad 3 l 0) x hx) k

-- The padding after two digits and after three.
two_pads : (l : ℕ) → decode_quads (quad 2 l 0) (pad ∷ pad ∷ []) ≡ ok []
unfolding read_char read_pad
two_pads l =
    decode_quads-more (quad 2 l 0) pad (quad 2 l 1) [] (pad ∷ []) refl
      (decode_quads-stop (quad 2 l 1) pad [] refl)

one_pad : (l : ℕ) → decode_quads (quad 3 l 0) (pad ∷ []) ≡ ok []
unfolding read_char read_pad
one_pad l = decode_quads-stop (quad 3 l 0) pad [] refl

cons₂ : {a b : ℕ} {r s : Bytes} → a ≡ b → r ≡ s → a ∷ r ≡ b ∷ s
cons₂ h k = cc

decode_quads-b64encode : (b : Bytes) → IsBytes b → decode_quads start (b64encode b) ≡ ok b
unfolding b64encode
decode_quads-b64encode [] h = unfold decode_quads in refl
decode_quads-b64encode (a ∷ []) (ha, _) =
    first (a / 4) (omega arith) _ (second (a % 4 * 16) (omega arith) (a / 4) _ (two_pads _))
    ∙ ap ok (cons₂ (omega arith) refl)
decode_quads-b64encode (a ∷ b ∷ []) (ha, hb) =
    first (a / 4) (omega arith) _ (
      second (a % 4 * 16 + b / 16) (omega arith) (a / 4) _
        (third (b % 16 * 4) (omega arith) _ _ (one_pad _)))
    ∙ ap ok (cons₂ (omega arith) (cons₂ (omega arith) refl))
decode_quads-b64encode (a ∷ b ∷ c ∷ rest) (ha, (hb, (hc, hr))) =
    first (a / 4) (omega arith) _ (
      second (a % 4 * 16 + b / 16) (omega arith) (a / 4) _ (
        third (b % 16 * 4 + c / 64) (omega arith) _ _
          (fourth (c % 64) (omega arith) _ _ (decode_quads-b64encode rest hr))))
    ∙ ap ok (cons₂ (omega arith) (cons₂ (omega arith) (cons₂ (omega arith) refl)))

digit_char-lt : (n : ℕ) → n < 64 → ltb (digit_char n) 128 ≡ true
unfolding digit_char
digit_char-lt n h = ground arith

is_ascii-b64encode : (b : Bytes) → IsBytes b → is_ascii (b64encode b) ≡ true
unfolding is_ascii b64encode
is_ascii-b64encode [] h = refl
is_ascii-b64encode (a ∷ []) (ha, _) =
    rw (digit_char-lt (a / 4) (omega arith), digit_char-lt (a % 4 * 16) (omega arith))
is_ascii-b64encode (a ∷ b ∷ []) (ha, hb) = rw (
  digit_char-lt (a / 4) (omega arith),
  digit_char-lt (a % 4 * 16 + b / 16) (omega arith),
  digit_char-lt (b % 16 * 4) (omega arith),
)
is_ascii-b64encode (a ∷ b ∷ c ∷ rest) (ha, (hb, (hc, hr))) =
    rw
      (
        digit_char-lt (a / 4) (omega arith),
        digit_char-lt (a % 4 * 16 + b / 16) (omega arith),
        digit_char-lt (b % 16 * 4 + c / 64) (omega arith),
        digit_char-lt (c % 64) (omega arith),
      )
      (is_ascii-b64encode rest hr)

-- Every string of bytes is decoded from its base64 text.
pub b64decode-b64encode : (b : Bytes) → IsBytes b → b64decode (b64encode b) ≡ ok b
unfolding b64decode
b64decode-b64encode b h = rw (is_ascii-b64encode b h, decode_quads-b64encode b h)

pub b64encode-ne-nil : (b : Bytes) → 0 < length b → b64encode b ≢ []
unfolding b64encode
b64encode-ne-nil [] h e = absurd (omega arith)
b64encode-ne-nil (a ∷ []) h e = ground arith
b64encode-ne-nil (a ∷ b ∷ []) h e = ground arith
b64encode-ne-nil (a ∷ b ∷ c ∷ rest) h e = ground arith
