-- ===== src/Utf8/Decode.antt =====
-- Python's `bytes.decode()`, strict UTF-8, which the serving adapter of examples/serving_adapter.py
-- reads a state with.
use sce.Base.{
  ℕ, suc, ◌+◌, ◌-◌, ◌*◌, ◌/◌, ◌%◌, ◌<◌, ◌≤◌, ◌≡◌, refl, ◌&&◌, ◌||◌, [], ◌∷◌, ◌++◌, All-append,
  arith, ltb, leb, ◌⊎◌, inl, inr, ◌==◌, if◌then◌else◌, All,
}
use sce.Error.{Result, ok, raise, ◌>>=◌, unicode_decode_error, >>=-eq-ok, ok-injective}
use sce.Value.{Bytes, Text}
use sce.Bytes.{IsBytes}
use sce.Utf8.{utf8_char, utf8}

-- Between two characters, or inside one: the bytes still to come, the bits read, and the least
-- code point that a sequence of this length may stand for.
pub data Pending : Type 0 where
  ready : Pending
  inside : ℕ → ℕ → ℕ → Pending

-- The first byte of a character.
unfoldable pub lead_byte : ℕ → Result (Pending × Text)
lead_byte b =
    if ltb b 0x80
    then ok (ready, b ∷ [])
    else if leb 0xc0 b && ltb b 0xe0
    then ok (inside 1 (b - 0xc0) 0x80, [])
    else if leb 0xe0 b && ltb b 0xf0
    then ok (inside 2 (b - 0xe0) 0x800, [])
    else if leb 0xf0 b && ltb b 0xf8
    then ok (inside 3 (b - 0xf0) 0x10000, [])
    else raise unicode_decode_error

-- A complete sequence is a character unless it is too long for it, a surrogate or out of range.
unfoldable pub complete : ℕ → ℕ → Result (Pending × Text)
complete c least =
    if ltb c least || (leb 0xd800 c && leb c 0xdfff) || leb 0x110000 c
    then raise unicode_decode_error
    else ok (ready, c ∷ [])

-- A later byte of a character has the top bits 10.
unfoldable pub next_byte : ℕ → ℕ → ℕ → ℕ → Result (Pending × Text)
unfolding complete
next_byte more bits least b =
    if leb 0x80 b && ltb b 0xc0
    then (if more == 1
        then complete (bits * 64 + (b - 0x80)) least
        else ok (inside (more - 1) (bits * 64 + (b - 0x80)) least, []))
    else raise unicode_decode_error

unfoldable pub decode_byte : Pending → ℕ → Result (Pending × Text)
unfolding lead_byte next_byte
decode_byte ready b = lead_byte b
decode_byte (inside more bits least) b = next_byte more bits least b

-- `b.decode()`
unfoldable pub utf8_decode : Pending → Bytes → Result Text
unfolding decode_byte
utf8_decode ready [] = ok []
utf8_decode (inside more bits least) [] = raise unicode_decode_error
utf8_decode at (b ∷ bs) = do out ← decode_byte at b; rest ← utf8_decode out.0 bs; ok (out.1 ++ rest)

-- A code point of a str.
abbrev pub IsText : Text → Type 0
IsText = All (λ c. c < 0x110000)

utf8_decode-step :
    (at : Pending) (b : ℕ) (next : Pending) (out : Text) (bs : Bytes) {s : Text}
    → decode_byte at b ≡ ok (next, out)
    → utf8_decode next bs ≡ ok s
    → utf8_decode at (b ∷ bs) ≡ ok (out ++ s)
unfolding utf8_decode
utf8_decode-step ready b next out bs h k = rw (h, k)
utf8_decode-step (inside more bits least) b next out bs h k = rw (h, k)

-- The code of a character by its length.
utf8_char-cases :
    (c : ℕ) {b : Bytes}
    → utf8_char c ≡ ok b
    → ((c < 0x80) × (b ≡ c ∷ []))
      ⊎ ((0x80 ≤ c) × (c < 0x800) × (b ≡ (0xc0 + c / 64) ∷ (0x80 + c % 64) ∷ []))
      ⊎ ((0x800 ≤ c)
          × (c < 0x10000)
          × ((c < 0xd800) ⊎ (0xdfff < c))
          × (b ≡ (0xe0 + c / 4096) ∷ (0x80 + c / 64 % 64) ∷ (0x80 + c % 64) ∷ []))
      ⊎ ((0x10000 ≤ c)
          × (b
              ≡ (0xf0 + c / 262144)
                ∷ (0x80 + c / 4096 % 64)
                ∷ (0x80 + c / 64 % 64)
                ∷ (0x80 + c % 64)
                ∷ []))
unfolding utf8_char
utf8_char-cases c e = ground arith

lead_one : (c : ℕ) → c < 0x80 → decode_byte ready c ≡ ok (ready, c ∷ [])
unfolding decode_byte lead_byte
lead_one c h = ground arith

lead_two : (x : ℕ) → x < 32 → decode_byte ready (0xc0 + x) ≡ ok (inside 1 x 0x80, [])
unfolding decode_byte lead_byte
lead_two x h = ground arith

lead_three : (x : ℕ) → x < 16 → decode_byte ready (0xe0 + x) ≡ ok (inside 2 x 0x800, [])
unfolding decode_byte lead_byte
lead_three x h = ground arith

lead_four : (x : ℕ) → x < 8 → decode_byte ready (0xf0 + x) ≡ ok (inside 3 x 0x10000, [])
unfolding decode_byte lead_byte
lead_four x h = ground arith

module _ (bits least x : ℕ) (h : x < 64) where
  inner :
      (more : ℕ)
      → decode_byte (inside (suc (suc more)) bits least) (0x80 + x)
        ≡ ok (inside (suc more) (bits * 64 + x) least, [])
  unfolding decode_byte next_byte
  inner more = ground arith

  last :
      (c : ℕ)
      → bits * 64 + x ≡ c
      → least ≤ c
      → (c < 0xd800) ⊎ (0xdfff < c)
      → c < 0x110000
      → decode_byte (inside 1 bits least) (0x80 + x) ≡ ok (ready, c ∷ [])
  unfolding decode_byte next_byte complete
  last c e lo ns hi = ground arith

-- A character is decoded from its code, whatever follows.
utf8_decode-utf8_char :
    (c : ℕ) (bs : Bytes) {b : Bytes} {s : Text}
    → c < 0x110000
    → utf8_char c ≡ ok b
    → utf8_decode ready bs ≡ ok s
    → utf8_decode ready (b ++ bs) ≡ ok (c ∷ s)
utf8_decode-utf8_char c bs h e k = elim (utf8_char-cases c e) [
  | inl (hc, eb) ↦ rw eb (utf8_decode-step ready c ready _ bs (lead_one c hc) k)
  | inr (inl (lo, hi, eb)) ↦ rw eb (
      utf8_decode-step ready _ (inside 1 (c / 64) 0x80) [] _ (lead_two (c / 64) (omega arith)) (
        utf8_decode-step (inside 1 (c / 64) 0x80) _ ready _ bs
          (last (c / 64) 0x80 (c % 64) (omega arith) c (omega arith) lo (inl (omega arith)) h) k))
  | inr (inr (inl (lo, hi, ns, eb))) ↦ rw eb (
      utf8_decode-step ready _ (inside 2 (c / 4096) 0x800) [] _
        (lead_three (c / 4096) (omega arith))
        (utf8_decode-step (inside 2 (c / 4096) 0x800) _ _ [] _
          (inner (c / 4096) 0x800 (c / 64 % 64) (omega arith) 0)
          (utf8_decode-step (inside 1 (c / 4096 * 64 + c / 64 % 64) 0x800) _ ready _ bs
            (last _ 0x800 (c % 64) (omega arith) c (omega arith) lo ns h) k)))
  | inr (inr (inr (lo, eb))) ↦ rw eb (
      utf8_decode-step ready _ (inside 3 (c / 262144) 0x10000) [] _
        (lead_four (c / 262144) (omega arith))
        (utf8_decode-step (inside 3 (c / 262144) 0x10000) _ _ [] _
          (inner (c / 262144) 0x10000 (c / 4096 % 64) (omega arith) 1)
          (utf8_decode-step (inside 2 (c / 262144 * 64 + c / 4096 % 64) 0x10000) _ _ [] _
            (inner _ 0x10000 (c / 64 % 64) (omega arith) 0)
            (utf8_decode-step
              (inside 1 ((c / 262144 * 64 + c / 4096 % 64) * 64 + c / 64 % 64) 0x10000) _ ready _ bs
              (last _ 0x10000 (c % 64) (omega arith) c (omega arith) lo (inr (omega arith)) h) k))))
]

-- What a text of code points is encoded to is decoded to the text.
pub utf8_decode-utf8 :
    (s : Text) {b : Bytes} → IsText s → utf8 s ≡ ok b → utf8_decode ready b ≡ ok s
unfolding utf8
utf8_decode-utf8 [] h e = rw (← ok-injective e) (unfold utf8_decode in refl)
utf8_decode-utf8 (c ∷ s) (hc, hs) e =
    let (x, hx, k) = >>=-eq-ok (utf8_char c) (λ x. utf8 s >>= λ r. ok (x ++ r)) e in
    let (r, hr, f) = >>=-eq-ok (utf8 s) (λ r. ok (x ++ r)) k in
    rw (← ok-injective f) (utf8_decode-utf8_char c r hc hx (utf8_decode-utf8 s hs hr))

utf8_char-IsBytes : (c : ℕ) {b : Bytes} → c < 0x110000 → utf8_char c ≡ ok b → IsBytes b
utf8_char-IsBytes c h e = elim (utf8_char-cases c e) [
  | inl (hc, eb) ↦ rw eb (omega arith)
  | inr (inl (lo, hi, eb)) ↦ rw eb (omega arith)
  | inr (inr (inl (lo, hi, ns, eb))) ↦ rw eb (omega arith)
  | inr (inr (inr (lo, eb))) ↦ rw eb (omega arith)
]

pub utf8-IsBytes : (s : Text) {b : Bytes} → IsText s → utf8 s ≡ ok b → IsBytes b
unfolding utf8
utf8-IsBytes [] h e = rw (← ok-injective e) tt
utf8-IsBytes (c ∷ s) (hc, hs) e =
    let (x, hx, k) = >>=-eq-ok (utf8_char c) (λ x. utf8 s >>= λ r. ok (x ++ r)) e in
    let (r, hr, f) = >>=-eq-ok (utf8 s) (λ r. ok (x ++ r)) k in
    rw (← ok-injective f) (All-append _ x r (utf8_char-IsBytes c hc hx) (utf8-IsBytes s hs hr))
