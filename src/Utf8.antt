-- ===== src/Utf8.antt =====
-- Python's `str.encode("utf-8")`, which the manifest encoding of sce/core.py applies to every text.
pub mod Decode
use sce.Base.{
  ℕ, ◌+◌, ◌≤◌, ◌/◌, ◌%◌, ◌≡◌, refl, ap, sym, ◌∙◌, ◌≢◌, ◌&&◌, [], ◌∷◌, ◌++◌, arith, ltb, leb,
  if◌then◌else◌,
}
use mathlib.Core.Path.{ap₂}
use sce.Error.{Result, ok, raise, ◌>>=◌, unicode_encode_error, >>=-eq-ok}
use sce.Value.{Bytes, Text}

-- The strict codec refuses the surrogates.
unfoldable pub utf8_char : ℕ → Result Bytes
utf8_char c =
    if ltb c 0x80
    then ok (c ∷ [])
    else if ltb c 0x800
    then ok ((0xc0 + c / 64) ∷ (0x80 + c % 64) ∷ [])
    else if leb 0xd800 c && leb c 0xdfff
    then raise unicode_encode_error
    else if ltb c 0x10000
    then ok ((0xe0 + c / 4096) ∷ (0x80 + c / 64 % 64) ∷ (0x80 + c % 64) ∷ [])
    else ok
        ((0xf0 + c / 262144) ∷ (0x80 + c / 4096 % 64) ∷ (0x80 + c / 64 % 64) ∷ (0x80 + c % 64) ∷ [])

unfoldable pub utf8 : Text → Result Bytes
unfolding utf8_char
utf8 [] = ok []
utf8 (c ∷ s) = do b ← utf8_char c; r ← utf8 s; ok (b ++ r)

-- The code of a character delimits itself.
utf8_char-cut :
    (c d : ℕ) {b e r s : Bytes}
    → utf8_char c ≡ ok b
    → utf8_char d ≡ ok e
    → b ++ r ≡ e ++ s
    → (c ≡ d) × (r ≡ s)
unfolding utf8_char
utf8_char-cut c d hb he h = ground arith

utf8_char-ne-nil : (c : ℕ) {b : Bytes} (r : Bytes) → utf8_char c ≡ ok b → b ++ r ≢ []
unfolding utf8_char
utf8_char-ne-nil c r hb e = ground arith

-- No two texts are encoded alike.
pub utf8-injective : (s t : Text) {b : Bytes} → utf8 s ≡ ok b → utf8 t ≡ ok b → s ≡ t
unfolding utf8
utf8-injective [] [] hs ht = refl
utf8-injective [] (d ∷ t) hs ht =
    let (x, hx, k) = >>=-eq-ok (utf8_char d) (λ x. utf8 t >>= λ r. ok (x ++ r)) ht in
    let (r, hr, e) = >>=-eq-ok (utf8 t) (λ r. ok (x ++ r)) k in
    absurd (utf8_char-ne-nil d r hx (cc))
utf8-injective (c ∷ s) [] hs ht =
    let (x, hx, k) = >>=-eq-ok (utf8_char c) (λ x. utf8 s >>= λ r. ok (x ++ r)) hs in
    let (r, hr, e) = >>=-eq-ok (utf8 s) (λ r. ok (x ++ r)) k in
    absurd (utf8_char-ne-nil c r hx (cc))
utf8-injective (c ∷ s) (d ∷ t) hs ht =
    let (x, hx, k) = >>=-eq-ok (utf8_char c) (λ x. utf8 s >>= λ r. ok (x ++ r)) hs in
    let (r, hr, e) = >>=-eq-ok (utf8 s) (λ r. ok (x ++ r)) k in
    let (y, hy, l) = >>=-eq-ok (utf8_char d) (λ x. utf8 t >>= λ r. ok (x ++ r)) ht in
    let (q, hq, f) = >>=-eq-ok (utf8 t) (λ r. ok (y ++ r)) l in
    let cut = utf8_char-cut c d {r = r} {s = q} hx hy (cc (e, f)) in
    ap₂ (λ a b. a ∷ b) cut.0 (utf8-injective s t hr (hq ∙ ap ok (sym cut.1)))

-- A code point between U+D800 and U+DFFF.
abbrev pub IsSurrogate : ℕ → Type 0
IsSurrogate c = (0xd800 ≤ c) × (c ≤ 0xdfff)

-- A text with a surrogate in it cannot be encoded.
pub utf8-surrogate :
    (s t : Text) (c : ℕ) → IsSurrogate c → utf8 (s ++ c ∷ t) ≡ raise unicode_encode_error
unfolding utf8
utf8-surrogate [] t c h = ground arith
utf8-surrogate (d ∷ s) t c h = ground (arith, utf8-surrogate s t c h)
