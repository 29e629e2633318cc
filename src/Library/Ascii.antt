-- ===== src/Library/Ascii.antt =====
-- Texts of ASCII, which UTF-8 and the normal form of `unicodedata` leave as they are.
use sce.Base.{◌≡◌, refl, sym, ◌∙◌, true, [], ◌∷◌, ◌<◌, arith, All}
use sce.Error.{ok}
use sce.Value.{Text}
use sce.Utf8.{utf8_char, utf8}
use sce.Utf8.Decode.{IsText}
use sce.Base64.{is_ascii}
use sce.Library.{Primitives, AsciiNormal}

abbrev pub IsAscii : Text → Type 0
IsAscii = All (λ c. c < 128)

pub is_ascii-IsAscii : (t : Text) → is_ascii t ≡ true → IsAscii t
unfolding is_ascii
is_ascii-IsAscii [] h = tt
is_ascii-IsAscii (c ∷ t) h = (ground arith, is_ascii-IsAscii t (ground arith))

pub IsAscii-IsText : (t : Text) → IsAscii t → IsText t
IsAscii-IsText [] h = tt
IsAscii-IsText (c ∷ t) h = (omega (arith, h.0), IsAscii-IsText t h.1)

pub utf8-IsAscii : (t : Text) → IsAscii t → utf8 t ≡ ok t
unfolding utf8 utf8_char
utf8-IsAscii [] h = refl
utf8-IsAscii (c ∷ t) h = ground (arith, h.0, utf8-IsAscii t h.1)

-- No two of them have the same normal form.
pub nfc-IsAscii-injective :
    {p : Primitives}
    → AsciiNormal p
    → (s t : Text) → IsAscii s
    → IsAscii t
    → p.nfc s ≡ p.nfc t
    → s ≡ t
nfc-IsAscii-injective a s t hs ht h = sym (a.nfc_ascii s hs) ∙ h ∙ a.nfc_ascii t ht
