-- ===== src/Bytes/Slices.antt =====
-- Slices of byte strings.
use sce.Base.{
  ℕ, ◌+◌, ◌-◌, ◌≤◌, ◌<◌, ◌^◌, ◌≡◌, sym, ◌∙◌, ap, [], ◌∷◌, ◌++◌, arith, length, drop,
  take-append-drop, drop-drop, length-take, length-drop, All-take, All-drop,
}
use sce.Value.{Bytes}
use sce.Bytes.{big_endian, from_bytes, slice, IsBytes}
use sce.Bytes.Laws.{big_endian-from_bytes, from_bytes-lt}

pub one_byte : (b : Bytes) (v : ℕ) → length b ≡ 1 → from_bytes 0 b ≡ v → b ≡ v ∷ []
unfolding from_bytes
one_byte [] v h e = absurd (omega arith)
one_byte (x ∷ []) v h e = ap (λ y. y ∷ []) (omega arith)
one_byte (x ∷ y ∷ b) v h e = absurd (omega arith)

-- A list is cut at two places.
pub cut : (lo hi : ℕ) (b : Bytes) → lo ≤ hi → drop lo b ≡ slice lo hi b ++ drop hi b
cut lo hi b h =
    let e : lo + (hi - lo) ≡ hi = omega arith in
    sym (take-append-drop (hi - lo) (drop lo b))
    ∙ ap (λ r. slice lo hi b ++ r) (drop-drop lo (hi - lo) b ∙ ap (λ k. drop k b) e)

pub length-slice : (lo hi : ℕ) (b : Bytes) → hi ≤ length b → length (slice lo hi b) ≡ hi - lo
length-slice lo hi b h = omega (arith, length-take (hi - lo) (drop lo b), length-drop lo b)

-- A field of w bytes within a string of bytes is the number that it reads as.
module _ (w lo : ℕ) (b : Bytes) (valid : IsBytes b) (enough : lo + w ≤ length b) where
  abbrev field : Bytes
  field = slice lo (lo + w) b

  length-field : length field ≡ w
  length-field = length-slice lo (lo + w) b enough ∙ omega arith

  field-IsBytes : IsBytes field
  field-IsBytes = All-take _ (lo + w - lo) (drop lo b) (All-drop _ lo b valid)

  pub slice-big_endian : field ≡ big_endian w (from_bytes 0 field)
  slice-big_endian =
      sym (big_endian-from_bytes 0 field field-IsBytes)
      ∙ ap (λ k. big_endian k (from_bytes 0 field)) length-field

  pub from_bytes_slice-lt : from_bytes 0 field < 256 ^ w
  from_bytes_slice-lt =
      omega (arith, from_bytes-lt field field-IsBytes, ap (λ (k : ℕ). 256 ^ k) length-field)
