-- ===== src/Envelope/Accepts.antt =====
-- What `_parse` of sce/core.py accepts.
use sce.Base.{
  ℕ, ◌+◌, ◌^◌, ◌≤◌, ◌<◌, ◌≡◌, sym, ◌∙◌, ap, not, ◌++◌, arith, length, take, drop, take-append-drop,
  take-all, length-take, length-drop, ltb, ltb→le, ◌==◌, ==→eq, not-false, list_eq, list_eq→eq,
  All-take, All-drop,
}
use mathlib.Core.Path.{ap₂, subst}
use sce.Error.{ok, raise_if-eq-ok}
use sce.Value.{Bytes}
use sce.Bytes.{big_endian, from_bytes, slice, IsBytes}
use sce.Bytes.Slices.{one_byte, cut, length-slice}
use sce.Bytes.Laws.{big_endian-from_bytes, from_bytes-lt}
use sce.Envelope.{magic, version, Parsed, unpack, parse_bytes}
use sce.Envelope.Layout.{header, envelope, fields_of, IsSized}

-- The tests that a parsed envelope passed.
record Passed (s : Bytes) (f : Parsed) : Type 0 where
  enough : 69 ≤ length s
  same_magic : (unpack s).magic_field ≡ magic
  same_version : (unpack s).version_field ≡ version
  same_length : length (unpack s).ciphertext ≡ from_bytes 0 (slice 65 69 s)
  tagged : 16 ≤ length (unpack s).ciphertext
  fields : unpack s ≡ f

parse_bytes-Passed : (s : Bytes) {f : Parsed} → parse_bytes s ≡ ok f → Passed s f
unfolding parse_bytes
parse_bytes-Passed s h =
    let (t₁, h₁) = raise_if-eq-ok (ltb (length s) 69) _ _ h in
    let (t₂, h₂) = raise_if-eq-ok (not (list_eq (unpack s).magic_field magic)) _ _ h₁ in
    let (t₃, h₃) = raise_if-eq-ok (not ((unpack s).version_field == version)) _ _ h₂ in
    let (t₄, h₄) =
      raise_if-eq-ok (not (length (unpack s).ciphertext == from_bytes 0 (slice 65 69 s))) _ _ h₃ in
    let (t₅, h₅) = raise_if-eq-ok (ltb (length (unpack s).ciphertext) 16) _ _ h₄ in
    record {
      enough = ltb→le (length s) 69 t₁;
      same_magic = list_eq→eq _ _ (not-false _ t₂);
      same_version = ==→eq _ _ (not-false _ t₃);
      same_length = ==→eq _ _ (not-false _ t₄);
      tagged = ltb→le (length (unpack s).ciphertext) 16 t₅;
      fields = cc;
    }

-- What the parser accepts is an envelope of the fields that it returns.
pub record IsEnvelope (s : Bytes) (f : Parsed) : Type 0 where
  pub sized : IsSized f.nonce f.salt f.commitment
  pub tagged : 16 ≤ length f.ciphertext
  pub framed : length f.ciphertext < 2 ^ 32
  pub layout : s ≡ envelope f.nonce f.salt f.commitment f.ciphertext
  pub fields : f ≡ fields_of f.nonce f.salt f.commitment f.ciphertext

header_cut :
    (p : Bytes)
    → length p ≡ 65
    → p ≡ slice 0 4 p ++ (slice 4 5 p ++ (slice 5 17 p ++ (slice 17 33 p ++ slice 33 65 p)))
header_cut p n =
    let whole : slice 33 65 p ≡ drop 33 p =
      take-all 32 (drop 33 p) (omega (arith, length-drop 33 p)) in
    cut 0 4 p (omega arith)
    ∙ ap (λ r. slice 0 4 p ++ r)
        (cut 4 5 p (omega arith)
          ∙ ap (λ r. slice 4 5 p ++ r)
              (cut 5 17 p (omega arith)
                ∙ ap (λ r. slice 5 17 p ++ r)
                    (cut 17 33 p (omega arith) ∙ ap (λ r. slice 17 33 p ++ r) (sym whole))))

module _ (s : Bytes) (long : 69 ≤ length s) where
  length-prefix : length (take 65 s) ≡ 65
  length-prefix = omega (arith, length-take 65 s)

  prefix_header :
      (unpack s).magic_field ≡ magic
      → (unpack s).version_field ≡ version
      → take 65 s ≡ header (unpack s).nonce (unpack s).salt (unpack s).commitment
  unfolding unpack header
  prefix_header m v =
      let p = take 65 s in
      let one = one_byte (slice 4 5 p) 4 (length-slice 4 5 p (omega (arith, length-prefix))) v in
      header_cut p length-prefix
      ∙ ap₂ (λ a b. a ++ (b ++ (slice 5 17 p ++ (slice 17 33 p ++ slice 33 65 p)))) m one

  sizes : IsSized (unpack s).nonce (unpack s).salt (unpack s).commitment
  unfolding unpack
  sizes = record {
    nonce_size = length-slice 5 17 (take 65 s) (omega (arith, length-prefix));
    salt_size = length-slice 17 33 (take 65 s) (omega (arith, length-prefix));
    commitment_size = length-slice 33 65 (take 65 s) (omega (arith, length-prefix));
  }

  module _ (valid : IsBytes s)
      (e : length (unpack s).ciphertext ≡ from_bytes 0 (slice 65 69 s)) where
    four : length (slice 65 69 s) ≡ 4
    four = length-slice 65 69 s long

    frame_IsBytes : IsBytes (slice 65 69 s)
    frame_IsBytes = All-take _ 4 (drop 65 s) (All-drop _ 65 s valid)

    rest_body : drop 65 s ≡ big_endian 4 (length (unpack s).ciphertext) ++ (unpack s).ciphertext
    unfolding unpack
    rest_body =
        cut 65 69 s (omega arith)
        ∙ ap (λ r. r ++ drop 69 s)
            (sym (big_endian-from_bytes 0 (slice 65 69 s) frame_IsBytes)
              ∙ ap₂ big_endian four (sym e))

    frame_bound : length (unpack s).ciphertext < 2 ^ 32
    frame_bound =
        omega (arith, e, from_bytes-lt (slice 65 69 s) frame_IsBytes, ap (λ (w : ℕ). 256 ^ w) four)

unpack-IsEnvelope : (s : Bytes) {f : Parsed} → IsBytes s → Passed s f → IsEnvelope s (unpack s)
unfolding unpack
unpack-IsEnvelope s valid t = record {
  sized = sizes s t.enough;
  tagged = t.tagged;
  framed = frame_bound s t.enough valid t.same_length;
  layout =
      sym (take-append-drop 65 s)
      ∙ (unfold envelope in ap₂ (λ a b. a ++ b) head (rest_body s t.enough valid t.same_length));
  fields = λ i. record (unpack s) {
    prefix = head i;
    magic_field = t.same_magic i;
    version_field = t.same_version i;
  };
}
  where
    head : take 65 s ≡ header (unpack s).nonce (unpack s).salt (unpack s).commitment
    head = prefix_header s t.enough t.same_magic t.same_version

-- A string of bytes that the parser accepts is the envelope of the fields it returns.
pub parse_bytes-IsEnvelope :
    (s : Bytes) (f : Parsed) → IsBytes s → parse_bytes s ≡ ok f → IsEnvelope s f
parse_bytes-IsEnvelope s f valid h =
    let t = parse_bytes-Passed s h in subst (IsEnvelope s) t.fields (unpack-IsEnvelope s valid t)

-- The fields of a parsed envelope have the sizes of the header.
pub parse_bytes-sizes :
    (s : Bytes) {f : Parsed} → parse_bytes s ≡ ok f → IsSized f.nonce f.salt f.commitment
parse_bytes-sizes s h =
    let t = parse_bytes-Passed s h in
    subst (λ (f : Parsed). IsSized f.nonce f.salt f.commitment) t.fields (sizes s t.enough)

pub parse_bytes-enough : (s : Bytes) {f : Parsed} → parse_bytes s ≡ ok f → 69 ≤ length s
parse_bytes-enough s h = (parse_bytes-Passed s h).enough

-- The magic, the version and the size of the ciphertext of a parsed envelope.
pub parse_bytes-public :
    (s : Bytes) {f : Parsed}
    → parse_bytes s ≡ ok f
    → (f.magic_field ≡ magic) × (f.version_field ≡ version) × (length s ≡ 69 + length f.ciphertext)
parse_bytes-public s h =
    let t = parse_bytes-Passed s h in
    subst
      (λ (f : Parsed).
        (f.magic_field ≡ magic)
        × (f.version_field ≡ version)
        × (length s ≡ 69 + length f.ciphertext))
      t.fields
      (t.same_magic, t.same_version, (unfold unpack in omega (arith, length-drop 69 s, t.enough)))
