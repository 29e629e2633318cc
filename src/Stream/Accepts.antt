-- ===== src/Stream/Accepts.antt =====
-- What `_parse_stream_header` of sce/stream.py accepts.
use sce.Base.{
  ◌≤◌, ◌≡◌, sym, ◌∙◌, ap, not, ◌++◌, arith, length, take, drop, take-all, length-take, length-drop,
  ltb, ltb→le, ◌==◌, ==→eq, not-false, list_eq, list_eq→eq, All-take,
}
use mathlib.Core.Path.{subst}
use sce.Error.{ok, ok-injective, raise_if-eq-ok}
use sce.Value.{Bytes}
use sce.Bytes.{big_endian, from_bytes, slice, IsBytes}
use sce.Bytes.Slices.{one_byte, cut, length-slice, slice-big_endian, from_bytes_slice-lt}
use sce.Stream.{stream_magic, stream_version, StreamHeader, unpack_stream, parse_stream_bytes}
use sce.Stream.Layout.{stream_header, Fits}

-- The tests that a parsed header passed.
record Passed (s : Bytes) (f : StreamHeader) : Type 0 where
  enough : 45 ≤ length s
  same_magic : slice 0 4 (take 45 s) ≡ stream_magic
  same_version : from_bytes 0 (slice 4 5 (take 45 s)) ≡ stream_version
  fields : unpack_stream (take 45 s) ≡ f

parse_stream_bytes-Passed :
    (s : Bytes) {f : StreamHeader} → parse_stream_bytes s ≡ ok f → Passed s f
unfolding parse_stream_bytes
parse_stream_bytes-Passed s h =
    let (t₁, h₁) = raise_if-eq-ok (ltb (length s) 45) _ _ h in
    let (t₂, h₂) = raise_if-eq-ok (not (list_eq (slice 0 4 (take 45 s)) stream_magic)) _ _ h₁ in
    let (t₃, h₃) =
      raise_if-eq-ok (not (from_bytes 0 (slice 4 5 (take 45 s)) == stream_version)) _ _ h₂ in
    record {
      enough = ltb→le (length s) 45 t₁;
      same_magic = list_eq→eq _ _ (not-false _ t₂);
      same_version = ==→eq _ _ (not-false _ t₃);
      fields = ok-injective h₃;
    }

module _ (h : Bytes) (n : length h ≡ 45) (valid : IsBytes h) where
  unpack-Fits : Fits (unpack_stream h)
  unfolding unpack_stream
  unpack-Fits = record {
    id_size = length-slice 5 21 h (omega (arith, n));
    count = from_bytes_slice-lt 8 21 h valid (omega (arith, n));
    segment = from_bytes_slice-lt 8 29 h valid (omega (arith, n));
    total = from_bytes_slice-lt 8 37 h valid (omega (arith, n));
  }

  fields_cut :
      drop 5 h
      ≡ slice 5 21 h
        ++ (big_endian 8 (from_bytes 0 (slice 21 29 h))
            ++ (big_endian 8 (from_bytes 0 (slice 29 37 h))
                ++ big_endian 8 (from_bytes 0 (slice 37 45 h))))
  fields_cut =
      let last : slice 37 45 h ≡ drop 37 h =
        take-all 8 (drop 37 h) (omega (arith, length-drop 37 h, n)) in
      cut 5 21 h (omega arith)
      ∙ ap (λ r. slice 5 21 h ++ r)
          (cut 21 29 h (omega arith) ∙ (λ k.
            slice-big_endian 8 21 h valid (omega (arith, n)) k
            ++ (cut 29 37 h (omega arith) ∙ (λ j.
                  slice-big_endian 8 29 h valid (omega (arith, n)) j
                  ++ (sym last ∙ slice-big_endian 8 37 h valid (omega (arith, n))) j))
                k))

  unpack-stream_header :
      slice 0 4 h ≡ stream_magic
      → from_bytes 0 (slice 4 5 h) ≡ stream_version
      → h ≡ stream_header (unpack_stream h)
  unfolding unpack_stream stream_header
  unpack-stream_header m v =
      let one = one_byte (slice 4 5 h) 1 (length-slice 4 5 h (omega (arith, n))) v in
      cut 0 4 h (omega arith)
      ∙ (λ k. m k ++ (cut 4 5 h (omega arith) ∙ (λ j. one j ++ fields_cut j)) k)

-- A string of bytes that the parser of the header accepts begins with the header of the fields
-- it returns.
pub parse_stream_bytes-Fits :
    (s : Bytes) (f : StreamHeader)
    → IsBytes s
    → parse_stream_bytes s ≡ ok f
    → Fits f × (take 45 s ≡ stream_header f)
parse_stream_bytes-Fits s f valid h =
    let t = parse_stream_bytes-Passed s h in
    let n : length (take 45 s) ≡ 45 = omega (arith, length-take 45 s, t.enough) in
    let whole = All-take _ 45 s valid in
    subst (λ (f : StreamHeader). Fits f × (take 45 s ≡ stream_header f)) t.fields
      (
        unpack-Fits (take 45 s) n whole,
        unpack-stream_header (take 45 s) n whole t.same_magic t.same_version,
      )
