-- ===== src/Stream/Layout.antt =====
-- The header of the container of sce/stream.py, packed and parsed.
use sce.Base.{
  ℕ, ◌<◌, ◌^◌, ◌≡◌, refl, sym, ◌∙◌, ap, ◌∷◌, ◌++◌, arith, length, drop, take-append, drop-append,
  drop-drop, take-all, length-append, le→ltb, list_eq_refl,
}
use sce.Error.{ok, ok-injective, >>=-eq-ok}
use sce.Value.{Bytes}
use sce.Bytes.{big_endian, from_bytes, slice}
use sce.Bytes.Laws.{length-big_endian, from_bytes-big_endian}
use sce.Envelope.{pack_uint}
use sce.Envelope.Layout.{pack_bytes-exact}
use sce.Stream.{
  stream_magic, stream_version, pack_stream_header, StreamHeader, unpack_stream, parse_stream_bytes,
}

-- The header of a container.
unfoldable pub stream_header : StreamHeader → Bytes
stream_header f =
    stream_magic
    ++ stream_version
      ∷ (f.stream_id
          ++ (big_endian 8 f.num_segments
              ++ (big_endian 8 f.segment_size ++ big_endian 8 f.total_len)))

-- Fields that the header has room for.
pub record Fits (f : StreamHeader) : Type 0 where
  pub id_size : length f.stream_id ≡ 16
  pub count : f.num_segments < 256 ^ 8
  pub segment : f.segment_size < 256 ^ 8
  pub total : f.total_len < 256 ^ 8

pub pack_uint-eq-ok :
    (w n : ℕ) {r : Bytes} → pack_uint w n ≡ ok r → (n < 256 ^ w) × (r ≡ big_endian w n)
unfolding pack_uint
pack_uint-eq-ok w n h = ground arith

pub pack_stream_header-Fits :
    (f : StreamHeader) {h : Bytes}
    → length f.stream_id ≡ 16
    → pack_stream_header f.stream_id f.num_segments f.segment_size f.total_len ≡ ok h
    → Fits f × (h ≡ stream_header f)
unfolding pack_stream_header stream_header big_endian
pack_stream_header-Fits f size h =
    let (v, hv, h₁) = >>=-eq-ok (pack_uint 1 stream_version) _ h in
    let (n, hn, h₂) = >>=-eq-ok (pack_uint 8 f.num_segments) _ h₁ in
    let (z, hz, h₃) = >>=-eq-ok (pack_uint 8 f.segment_size) _ h₂ in
    let (t, ht, h₄) = >>=-eq-ok (pack_uint 8 f.total_len) _ h₃ in
    let (count, en) = pack_uint-eq-ok 8 f.num_segments hn in
    let (segment, ez) = pack_uint-eq-ok 8 f.segment_size hz in
    let (total, et) = pack_uint-eq-ok 8 f.total_len ht in
    let (one, ev) = pack_uint-eq-ok 1 stream_version hv in
    (
      record { id_size = size; count = count; segment = segment; total = total },
      sym (ok-injective h₄) ∙ (λ k.
          pack_bytes-exact 4 stream_magic refl k
          ++ (ev k ++ (pack_bytes-exact 16 f.stream_id size k ++ (en k ++ (ez k ++ et k))))),
    )

module _ (f : StreamHeader) (z : Fits f) where
  pub length-stream_header : length (stream_header f) ≡ 45
  unfolding stream_header
  length-stream_header = omega (
    arith,
    length-append f.stream_id _,
    length-append (big_endian 8 f.num_segments) _,
    length-append (big_endian 8 f.segment_size) (big_endian 8 f.total_len),
    length-big_endian 8 f.num_segments,
    length-big_endian 8 f.segment_size,
    length-big_endian 8 f.total_len,
    z.id_size,
  )

  -- What stands after each field.
  after_magic :
      drop 5 (stream_header f)
      ≡ f.stream_id
        ++ (big_endian 8 f.num_segments
            ++ (big_endian 8 f.segment_size ++ big_endian 8 f.total_len))
  unfolding stream_header
  after_magic = refl

  after_id :
      drop 21 (stream_header f)
      ≡ big_endian 8 f.num_segments ++ (big_endian 8 f.segment_size ++ big_endian 8 f.total_len)
  after_id =
      sym (drop-drop 5 16 (stream_header f))
      ∙ ap (drop 16) after_magic
      ∙ drop-append 16 f.stream_id _ z.id_size

  after_count : drop 29 (stream_header f) ≡ big_endian 8 f.segment_size ++ big_endian 8 f.total_len
  after_count =
      sym (drop-drop 21 8 (stream_header f))
      ∙ ap (drop 8) after_id
      ∙ drop-append 8 (big_endian 8 f.num_segments) _ (length-big_endian 8 f.num_segments)

  after_size : drop 37 (stream_header f) ≡ big_endian 8 f.total_len
  after_size =
      sym (drop-drop 29 8 (stream_header f))
      ∙ ap (drop 8) after_count
      ∙ drop-append 8 (big_endian 8 f.segment_size) _ (length-big_endian 8 f.segment_size)

  unpack_stream-stream_header : unpack_stream (stream_header f) ≡ f
  unfolding unpack_stream
  unpack_stream-stream_header = rw (
    after_magic,
    after_id,
    after_count,
    after_size,
    take-append 16 f.stream_id
        (big_endian 8 f.num_segments ++ (big_endian 8 f.segment_size ++ big_endian 8 f.total_len))
        z.id_size,
    take-append 8 (big_endian 8 f.num_segments)
        (big_endian 8 f.segment_size ++ big_endian 8 f.total_len)
        (length-big_endian 8 f.num_segments),
    take-append 8 (big_endian 8 f.segment_size) (big_endian 8 f.total_len)
        (length-big_endian 8 f.segment_size),
    take-all 8 (big_endian 8 f.total_len) (omega (arith, length-big_endian 8 f.total_len)),
    from_bytes-big_endian 8 f.num_segments z.count,
    from_bytes-big_endian 8 f.segment_size z.segment,
    from_bytes-big_endian 8 f.total_len z.total,
  )

  magic_of : slice 0 4 (stream_header f) ≡ stream_magic
  unfolding stream_header
  magic_of = refl

  version_of : from_bytes 0 (slice 4 5 (stream_header f)) ≡ stream_version
  unfolding stream_header from_bytes
  version_of = refl

  -- The parser reads back the fields that a header was packed from, whatever follows.
  pub parse_stream_bytes-stream_header :
      (rest : Bytes) → parse_stream_bytes (stream_header f ++ rest) ≡ ok f
  unfolding parse_stream_bytes
  parse_stream_bytes-stream_header rest = rw (
    take-append 45 (stream_header f) rest length-stream_header,
    magic_of,
    version_of,
    list_eq_refl stream_magic,
    le→ltb (length (stream_header f ++ rest)) 45
        (omega (arith, length-append (stream_header f) rest, length-stream_header)),
    unpack_stream-stream_header,
  )
