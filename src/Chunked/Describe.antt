-- ===== src/Chunked/Describe.antt =====
-- `describe_stream` of sce/stream.py.
use sce.Base.{ℕ, ◌+◌, ◌*◌, ◌≡◌, refl, sym, ◌∙◌, ap, length}
use sce.Error.{ok, ok-injective}
use sce.Value.{Bytes, Value, bytes}
use sce.Library.{Primitives, Documented}
use sce.Envelope.{require_envelope_bytes}
use sce.Seal.{require_state}
use sce.Stream.{
  stream_magic, stream_version, check_segment_size, bounds, parse_stream_header, parse_stream_bytes,
  describe_stream,
}
use sce.Stream.Layout.{parse_stream_bytes-stream_header}
use sce.Chunked.{seal_state_chunked}
use sce.Chunked.RoundTrip.{header_of, seal_state_chunked-ChunkedRun, length-seal_state_chunked}

-- `describe_stream` tells of a container that `seal_state_chunked` returned the number of segments,
-- the segment size and the lengths of the state and of the container, with primitives as
-- documented.
pub describe_stream-seal_state_chunked :
    (p : Primitives)
    → Documented p
    → (calls : ℕ) (state manifest secret epoch context segment_size : Value) {container s : Bytes}
      {size after : ℕ}
    → require_state state ≡ ok s
    → check_segment_size segment_size ≡ ok size
    → seal_state_chunked p calls state manifest secret epoch context segment_size
      ≡ ok (container, after)
    → describe_stream (bytes container)
      ≡ ok (record {
        magic_field = stream_magic;
        version_field = stream_version;
        num_segments = length (bounds (length s) size);
        segment_size = size;
        total_plaintext_bytes = length s;
        total_container_bytes = 45 + length s + 93 * length (bounds (length s) size);
      })
unfolding describe_stream parse_stream_header require_envelope_bytes
describe_stream-seal_state_chunked p d calls state manifest secret epoch context segment_size
      {s = s} {size = size} hs hz h =
    let r =
      seal_state_chunked-ChunkedRun p d calls state manifest secret epoch context segment_size h in
    let f = header_of p calls r.s r.size in
    let same_s : r.s ≡ s = ok-injective (sym r.is_state ∙ hs) in
    let same_z : r.size ≡ size = ok-injective (sym r.is_size ∙ hz) in
    let parsed : _ ≡ ok f =
      ap parse_stream_bytes r.layout ∙ parse_stream_bytes-stream_header f r.fits r.out in
    rw
      (
        parsed,
        length-seal_state_chunked p d calls state manifest secret epoch context segment_size hs hz
            h,
        same_s,
        same_z,
      )
      refl
