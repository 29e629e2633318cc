-- ===== src/Stream.antt =====
-- The layout of the chunked container of sce/stream.py: the context of a segment, the bounds of the
-- segments, the header, and `describe_stream`.
pub mod Layout
pub mod Accepts
pub mod Context
pub mod Bounds
use sce.Base.{
  ℕ, zero, suc, ◌+◌, ◌*◌, min, List, [], ◌∷◌, ◌++◌, not, ltb, ◌==◌, list_eq, if◌then◌else◌, length,
  take, codes,
}
use sce.Error.{
  Result, ok, raise, ◌>>=◌, ◌>>◌, raise_if, sce_error, malformed_envelope, bad_segment_size,
  segment_size_too_large, short_stream_header, bad_stream_magic, bad_stream_version, not_bytes,
}
use sce.Value.{Bytes, Value, pos, int, type_name}
use sce.Bytes.{to_bytes, from_bytes, slice, stream_lp}
use sce.Envelope.{pack_bytes, pack_uint, require_envelope_bytes, value_length}
use sce.Seal.{max_state}

-- `_STREAM_MAGIC`
abbrev pub stream_magic : Bytes
stream_magic = codes "SCES"

-- `_STREAM_VERSION`
abbrev pub stream_version : ℕ
stream_version = 1

-- `_STREAM_DOMAIN`
abbrev pub stream_domain : Bytes
stream_domain = codes "LDDP-SCE|stream-v1"

-- `_STREAM_ID_LEN`
abbrev pub stream_id_len : ℕ
stream_id_len = 16

-- `_STREAM_HEADER.size`
abbrev pub stream_header_size : ℕ
stream_header_size = 45

-- `_SEG_FRAME.size`
abbrev pub seg_frame_size : ℕ
seg_frame_size = 8

-- `DEFAULT_SEGMENT_SIZE`
abbrev pub default_segment_size : ℕ
default_segment_size = 64 * 1024 * 1024

-- `_seg_context`
unfoldable pub seg_context : Bytes → Bytes → ℕ → ℕ → ℕ → ℕ → Result Bytes
seg_context user_context stream_id index num_segments total_len segment_size = do
  u ← stream_lp user_context
  s ← stream_lp stream_id
  i ← to_bytes 8 index
  n ← to_bytes 8 num_segments
  t ← to_bytes 8 total_len
  z ← to_bytes 8 segment_size
  ok (stream_domain ++ (u ++ (s ++ (i ++ (n ++ (t ++ z))))))

-- The check of `segment_size`. A bool is no `int` here.
unfoldable pub check_segment_size : Value → Result ℕ
check_segment_size (int (pos n)) = do
  raise_if (n == 0) (sce_error bad_segment_size)
  raise_if (ltb max_state n) (sce_error segment_size_too_large)
  ok n
check_segment_size v = raise (sce_error bad_segment_size)

-- `[(o, min(o + segment_size, total_len)) for o in range(o, total_len, segment_size)]`, on fuel.
unfoldable pub ranges : ℕ → ℕ → ℕ → ℕ → List (ℕ × ℕ)
ranges zero o total_len segment_size = []
ranges (suc fuel) o total_len segment_size =
    let rest = ranges fuel (o + segment_size) total_len segment_size in
    if ltb o total_len then (o, min (o + segment_size) total_len) ∷ rest else []

-- `bounds`: the step of the range is positive, so that it has at most `total_len` elements.
unfoldable pub bounds : ℕ → ℕ → List (ℕ × ℕ)
unfolding ranges
bounds total_len segment_size =
    if total_len == 0 then (0, 0) ∷ [] else ranges total_len 0 total_len segment_size

-- `_STREAM_HEADER.pack(_STREAM_MAGIC, _STREAM_VERSION, …)`
unfoldable pub pack_stream_header : Bytes → ℕ → ℕ → ℕ → Result Bytes
pack_stream_header stream_id num_segments segment_size total_len = do
  v ← pack_uint 1 stream_version
  n ← pack_uint 8 num_segments
  z ← pack_uint 8 segment_size
  t ← pack_uint 8 total_len
  ok (pack_bytes 4 stream_magic ++ (v ++ (pack_bytes stream_id_len stream_id ++ (n ++ (z ++ t)))))

-- `_SEG_FRAME.pack(n)`
unfoldable pub pack_seg_frame : ℕ → Result Bytes
pack_seg_frame n = pack_uint seg_frame_size n

-- What `_parse_stream_header` returns.
pub record StreamHeader : Type 0 where
  pub stream_id : Bytes
  pub num_segments : ℕ
  pub segment_size : ℕ
  pub total_len : ℕ

-- `_STREAM_HEADER.unpack` after the magic and the version
unfoldable pub unpack_stream : Bytes → StreamHeader
unpack_stream h = record {
  stream_id = slice 5 21 h;
  num_segments = from_bytes 0 (slice 21 29 h);
  segment_size = from_bytes 0 (slice 29 37 h);
  total_len = from_bytes 0 (slice 37 45 h);
}

-- `_parse_stream_header` once the value is known to be bytes
unfoldable pub parse_stream_bytes : Bytes → Result StreamHeader
parse_stream_bytes container = do
  raise_if (ltb (length container) stream_header_size) (malformed_envelope short_stream_header)
  let h = take stream_header_size container
  raise_if (not (list_eq (slice 0 4 h) stream_magic)) (malformed_envelope bad_stream_magic)
  let v = from_bytes 0 (slice 4 5 h)
  raise_if (not (v == stream_version)) (malformed_envelope (bad_stream_version v))
  ok (unpack_stream h)

-- `_parse_stream_header`
unfoldable pub parse_stream_header : Value → Result StreamHeader
parse_stream_header v = do
  container ← require_envelope_bytes v (not_bytes "stream container" (type_name v))
  parse_stream_bytes container

-- The dictionary that `describe_stream` returns.
pub record StreamDescription : Type 0 where
  pub magic_field : Bytes
  pub version_field : ℕ
  pub num_segments : ℕ
  pub segment_size : ℕ
  pub total_plaintext_bytes : ℕ
  pub total_container_bytes : ℕ

-- `describe_stream`
unfoldable pub describe_stream : Value → Result StreamDescription
describe_stream v = do
  f ← parse_stream_header v
  ok (record {
    magic_field = stream_magic;
    version_field = stream_version;
    num_segments = f.num_segments;
    segment_size = f.segment_size;
    total_plaintext_bytes = f.total_len;
    total_container_bytes = value_length v;
  })

-- `b"".join(parts)`
unfoldable pub join : List Bytes → Bytes
join [] = []
join (b ∷ bs) = b ++ join bs
