-- ===== src/Chunked.antt =====
-- `seal_state_chunked` and `unseal_state_chunked` of sce/stream.py.
pub mod Segments
pub mod RoundTrip
pub mod Frames
pub mod Accepts
pub mod Opens
pub mod Splice
pub mod Binding
pub mod Errors
pub mod Describe
pub mod Returns
pub mod Octets
pub mod Pool
use sce.Base.{ℕ, zero, suc, ◌+◌, ◌-◌, ◌/◌, List, [], ◌∷◌, ◌++◌, ◌&&◌, not, ltb, ◌==◌, length}
use sce.Error.{
  Result, ok, ◌>>=◌, ◌>>◌, raise_if, malformed_envelope, state_seal_mismatch, mismatch_message,
  zero_segments, empty_not_single, too_many_segments, missing_frame, short_segment, trailing_bytes,
  not_bytes,
}
use sce.Value.{Bytes, Value, bytes, type_name}
use sce.Bytes.{from_bytes, slice}
use sce.Library.{Primitives}
use sce.Manifest.{require_manifest}
use sce.Envelope.{require_envelope_bytes}
use sce.Seal.{require_state, require_context, seal_state, unseal_state}
use sce.Stream.{
  stream_id_len, stream_header_size, seg_frame_size, seg_context, check_segment_size, bounds,
  pack_stream_header, join, pack_seg_frame, StreamHeader, parse_stream_header,
}

-- The variables of the loop of `unseal_state_chunked`.
pub record Cursor : Type 0 where
  pub off : ℕ
  pub parts : List Bytes
  pub assembled : ℕ

-- `unseal_state_chunked` after its loop.
unfoldable pub finish : Bytes → StreamHeader → Cursor → Result Bytes
finish container f c = do
  raise_if (not (c.off == length container)) (malformed_envelope trailing_bytes)
  raise_if (not (c.assembled == f.total_len)) (state_seal_mismatch mismatch_message)
  ok (join c.parts)

module _ (p : Primitives) where
  open p use {urandom}

  -- The loop of `seal_state_chunked`, from segment `i` on, in a process that has called
  -- `os.urandom` `calls` times: the bytes that it appends, and the count of the calls after it.
  unfoldable pub seal_segments :
      ℕ
      → Bytes
      → Value
      → Value
      → Value
      → Bytes
      → StreamHeader
      → ℕ
      → List (ℕ × ℕ)
      → Result (Bytes × ℕ)
  seal_segments calls state manifest master_secret epoch_id user_context f i [] = ok ([], calls)
  seal_segments calls state manifest master_secret epoch_id user_context f i ((lo, hi) ∷ rest) = do
    seg_ctx ← seg_context user_context f.stream_id i f.num_segments f.total_len f.segment_size
    env ←
        seal_state p calls (bytes (slice lo hi state)) manifest master_secret epoch_id
          (bytes seg_ctx) Value.none
    frame ← pack_seg_frame (length env.0)
    more ← seal_segments env.1 state manifest master_secret epoch_id user_context f (i + 1) rest
    ok (frame ++ (env.0 ++ more.0), more.1)

  -- `seal_state_chunked`
  unfoldable pub seal_state_chunked :
      ℕ → Value → Value → Value → Value → Value → Value → Result (Bytes × ℕ)
  seal_state_chunked calls state manifest master_secret epoch_id context segment_size = do
    m ← require_manifest manifest
    s ← require_state state
    user_context ← require_context context
    size ← check_segment_size segment_size
    let pieces = bounds (length s) size
    let f : StreamHeader = record {
      stream_id = urandom calls stream_id_len;
      num_segments = length pieces;
      segment_size = size;
      total_len = length s;
    }
    header ← pack_stream_header f.stream_id f.num_segments f.segment_size f.total_len
    out ← seal_segments (calls + 1) s manifest master_secret epoch_id user_context f 0 pieces
    ok (header ++ out.0, out.1)

  -- The body of the loop of `unseal_state_chunked`, at segment `i`.
  unfoldable pub open_segment :
      Bytes → Value → Value → Value → Bytes → StreamHeader → ℕ → Cursor → Result Cursor
  open_segment container manifest master_secret epoch_id user_context f i c = do
    raise_if (ltb (length container) (c.off + seg_frame_size)) (malformed_envelope missing_frame)
    let env_len = from_bytes 0 (slice c.off (c.off + seg_frame_size) container)
    let start = c.off + seg_frame_size
    raise_if (ltb (length container - start) env_len) (malformed_envelope short_segment)
    let env = slice start (start + env_len) container
    seg_ctx ← seg_context user_context f.stream_id i f.num_segments f.total_len f.segment_size
    segment ← unseal_state p (bytes env) manifest master_secret epoch_id (bytes seg_ctx)
    ok (record {
      off = start + env_len;
      parts = c.parts ++ segment ∷ [];
      assembled = c.assembled + length segment;
    })

  -- The loop, with `k` segments left from segment `i` on.
  unfoldable pub open_segments :
      ℕ → Bytes → Value → Value → Value → Bytes → StreamHeader → ℕ → Cursor → Result Cursor
  open_segments zero container manifest master_secret epoch_id user_context f i c = ok c
  open_segments (suc k) container manifest master_secret epoch_id user_context f i c = do
    next ← open_segment container manifest master_secret epoch_id user_context f i c
    open_segments k container manifest master_secret epoch_id user_context f (i + 1) next

  -- `unseal_state_chunked`
  unfoldable pub unseal_state_chunked : Value → Value → Value → Value → Value → Result Bytes
  unseal_state_chunked container manifest master_secret epoch_id context = do
    m ← require_manifest manifest
    user_context ← require_context context
    blob ← require_envelope_bytes container (not_bytes "stream container" (type_name container))
    f ← parse_stream_header (bytes blob)
    raise_if (f.num_segments == 0) (malformed_envelope zero_segments)
    raise_if (f.total_len == 0 && not (f.num_segments == 1)) (malformed_envelope empty_not_single)
    raise_if (ltb ((length blob - stream_header_size) / (seg_frame_size + 1)) f.num_segments)
        (malformed_envelope too_many_segments)
    end ←
        open_segments f.num_segments blob manifest master_secret epoch_id user_context f 0
          (record { off = stream_header_size; parts = []; assembled = 0 })
    finish blob f end
