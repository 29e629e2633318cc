-- ===== src/Tests/Stream.antt =====
-- Runs of the chunked container of sce/stream.py, and the theorems about it at these runs.
use sce.Base.{ℕ, ◌+◌, ◌≡◌, ◌⊎◌, refl, [], ◌∷◌, ◌++◌, arith, replicate, list_eq, codes}
use sce.Error.{ok}
use sce.Value.{Bytes, ModelManifest, int, pos, bytes, model_manifest}
use sce.Bytes.{big_endian, to_bytes, from_bytes, IsBytes, lp, stream_lp}
use sce.Manifest.{require_manifest}
use sce.Keys.{
  check_epoch, kdf_canonical, require_secret, kdf_info, commit, derive_key_material, aad,
}
use sce.Envelope.{
  pack_bytes, pack_uint, pack_header, pack_ctlen, require_envelope_bytes, unpack, parse_bytes,
  parse,
}
use sce.Seal.{
  require_state, require_context, bounded_context, check_seal_count, seal_with, seal_state, opened,
  verdict, open_parsed, unseal_state,
}
use sce.Stream.{
  seg_context, check_segment_size, ranges, bounds, pack_stream_header, pack_seg_frame,
  unpack_stream, parse_stream_bytes, parse_stream_header, join,
}
use sce.Chunked.{
  seal_segments, seal_state_chunked, open_segment, open_segments, finish, unseal_state_chunked,
}
use sce.Stream.{StreamHeader}
use sce.Stream.Layout.{stream_header, Fits}
use sce.Chunked.Binding.{
  Holder, SameHolder, StreamBreak, chunked_under, seal_state_chunked-fails_closed,
}
use sce.Chunked.Splice.{position}
use sce.Chunked.Accepts.{IsContainer, unseal_state_chunked-IsContainer}
use sce.Tests.Manifest.{valid_in_order, valid_swapped}
use sce.Chunked.RoundTrip.{unseal_state_chunked-seal_state_chunked}
use sce.Tests.{toy, toy-Documented, sum}
use sce.Tests.Seal.{secret, in_order, swapped}

abbrev envelope_of : ℕ → ℕ → ℕ → Bytes
envelope_of i c tag =
    codes "SCE4"
    ++ (4
        ∷ (replicate 12 (i + 1)
            ++ (replicate 16 i ++ (replicate 32 132 ++ (0 ∷ 0 ∷ 0 ∷ 17 ∷ c ∷ replicate 16 tag)))))

-- The two segments of "hi", and the container, written out.
abbrev pub first : Bytes
first = envelope_of 1 104 123

abbrev pub second : Bytes
second = envelope_of 3 105 204

abbrev pub u64 : ℕ → Bytes
u64 n = replicate 7 0 ++ n ∷ []

abbrev pub head : Bytes
head = codes "SCES" ++ (1 ∷ (replicate 16 0 ++ (u64 2 ++ (u64 1 ++ u64 2))))

abbrev pub container : Bytes
container = head ++ (u64 86 ++ (first ++ (u64 86 ++ second)))

pub chunked_run :
    seal_state_chunked toy 0
      (bytes (codes "hi"))
      (model_manifest in_order)
      secret
      (int (pos 7))
      (bytes (codes "ctx"))
      (int (pos 1))
    ≡ ok (container, 5)
unfolding seal_state_chunked seal_segments seg_context check_segment_size bounds ranges
    pack_stream_header pack_seg_frame stream_lp seal_state seal_with require_manifest require_state
    bounded_context require_context check_seal_count check_epoch derive_key_material require_secret
    kdf_info kdf_canonical lp to_bytes big_endian commit aad pack_header pack_bytes pack_uint
    pack_ctlen sum
chunked_run = refl

abbrev holder : ModelManifest → Holder
holder m = record {
  manifest = m;
  secret = secret;
  epoch = int (pos 7);
  context = bytes (codes "ctx");
}

chunked_open :
    (m : ModelManifest)
    → m.memh ≡ in_order.memh
    → chunked_under toy container (holder m) ≡ ok (codes "hi")
unfolding unseal_state_chunked open_segments open_segment finish join seg_context stream_lp
    parse_stream_header parse_stream_bytes unpack_stream unseal_state require_manifest
    bounded_context require_context check_epoch parse require_envelope_bytes parse_bytes unpack
    from_bytes list_eq open_parsed derive_key_material require_secret kdf_info kdf_canonical lp
    to_bytes big_endian commit aad opened verdict sum
chunked_open m h = rw h refl

pub container-IsBytes : IsBytes container
container-IsBytes = omega arith

unseal_state_chunked-seal_state_chunked_example :
    unseal_state_chunked toy
      (bytes container)
      (model_manifest in_order)
      secret
      (int (pos 7))
      (bytes (codes "ctx"))
    ≡ ok (codes "hi")
unseal_state_chunked-seal_state_chunked_example =
    unseal_state_chunked-seal_state_chunked toy toy-Documented 0 (bytes (codes "hi"))
      (model_manifest in_order) secret (int (pos 7)) (bytes (codes "ctx")) (int (pos 1))
      (unfold require_state in refl) chunked_run

seal_state_chunked-fails_closed_example :
    (SameHolder toy (holder in_order) (holder swapped) × (codes "hi" ≡ codes "hi"))
    ⊎ StreamBreak toy container (holder in_order) (holder swapped)
seal_state_chunked-fails_closed_example =
    seal_state_chunked-fails_closed toy toy-Documented 0 (bytes (codes "hi")) (int (pos 1))
      (holder in_order) (holder swapped) valid_in_order valid_swapped container-IsBytes
      (unfold require_state in refl) chunked_run (chunked_open swapped refl)

unseal_state_chunked-IsContainer_example :
    (user : Bytes) × (m : ModelManifest) × (require_manifest (model_manifest swapped) ≡ ok m)
    × (require_context (bytes (codes "ctx")) ≡ ok user)
    × IsContainer toy (model_manifest swapped) secret (int (pos 7)) user container (codes "hi")
unseal_state_chunked-IsContainer_example =
    unseal_state_chunked-IsContainer toy container (model_manifest swapped) secret (int (pos 7))
      (bytes (codes "ctx")) container-IsBytes (chunked_open swapped refl)

abbrev pub header : StreamHeader
header = record { stream_id = replicate 16 0; num_segments = 2; segment_size = 1; total_len = 2 }

pub header-Fits : Fits header
header-Fits = record {
  id_size = refl;
  count = omega arith;
  segment = omega arith;
  total = omega arith;
}

pub head_layout : head ≡ stream_header header
unfolding stream_header big_endian
head_layout = refl

-- The context of each segment.
abbrev pub ctx_of : ℕ → Bytes
ctx_of i =
    codes "LDDP-SCE|stream-v1"
    ++ (0
        ∷ 0
        ∷ 0
        ∷ 3
        ∷ (codes "ctx"
            ++ (0 ∷ 0 ∷ 0 ∷ 16 ∷ (replicate 16 0 ++ (u64 i ++ (u64 2 ++ (u64 2 ++ u64 1)))))))

pub first_position : position (codes "ctx") header 0 ≡ ok (ctx_of 0)
unfolding seg_context stream_lp to_bytes big_endian
first_position = refl

pub second_position : position (codes "ctx") header 1 ≡ ok (ctx_of 1)
unfolding seg_context stream_lp to_bytes big_endian
second_position = refl
