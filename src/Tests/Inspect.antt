-- ===== src/Tests/Inspect.antt =====
-- The layout, the errors and the descriptions of sce/core.py and sce/stream.py at concrete inputs.
use sce.Base.{
  ℕ, ◌+◌, ◌*◌, ◌^◌, ◌≡◌, ◌≤◌, refl, ap, arith, length, length-replicate, replicate, list_eq, codes,
}
use sce.Error.{ok, raise, overflow_error, OnlySceError, ok-injective}
use sce.Value.{Bytes, ModelManifest, int, pos, bytes, model_manifest, model_manifest-injective}
use sce.Bytes.{from_bytes, max_lp_field}
use sce.Manifest.Construct.{IsManifest}
use mathlib.Core.Path.{subst}
use sce.Envelope.{
  magic, version, unpack, parse_bytes, parse, require_envelope_bytes, Description,
  describe_envelope,
}
use sce.Envelope.Inspect.{describe_envelope-unlinkable}
use sce.Seal.{require_state, require_context}
use sce.Stream.{check_segment_size, bounds, unpack_stream, parse_stream_bytes}
use sce.Stream.Bounds.{Covers, bounds-Covers}
use sce.Chunked.{seal_state_chunked, unseal_state_chunked}
use sce.Chunked.Returns.{seal_state_chunked-returns}
use sce.Keys.{check_epoch, require_secret}
use sce.Chunked.Errors.{unseal_state_chunked-OnlySceError, seal_state_chunked-overflow}
use sce.Tests.{toy, toy-Documented}
use sce.Tests.Manifest.{valid_in_order}
use sce.Tests.Seal.{secret, in_order}
use sce.Tests.Stream.{container, header, first, second, container-IsBytes}

bounds-Covers_example : Covers 2 (codes "hello") (bounds 5 2)
bounds-Covers_example = bounds-Covers 2 (codes "hello") (omega arith)

parsed_run : parse_stream_bytes container ≡ ok header
unfolding parse_stream_bytes unpack_stream from_bytes list_eq
parsed_run = refl

describe_envelope-unlinkable_example :
    ◌≡◌ {A = Description}
      (record {
        magic_field = magic;
        version_field = version;
        ciphertext_bytes = 17;
        total_envelope_bytes = 86;
      })
      (record {
        magic_field = magic;
        version_field = version;
        ciphertext_bytes = 17;
        total_envelope_bytes = 86;
      })
describe_envelope-unlinkable_example =
    describe_envelope-unlinkable first second
      (unfold describe_envelope parse require_envelope_bytes parse_bytes unpack from_bytes
          list_eq in
        refl)
      (unfold describe_envelope parse require_envelope_bytes parse_bytes unpack from_bytes
          list_eq in
        refl)
      refl

known : (m : ModelManifest) → model_manifest in_order ≡ model_manifest m → IsManifest toy m
known m h = subst (IsManifest toy) (model_manifest-injective h) valid_in_order

short : (c : Bytes) → require_context (bytes (codes "ctx")) ≡ ok c → length c ≤ max_lp_field
unfolding require_context
short c h = omega (arith, ap length (ok-injective h))

unseal_state_chunked-OnlySceError_example : OnlySceError (
    unseal_state_chunked toy
      (bytes container)
      (model_manifest in_order)
      secret
      (int (pos 8))
      (bytes (codes "ctx")))
unseal_state_chunked-OnlySceError_example =
    unseal_state_chunked-OnlySceError toy toy-Documented container (model_manifest in_order) secret
      (int (pos 8)) (bytes (codes "ctx")) container-IsBytes known short

unfoldable zeros : ℕ → Bytes
zeros n = replicate n 0

length-zeros : (n : ℕ) → length (zeros n) ≡ n
unfolding zeros
length-zeros n = length-replicate n 0

seal_state_chunked-overflow_example :
    seal_state_chunked toy 0
      (bytes (codes "hi"))
      (model_manifest in_order)
      secret
      (int (pos 7))
      (bytes (zeros (2 ^ 32)))
      (int (pos 1))
    ≡ raise overflow_error
seal_state_chunked-overflow_example =
    seal_state_chunked-overflow toy 0 in_order (codes "hi") (zeros (2 ^ 32)) secret (int (pos 7)) 1
      (omega arith) (omega arith) (omega arith) (omega (arith, length-zeros (2 ^ 32)))

seal_state_chunked-returns_example :
    (c : Bytes) × (seal_state_chunked toy 0
        (bytes (codes "hi"))
        (model_manifest in_order)
        secret
        (int (pos 7))
        (bytes (codes "ctx"))
        (int (pos 1))
      ≡ ok (c, 0 + 1 + 2 * length (bounds 2 1)))
seal_state_chunked-returns_example =
    seal_state_chunked-returns toy toy-Documented (omega arith) 0 (bytes (codes "hi")) secret
      (int (pos 7)) (bytes (codes "ctx")) (int (pos 1)) in_order {s = codes "hi"} {c = codes "ctx"}
      {k = replicate 16 7} {e = 7} {size = 1} valid_in_order (unfold require_state in refl)
      (omega arith) (unfold require_context in refl) (omega arith)
      (unfold check_segment_size in refl) (omega arith) (unfold check_epoch in refl)
      (unfold require_secret in refl)
