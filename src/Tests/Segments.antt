-- ===== src/Tests/Segments.antt =====
-- The segments of a container of sce/stream.py, opened one by one.
use sce.Base.{ℕ, ap, ◌≡◌, ◌⊎◌, refl, [], ◌∷◌, ◌++◌, arith, list_eq, codes}
use sce.Error.{ok}
use sce.Value.{Bytes, Value, int, pos, bytes, model_manifest}
use sce.Bytes.{big_endian, to_bytes, from_bytes, lp}
use sce.Manifest.{require_manifest}
use sce.Keys.{
  check_epoch, kdf_canonical, require_secret, kdf_info, commit, derive_key_material, aad,
}
use sce.Envelope.{
  pack_bytes, pack_uint, pack_header, pack_ctlen, require_envelope_bytes, unpack, parse_bytes,
  parse,
}
use sce.Seal.{
  require_state, require_context, bounded_context, check_seal_count, seal_with, seal_state, opened,
  verdict, open_parsed, unseal_state,
}
use sce.Stream.{join}
use sce.Chunked.{unseal_state_chunked}
use sce.Seal.Binding.{SamePresented, KnownBreak}
use sce.Chunked.Pool.{Place, Origin, InOrder, PoolBreak, FromPool-InOrder}
use sce.Chunked.Splice.{within, SamePlace, segment-fails_closed}
use sce.Chunked.Accepts.{IsContainer}
use sce.Chunked.Opens.{IsContainer-unseal_state_chunked}
use sce.Tests.Manifest.{valid_in_order, valid_swapped}
use sce.Tests.{toy, toy-Documented, sum}
use sce.Tests.Seal.{secret, in_order, swapped}
use sce.Tests.Stream.{
  container, header, header-Fits, head_layout, u64, first, second, ctx_of, first_position,
  second_position,
}

segment_run :
    seal_state toy 1
      (bytes (codes "h"))
      (model_manifest in_order)
      secret
      (int (pos 7))
      (bytes (ctx_of 0))
      Value.none
    ≡ ok (first, 3)
unfolding seal_state seal_with require_manifest require_state bounded_context require_context
    check_seal_count check_epoch derive_key_material require_secret kdf_info kdf_canonical lp
    to_bytes big_endian commit aad pack_header pack_bytes pack_uint pack_ctlen sum
segment_run = refl

first_open :
    unseal_state toy (bytes first) (model_manifest swapped) secret (int (pos 7)) (bytes (ctx_of 0))
    ≡ ok (codes "h")
unfolding unseal_state require_manifest bounded_context require_context check_epoch parse
    require_envelope_bytes parse_bytes unpack from_bytes list_eq open_parsed derive_key_material
    require_secret kdf_info kdf_canonical lp to_bytes big_endian commit aad opened verdict sum
first_open = refl

second_open :
    unseal_state toy (bytes second) (model_manifest swapped) secret (int (pos 7)) (bytes (ctx_of 1))
    ≡ ok (codes "i")
unfolding unseal_state require_manifest bounded_context require_context check_epoch parse
    require_envelope_bytes parse_bytes unpack from_bytes list_eq open_parsed derive_key_material
    require_secret kdf_info kdf_canonical lp to_bytes big_endian commit aad opened verdict sum
second_open = refl

segment-fails_closed_example :
    (SamePlace (codes "ctx") header 0 (codes "ctx") header 0
      × SamePresented toy
          (within in_order secret (int (pos 7)) (ctx_of 0))
          (within swapped secret (int (pos 7)) (ctx_of 0))
      × (codes "h" ≡ codes "h"))
    ⊎ KnownBreak toy
        (bytes first)
        (within in_order secret (int (pos 7)) (ctx_of 0))
        (within swapped secret (int (pos 7)) (ctx_of 0))
segment-fails_closed_example =
    segment-fails_closed toy toy-Documented 1 (bytes (codes "h")) Value.none in_order swapped secret
      (int (pos 7)) secret (int (pos 7)) (codes "ctx") (codes "ctx") header header 0 0
      valid_in_order valid_swapped (unfold require_state in refl) first_position first_position
      segment_run first_open

-- The container, described.
is_container :
    IsContainer toy
      (model_manifest swapped)
      secret
      (int (pos 7))
      (codes "ctx")
      container
      (codes "hi")
unfolding join big_endian
is_container = record {
  f = header;
  parts = codes "h" ∷ codes "i" ∷ [];
  body = u64 86 ++ (first ++ (u64 86 ++ second));
  fits = header-Fits;
  layout = ap (λ h. h ++ (u64 86 ++ (first ++ (u64 86 ++ second)))) head_layout;
  frames = (
    first,
    ctx_of 0,
    u64 86 ++ second,
    record { layout = refl; small = omega arith; in_context = first_position; opens = first_open },
    (
      second,
      ctx_of 1,
      [],
      record {
        layout = refl;
        small = omega arith;
        in_context = second_position;
        opens = second_open;
      },
      refl,
    ),
  );
  counted = refl;
  nonempty = omega arith;
  lone = λ e. absurd (omega arith);
  total = refl;
  joined = refl;
}

IsContainer-unseal_state_chunked_example :
    unseal_state_chunked toy
      (bytes container)
      (model_manifest swapped)
      secret
      (int (pos 7))
      (bytes (codes "ctx"))
    ≡ ok (codes "hi")
IsContainer-unseal_state_chunked_example =
    IsContainer-unseal_state_chunked toy container (model_manifest swapped) secret (int (pos 7))
      (bytes (codes "ctx")) (codes "ctx") (codes "hi") swapped (unfold require_manifest in refl)
      (unfold require_context in refl) is_container

second_run :
    seal_state toy 3
      (bytes (codes "i"))
      (model_manifest in_order)
      secret
      (int (pos 7))
      (bytes (ctx_of 1))
      Value.none
    ≡ ok (second, 5)
unfolding seal_state seal_with require_manifest require_state bounded_context require_context
    check_seal_count check_epoch derive_key_material require_secret kdf_info kdf_canonical lp
    to_bytes big_endian commit aad pack_header pack_bytes pack_uint pack_ctlen sum
second_run = refl

abbrev place : ℕ → Bytes → Place
place i b = record {
  manifest = in_order;
  secret = secret;
  epoch = int (pos 7);
  user = codes "ctx";
  header = header;
  index = i;
  plaintext = b;
}

first-Origin : Origin toy (place 0 (codes "h")) first
unfolding require_state
first-Origin = record {
  calls = 1;
  state = bytes (codes "h");
  count = Value.none;
  ctx = ctx_of 0;
  after = 3;
  valid = valid_in_order;
  is_state = refl;
  in_context = first_position;
  run = segment_run;
}

second-Origin : Origin toy (place 1 (codes "i")) second
unfolding require_state
second-Origin = record {
  calls = 3;
  state = bytes (codes "i");
  count = Value.none;
  ctx = ctx_of 1;
  after = 5;
  valid = valid_in_order;
  is_state = refl;
  in_context = second_position;
  run = second_run;
}

FromPool-InOrder_example :
    (InOrder (codes "ctx") header (place 0 (codes "h") ∷ place 1 (codes "i") ∷ []) 0
      × (◌≡◌ {A = ℕ} 2 2)
      × (codes "hi" ≡ join (codes "h" ∷ codes "i" ∷ [])))
    ⊎ PoolBreak toy swapped secret
        (int (pos 7))
        (codes "ctx")
        is_container.f
        is_container.parts
        0
        is_container.body
        []
        is_container.frames
        (place 0 (codes "h") ∷ place 1 (codes "i") ∷ [])
unfolding is_container
FromPool-InOrder_example =
    FromPool-InOrder toy toy-Documented swapped secret (int (pos 7)) (codes "ctx") container
      (codes "hi") valid_swapped is_container (place 0 (codes "h") ∷ place 1 (codes "i") ∷ [])
      (first-Origin, (second-Origin, tt))
