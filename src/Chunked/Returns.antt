-- ===== src/Chunked/Returns.antt =====
-- When `seal_state_chunked` of sce/stream.py returns.
use sce.Base.{
  ℕ, suc, ◌+◌, ◌-◌, ◌*◌, ◌≤◌, ◌<◌, ◌^◌, ◌≡◌, refl, ap, List, [], ◌∷◌, ◌++◌, arith, All, length,
  drop, length-take, lt→ltb, le→ltb,
}
use sce.Error.{ok}
use sce.Value.{Bytes, Value, ModelManifest, bytes, model_manifest}
use sce.Bytes.{max_lp_field, slice, big_endian}
use sce.Library.{Primitives, Documented}
use sce.Manifest.{require_manifest}
use sce.Manifest.Construct.{IsManifest}
use sce.Keys.{check_epoch, require_secret}
use sce.Envelope.{pack_bytes, pack_uint}
use sce.Seal.{
  max_state, require_state, require_context, bounded_context, check_seal_count, seal_state,
}
use sce.Seal.Returns.{aad_len, seal_state-returns}
use sce.Seal.RoundTrip.{length-seal_state}
use sce.Stream.{
  stream_magic, stream_version, stream_id_len, check_segment_size, bounds, pack_stream_header,
  pack_seg_frame, StreamHeader,
}
use sce.Stream.Bounds.{InState, bounds-Covers}
use sce.Stream.Context.{seg_context-ok, seg_context-InContext, length-context_of}
use sce.Stream.Layout.{Fits}
use sce.Chunked.{seal_segments, seal_state_chunked}
use sce.Chunked.Errors.{few}
use sce.Chunked.RoundTrip.{header_of, check_segment_size-positive}
use sce.Chunked.Splice.{position}

bounded_context-ok : (c : Bytes) → length c ≤ max_lp_field → bounded_context (bytes c) ≡ ok c
unfolding bounded_context require_context
bounded_context-ok c h = rw (le→ltb max_lp_field (length c) h) refl

check_segment_size-le : (v : Value) {n : ℕ} → check_segment_size v ≡ ok n → n ≤ max_state
unfolding check_segment_size
check_segment_size-le v h = ground arith

pack_seg_frame-ok : (n : ℕ) → n < 2 ^ 64 → pack_seg_frame n ≡ ok (big_endian 8 n)
unfolding pack_seg_frame pack_uint
pack_seg_frame-ok n h = rw (lt→ltb n (2 ^ 64) h) refl

module _ (p : Primitives) (d : Documented p) (room : aad_len ≤ p.max_text) where
  module _ (m : ModelManifest) (secret epoch : Value) (user s : Bytes) (f : StreamHeader)
      (fits : Fits f) {k : Bytes} {e : ℕ} (vm : IsManifest p m) (hk : require_secret secret ≡ ok k)
      (he : check_epoch epoch ≡ ok e) (short : length user + 74 ≤ max_lp_field)
      (small : f.segment_size ≤ max_state) (taken : f.segment_size ≤ p.max_text) where
    position_bounded :
        (i : ℕ)
        → i < f.num_segments
        → (ctx : Bytes) × (position user f i ≡ ok ctx) × (length ctx ≤ max_lp_field)
    position_bounded i hi =
        let (ctx, hc) =
          seg_context-ok user f.stream_id i f.num_segments f.total_len f.segment_size (omega arith)
            (omega (arith, fits.id_size)) (omega (arith, fits.count)) fits.count fits.total
            fits.segment in
        let q =
          seg_context-InContext user f.stream_id i f.num_segments f.total_len f.segment_size hc in
        (
          ctx,
          hc,
          omega (
            arith,
            ap length q.bytes,
            length-context_of user f.stream_id i f.num_segments f.total_len f.segment_size,
            fits.id_size,
          ),
        )

    segment_returns :
        (calls : ℕ) (piece ctx : Bytes)
        → length piece ≤ f.segment_size
        → length ctx ≤ max_lp_field
        → (env : Bytes) × (seal_state p calls
              (bytes piece)
              (model_manifest m)
              secret
              epoch
              (bytes ctx)
              Value.none
            ≡ ok (env, calls + 2))
          × (length env < 2 ^ 64)
    segment_returns calls piece ctx hp hc =
        let (env, run) =
          seal_state-returns p d room calls (bytes piece) secret epoch (bytes ctx) Value.none m
            {s = piece} {c = ctx} {k = k} {e = e} vm (unfold require_state in refl) (omega arith)
            (omega arith) (bounded_context-ok ctx hc) (unfold check_seal_count in refl) he hk in
        (
          env,
          run,
          omega (
            arith,
            length-seal_state p d calls (bytes piece) (model_manifest m) secret epoch (bytes ctx)
                Value.none {s = piece} (unfold require_state in refl) run,
          ),
        )

    seal_segments-returns :
        (bs : List (ℕ × ℕ)) (calls i : ℕ)
        → All (InState f.segment_size s) bs
        → i + length bs ≡ f.num_segments
        → (out : Bytes) × (seal_segments p calls s (model_manifest m) secret epoch user f i bs
            ≡ ok (out, calls + 2 * length bs))
    unfolding seal_segments
    seal_segments-returns [] calls i h n = ([], ap (λ (x : ℕ). ok ([], x)) (omega arith))
    seal_segments-returns ((lo, hi) ∷ bs) calls i h n =
        let (ctx, hc, bounded) = position_bounded i (omega arith) in
        let (env, run, size) =
          segment_returns calls (slice lo hi s) ctx
            (omega (arith, length-take (hi - lo) (drop lo s), h.0.2)) bounded in
        let (more, rest) = seal_segments-returns bs (calls + 2) (i + 1) h.1 (omega arith) in
        let total : calls + 2 + 2 * length bs ≡ calls + 2 * suc (length bs) = omega arith in
        (
          big_endian 8 (length env) ++ (env ++ more),
          rw (hc, run, pack_seg_frame-ok (length env) size, rest, total) refl,
        )

  pack_stream_header-ok :
      (f : StreamHeader)
      → Fits f
      → (h : Bytes) × (pack_stream_header f.stream_id f.num_segments f.segment_size f.total_len
          ≡ ok h)
  unfolding pack_stream_header pack_uint
  pack_stream_header-ok f z = (
    pack_bytes 4 stream_magic
        ++ (big_endian 1 stream_version
            ++ (pack_bytes stream_id_len f.stream_id
                ++ (big_endian 8 f.num_segments
                    ++ (big_endian 8 f.segment_size ++ big_endian 8 f.total_len)))),
    rw
        (
          lt→ltb f.num_segments (256 ^ 8) z.count,
          lt→ltb f.segment_size (256 ^ 8) z.segment,
          lt→ltb f.total_len (256 ^ 8) z.total,
        )
        refl,
  )

  -- With arguments that pass their checks, a constructed manifest, a state below 2 ^ 64 - 1 bytes, a
  -- context that leaves room for the fields of a segment's and a segment size that the cipher takes,
  -- `seal_state_chunked` returns a container, after one draw and two for each segment, with
  -- primitives as documented that take the associated data.
  pub seal_state_chunked-returns :
      (calls : ℕ) (state secret epoch context segment_size : Value) (m : ModelManifest)
      {s c k : Bytes} {e size : ℕ}
      → IsManifest p m
      → require_state state ≡ ok s
      → length s + 1 < 2 ^ 64
      → require_context context ≡ ok c
      → length c + 74 ≤ max_lp_field
      → check_segment_size segment_size ≡ ok size
      → size ≤ p.max_text
      → check_epoch epoch ≡ ok e
      → require_secret secret ≡ ok k
      → (container : Bytes) × (seal_state_chunked p calls state
            (model_manifest m)
            secret
            epoch
            context
            segment_size
          ≡ ok (container, calls + 1 + 2 * length (bounds (length s) size)))
  unfolding seal_state_chunked require_manifest
  seal_state_chunked-returns calls state secret epoch context segment_size m {s} {c} {k} {e} {size}
        vm hs long hc short hz taken he hk =
      let covers = bounds-Covers size s (check_segment_size-positive segment_size hz) in
      let f = header_of p calls s size in
      let fits : Fits f = record {
        id_size = d.length-urandom calls 16;
        count = omega (
          arith,
          few (length (bounds (length s) size)) size (length s)
              (check_segment_size-positive segment_size hz) covers.fewest,
        );
        segment = omega (arith, check_segment_size-le segment_size hz);
        total = omega arith;
      } in
      let (h, hh) = pack_stream_header-ok f fits in
      let (out, ho) =
        seal_segments-returns m secret epoch c s f fits vm hk he short
          (check_segment_size-le segment_size hz) taken (bounds (length s) size) (calls + 1) 0
          covers.within (omega arith) in
      (h ++ out, rw (hs, hc, hz, hh, ho) refl)
