-- ===== src/Chunked/RoundTrip.antt =====
-- `seal_state_chunked` and then `unseal_state_chunked` of sce/stream.py.
use sce.Base.{
  ℕ, ◌+◌, ◌*◌, ◌<◌, ◌≡◌, refl, sym, ◌∙◌, ap, ◌++◌, arith, length, length-append, length-map,
}
use sce.Error.{ok, >>=-eq-ok, ok-injective}
use sce.Value.{Bytes, Value, ModelManifest, bytes}
use sce.Library.{Primitives, Documented}
use sce.Manifest.{require_manifest}
use sce.Seal.{require_state, require_context}
use sce.Stream.{check_segment_size, bounds, pack_stream_header, StreamHeader}
use sce.Stream.Bounds.{pieces, bounds-Covers}
use sce.Stream.Layout.{stream_header, Fits, pack_stream_header-Fits, length-stream_header}
use sce.Chunked.{seal_segments, seal_state_chunked, unseal_state_chunked}
use sce.Chunked.Segments.{length-seal_segments, seal_segments-Frames}
use sce.Chunked.Accepts.{IsContainer}
use sce.Chunked.Opens.{IsContainer-unseal_state_chunked}

pub check_segment_size-positive : (v : Value) {n : ℕ} → check_segment_size v ≡ ok n → 0 < n
unfolding check_segment_size
check_segment_size-positive v h = ground arith

-- An empty state has one segment.
single : (len size : ℕ) → len ≡ 0 → length (bounds len size) ≡ 1
unfolding bounds
single len size h = rw h refl

module _ (p : Primitives) where
  -- The header of the stream that is sealed after `calls` draws.
  abbrev pub header_of : ℕ → Bytes → ℕ → StreamHeader
  header_of calls s size = record {
    stream_id = p.urandom calls 16;
    num_segments = length (bounds (length s) size);
    segment_size = size;
    total_len = length s;
  }

  -- The run of a chunked seal that returned.
  pub record ChunkedRun (calls : ℕ) (state manifest secret epoch context segment_size : Value)
      (container : Bytes) (after : ℕ) : Type 0 where
    pub m : ModelManifest
    pub s : Bytes
    pub user : Bytes
    pub size : ℕ
    pub out : Bytes
    pub is_manifest : require_manifest manifest ≡ ok m
    pub is_state : require_state state ≡ ok s
    pub is_context : require_context context ≡ ok user
    pub is_size : check_segment_size segment_size ≡ ok size
    pub fits : Fits (header_of calls s size)
    pub made :
        seal_segments p
          (calls + 1)
          s
          manifest
          secret
          epoch
          user
          (header_of calls s size)
          0
          (bounds (length s) size)
        ≡ ok (out, after)
    pub layout : container ≡ stream_header (header_of calls s size) ++ out

  module _ (d : Documented p) (calls : ℕ)
      (state manifest secret epoch context segment_size : Value) where
    pub seal_state_chunked-ChunkedRun :
        {container : Bytes} {after : ℕ}
        → seal_state_chunked p calls state manifest secret epoch context segment_size
          ≡ ok (container, after)
        → ChunkedRun calls state manifest secret epoch context segment_size container after
    unfolding seal_state_chunked
    seal_state_chunked-ChunkedRun h =
        let (m, hm, h₁) = >>=-eq-ok (require_manifest manifest) _ h in
        let (s, hs, h₂) = >>=-eq-ok (require_state state) _ h₁ in
        let (user, hu, h₃) = >>=-eq-ok (require_context context) _ h₂ in
        let (size, hz, h₄) = >>=-eq-ok (check_segment_size segment_size) _ h₃ in
        let f = header_of calls s size in
        let (b, hb, h₅) =
          >>=-eq-ok (pack_stream_header f.stream_id f.num_segments f.segment_size f.total_len) _
            h₄ in
        let (out, ho, h₆) =
          >>=-eq-ok
            (seal_segments p (calls + 1) s manifest secret epoch user f 0 (bounds (length s) size))
            _ h₅ in
        let (fits, eb) = pack_stream_header-Fits f (d.length-urandom calls 16) hb in
        let done = ok-injective h₆ in
        record {
          m = m;
          s = s;
          user = user;
          size = size;
          out = out.0;
          is_manifest = hm;
          is_state = hs;
          is_context = hu;
          is_size = hz;
          fits = fits;
          made = ho ∙ ap (λ (n : ℕ). ok (out.0, n)) (ap (λ (z : Bytes × ℕ). z.1) done);
          layout = sym (ap (λ (z : Bytes × ℕ). z.0) done) ∙ ap (λ b. b ++ out.0) eb;
        }

    -- A container that `seal_state_chunked` returned has a header of 45 bytes, then the state and
    -- 93 bytes for each segment, with primitives as documented.
    pub length-seal_state_chunked :
        {container s : Bytes} {size after : ℕ}
        → require_state state ≡ ok s
        → check_segment_size segment_size ≡ ok size
        → seal_state_chunked p calls state manifest secret epoch context segment_size
          ≡ ok (container, after)
        → length container ≡ 45 + length s + 93 * length (bounds (length s) size)
    length-seal_state_chunked hs hz h =
        let r = seal_state_chunked-ChunkedRun h in
        let f = header_of calls r.s r.size in
        let covers =
          bounds-Covers r.size r.s (check_segment_size-positive segment_size r.is_size) in
        let size : length r.out ≡ length r.s + 93 * length (bounds (length r.s) r.size) =
          length-seal_segments p manifest secret epoch r.user f d (bounds (length r.s) r.size)
            (calls + 1) r.s 0 r.made
          ∙ ap (λ b. length b + 93 * length (bounds (length r.s) r.size)) covers.joined in
        rw (ok-injective (sym hs ∙ r.is_state), ok-injective (sym hz ∙ r.is_size))
          (omega (
            arith,
            ap length r.layout,
            length-append (stream_header f) r.out,
            length-stream_header f r.fits,
            size,
          ))

    -- What `seal_state_chunked` returns is a container of the pieces of the state.
    seal_state_chunked-IsContainer :
        {container : Bytes} {after : ℕ}
        → seal_state_chunked p calls state manifest secret epoch context segment_size
          ≡ ok (container, after)
        → (user : Bytes) × (s : Bytes) × (m : ModelManifest) × (require_manifest manifest ≡ ok m)
          × (require_context context ≡ ok user)
          × (require_state state ≡ ok s)
          × IsContainer p manifest secret epoch user container s
    seal_state_chunked-IsContainer h =
        let r = seal_state_chunked-ChunkedRun h in
        let f = header_of calls r.s r.size in
        let bs = bounds (length r.s) r.size in
        let covers =
          bounds-Covers r.size r.s (check_segment_size-positive segment_size r.is_size) in
        (
          r.user,
          r.s,
          r.m,
          r.is_manifest,
          r.is_context,
          r.is_state,
          record {
            f = f;
            parts = pieces r.s bs;
            body = r.out;
            fits = r.fits;
            layout = r.layout;
            frames =
                seal_segments-Frames p manifest secret epoch r.user f d bs (calls + 1) r.s 0 r.made;
            counted = length-map _ bs;
            nonempty = covers.nonempty;
            lone = single (length r.s) r.size;
            total = refl;
            joined = sym covers.joined;
          },
        )

    -- A container that `seal_state_chunked` returned opens under the manifest, secret, epoch and
    -- context that it was sealed with, and gives back the bytes of the state, with primitives as
    -- documented.
    pub unseal_state_chunked-seal_state_chunked :
        {container s : Bytes} {after : ℕ}
        → require_state state ≡ ok s
        → seal_state_chunked p calls state manifest secret epoch context segment_size
          ≡ ok (container, after)
        → unseal_state_chunked p (bytes container) manifest secret epoch context ≡ ok s
    unseal_state_chunked-seal_state_chunked {container} hs h =
        let (user, s, m, hm, hu, same, z) = seal_state_chunked-IsContainer h in
        IsContainer-unseal_state_chunked p container manifest secret epoch context user s m hm hu z
        ∙ sym same
        ∙ hs
