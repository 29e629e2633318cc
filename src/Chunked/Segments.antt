-- ===== src/Chunked/Segments.antt =====
-- One segment of the container of sce/stream.py, and the loops over the segments.
use sce.Base.{
  ℕ, ◌+◌, ◌-◌, ◌*◌, ◌^◌, ◌<◌, ◌≡◌, refl, sym, ◌∙◌, ap, List, [], ◌∷◌, ◌++◌, arith, length,
  length-append, take-append, drop-append, drop-drop, le→ltb,
}
use sce.Error.{Result, ok, >>=-eq-ok, ok-injective}
use sce.Value.{Bytes, Value, bytes}
use sce.Bytes.{big_endian, slice}
use sce.Bytes.Laws.{length-big_endian, from_bytes-big_endian}
use sce.Library.{Primitives, Documented}
use sce.Seal.{require_state, seal_state, unseal_state}
use sce.Seal.RoundTrip.{unseal_state-seal_state, length-seal_state}
use sce.Stream.{seg_context, pack_seg_frame, StreamHeader, join}
use sce.Stream.Bounds.{pieces}
use sce.Stream.Layout.{pack_uint-eq-ok}
use sce.Chunked.Frames.{Frames}
use sce.Chunked.{Cursor, seal_segments, open_segment}

pack_seg_frame-eq-ok :
    (n : ℕ) {r : Bytes} → pack_seg_frame n ≡ ok r → (n < 256 ^ 8) × (r ≡ big_endian 8 n)
unfolding pack_seg_frame
pack_seg_frame-eq-ok n h = pack_uint-eq-ok 8 n h

pub cursor-eq :
    {o o' a a' : ℕ} {parts parts' : List Bytes}
    → o ≡ o'
    → parts ≡ parts'
    → a ≡ a'
    → ◌≡◌ {A = Result Cursor}
        (ok (record { off = o; parts = parts; assembled = a }))
        (ok (record { off = o'; parts = parts'; assembled = a' }))
cursor-eq ho hp ha = λ k. ok (record { off = ho k; parts = hp k; assembled = ha k })

-- Reading a frame and its envelope where they stand in a container.
module _ (done env rest : Bytes) where
  abbrev pub framed : Bytes
  framed = done ++ (big_endian 8 (length env) ++ (env ++ rest))

  framed-frame : slice (length done) (length done + 8) framed ≡ big_endian 8 (length env)
  framed-frame =
      let eight : length done + 8 - length done ≡ 8 = omega arith in
      rw (eight, drop-append (length done) done (big_endian 8 (length env) ++ (env ++ rest)) refl)
        (take-append 8 (big_endian 8 (length env)) (env ++ rest) (length-big_endian 8 (length env)))

  framed-env : slice (length done + 8) (length done + 8 + length env) framed ≡ env
  framed-env =
      let size : length done + 8 + length env - (length done + 8) ≡ length env = omega arith in
      rw
        (
          size,
          ← drop-drop (length done) 8 framed,
          drop-append (length done) done (big_endian 8 (length env) ++ (env ++ rest)) refl,
          drop-append 8 (big_endian 8 (length env)) (env ++ rest)
              (length-big_endian 8 (length env)),
        )
        (take-append (length env) env rest refl)

  length-framed : length framed ≡ length done + (8 + (length env + length rest))
  length-framed = omega (
    arith,
    length-append done (big_endian 8 (length env) ++ (env ++ rest)),
    length-append (big_endian 8 (length env)) (env ++ rest),
    length-append env rest,
    length-big_endian 8 (length env),
  )

module _ (p : Primitives) (manifest secret epoch : Value) (user : Bytes) (f : StreamHeader) where
  -- The first segment of a run of the sealing loop, and the run of the others.
  pub record Segment (calls : ℕ) (s : Bytes) (i lo hi : ℕ) (rest : List (ℕ × ℕ)) (out : Bytes)
      (after : ℕ) : Type 0 where
    pub ctx : Bytes
    pub env : Bytes
    pub more : Bytes
    pub mid : ℕ
    pub in_context :
        seg_context user f.stream_id i f.num_segments f.total_len f.segment_size ≡ ok ctx
    pub sealed :
        seal_state p calls (bytes (slice lo hi s)) manifest secret epoch (bytes ctx) Value.none
        ≡ ok (env, mid)
    pub small : length env < 256 ^ 8
    pub others : seal_segments p mid s manifest secret epoch user f (i + 1) rest ≡ ok (more, after)
    pub layout : out ≡ big_endian 8 (length env) ++ (env ++ more)

  pub seal_segments-Segment :
      (calls : ℕ) (s : Bytes) (i lo hi : ℕ) (rest : List (ℕ × ℕ)) {out : Bytes} {after : ℕ}
      → seal_segments p calls s manifest secret epoch user f i ((lo, hi) ∷ rest) ≡ ok (out, after)
      → Segment calls s i lo hi rest out after
  unfolding seal_segments
  seal_segments-Segment calls s i lo hi rest h =
      let (ctx, hc, h₁) =
        >>=-eq-ok (seg_context user f.stream_id i f.num_segments f.total_len f.segment_size) _ h in
      let (env, he, h₂) =
        >>=-eq-ok
          (seal_state p calls (bytes (slice lo hi s)) manifest secret epoch (bytes ctx) Value.none)
          _ h₁ in
      let (frame, hf, h₃) = >>=-eq-ok (pack_seg_frame (length env.0)) _ h₂ in
      let (more, hm, h₄) =
        >>=-eq-ok (seal_segments p env.1 s manifest secret epoch user f (i + 1) rest) _ h₃ in
      let (small, ef) = pack_seg_frame-eq-ok (length env.0) hf in
      let done = ok-injective h₄ in
      record {
        ctx = ctx;
        env = env.0;
        more = more.0;
        mid = env.1;
        in_context = hc;
        sealed = he;
        small = small;
        others = hm ∙ ap (λ (n : ℕ). ok (more.0, n)) (ap (λ (z : Bytes × ℕ). z.1) done);
        layout = sym (ap (λ (z : Bytes × ℕ). z.0) done) ∙ ap (λ b. b ++ (env.0 ++ more.0)) ef;
      }

  -- One round of the opening loop on a frame that opens.
  pub open_segment-framed :
      (done env rest ctx segment container : Bytes) (i a : ℕ) (parts : List Bytes)
      → container ≡ framed done env rest
      → length env < 256 ^ 8
      → seg_context user f.stream_id i f.num_segments f.total_len f.segment_size ≡ ok ctx
      → unseal_state p (bytes env) manifest secret epoch (bytes ctx) ≡ ok segment
      → open_segment p container manifest secret epoch user f i
          (record { off = length done; parts = parts; assembled = a })
        ≡ ok (record {
          off = length done + 8 + length env;
          parts = parts ++ segment ∷ [];
          assembled = a + length segment;
        })
  unfolding open_segment
  open_segment-framed done env rest ctx segment container i a parts hc small hx hu = rw (
    hc,
    framed-frame done env rest,
    from_bytes-big_endian 8 (length env) small,
    le→ltb (length (framed done env rest)) (length done + 8)
        (omega (arith, length-framed done env rest)),
    le→ltb (length (framed done env rest) - (length done + 8)) (length env)
        (omega (arith, length-framed done env rest)),
    hx,
    framed-env done env rest,
    hu,
  )

  module _ (d : Documented p) where
    Segment-opens :
        (calls : ℕ) (s : Bytes) (i lo hi : ℕ) (rest : List (ℕ × ℕ)) {out : Bytes} {after : ℕ}
        → (q : Segment calls s i lo hi rest out after)
        → unseal_state p (bytes q.env) manifest secret epoch (bytes q.ctx) ≡ ok (slice lo hi s)
    Segment-opens calls s i lo hi rest q =
        unseal_state-seal_state p d calls (bytes (slice lo hi s)) manifest secret epoch
          (bytes q.ctx) Value.none (unfold require_state in refl) q.sealed

    length-Segment :
        (calls : ℕ) (s : Bytes) (i lo hi : ℕ) (rest : List (ℕ × ℕ)) {out : Bytes} {after : ℕ}
        → (q : Segment calls s i lo hi rest out after) → length q.env ≡ length (slice lo hi s) + 85
    length-Segment calls s i lo hi rest q =
        length-seal_state p d calls (bytes (slice lo hi s)) manifest secret epoch (bytes q.ctx)
          Value.none (unfold require_state in refl) q.sealed

    -- Each segment takes its frame, its plaintext and the 85 bytes of its envelope.
    pub length-seal_segments :
        (bs : List (ℕ × ℕ)) (calls : ℕ) (s : Bytes) (i : ℕ) {out : Bytes} {after : ℕ}
        → seal_segments p calls s manifest secret epoch user f i bs ≡ ok (out, after)
        → length out ≡ length (join (pieces s bs)) + 93 * length bs
    unfolding seal_segments join
    length-seal_segments [] calls s i h =
        omega (arith, ap length (ap (λ (z : Bytes × ℕ). z.0) (ok-injective h)))
    length-seal_segments ((lo, hi) ∷ rest) calls s i h =
        let q = seal_segments-Segment calls s i lo hi rest h in
        omega (
          arith,
          ap length q.layout,
          length-append (big_endian 8 (length q.env)) (q.env ++ q.more),
          length-append q.env q.more,
          length-big_endian 8 (length q.env),
          length-Segment calls s i lo hi rest q,
          length-append (slice lo hi s) (join (pieces s rest)),
          length-seal_segments rest q.mid s (i + 1) q.others,
        )

    -- What the sealing loop appends is the frames of the pieces of the state.
    pub seal_segments-Frames :
        (bs : List (ℕ × ℕ)) (calls : ℕ) (s : Bytes) (i : ℕ) {out : Bytes} {after : ℕ}
        → seal_segments p calls s manifest secret epoch user f i bs ≡ ok (out, after)
        → Frames p manifest secret epoch user f (pieces s bs) i out []
    unfolding seal_segments
    seal_segments-Frames [] calls s i h = sym (ap (λ (z : Bytes × ℕ). z.0) (ok-injective h))
    seal_segments-Frames ((lo, hi) ∷ rest) calls s i h =
        let q = seal_segments-Segment calls s i lo hi rest h in
        (
          q.env,
          q.ctx,
          q.more,
          record {
            layout = q.layout;
            small = q.small;
            in_context = q.in_context;
            opens = Segment-opens calls s i lo hi rest q;
          },
          seal_segments-Frames rest q.mid s (i + 1) q.others,
        )
