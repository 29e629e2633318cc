-- ===== src/Chunked/Opens.antt =====
-- `unseal_state_chunked` of sce/stream.py on the containers of Chunked.Accepts.
use sce.Base.{
  ℕ, ◌+◌, ◌-◌, ◌*◌, ◌/◌, ◌≤◌, ◌≡◌, refl, sym, ◌∙◌, ap, not, ◌&&◌, true, false, Bool-cases, inl, inr,
  List, [], ◌∷◌, ◌++◌, arith, length, length-append, append_assoc, append-nil, le→ltb, ◌==◌, ==→eq,
  ==-refl,
}
use sce.Error.{ok}
use sce.Value.{Bytes, Value, ModelManifest, bytes}
use sce.Bytes.{big_endian}
use sce.Bytes.Laws.{length-big_endian}
use sce.Library.{Primitives}
use sce.Manifest.{require_manifest}
use sce.Envelope.{require_envelope_bytes, parse}
use sce.Envelope.Accepts.{parse_bytes-enough}
use sce.Seal.{require_context, unseal_state}
use sce.Seal.Open.{unseal_state-Unsealed}
use sce.Stream.{StreamHeader, join, parse_stream_header, parse_stream_bytes}
use sce.Stream.Layout.{stream_header, length-stream_header, parse_stream_bytes-stream_header}
use sce.Chunked.{open_segments, finish, unseal_state_chunked}
use sce.Chunked.Segments.{cursor-eq, framed, open_segment-framed}
use sce.Chunked.Frames.{Frames}
use sce.Chunked.Accepts.{IsContainer}

lone_passes : (len n : ℕ) → (len ≡ 0 → n ≡ 1) → (len == 0 && not (n == 1)) ≡ false
lone_passes len n h = elim (Bool-cases (len == 0)) [
  | inl e ↦ rw (e, h (==→eq len 0 e)) refl
  | inr e ↦ rw e refl
]

passes : (n : ℕ) → 1 ≤ n → (n == 0) ≡ false
passes n h = ground arith

from_zero : (n : ℕ) → (0 + n == n) ≡ true
from_zero n = ground arith

module _ (p : Primitives) (container : Bytes) (manifest secret epoch context : Value) where
  unseal_state-enough :
      (env : Bytes) (ctx : Value) {t : Bytes}
      → unseal_state p (bytes env) manifest secret epoch ctx ≡ ok t
      → 69 ≤ length env
  unseal_state-enough env ctx h =
      let r = unseal_state-Unsealed p (bytes env) manifest secret epoch ctx h in
      parse_bytes-enough env {f = r.f} (unfold parse require_envelope_bytes in r.parsed)

  module _ (user : Bytes) (f : StreamHeader) where
    -- Frames are long enough for the bound on the number of segments.
    Frames-long :
        (parts : List Bytes) (i : ℕ) (todo : Bytes)
        → Frames p manifest secret epoch user f parts i todo []
        → 9 * length parts ≤ length todo
    Frames-long [] i todo h = omega arith
    Frames-long (segment ∷ parts) i todo (env, ctx, more, q, rest) = omega (
      arith,
      ap length q.layout,
      length-append (big_endian 8 (length env)) (env ++ more),
      length-append env more,
      length-big_endian 8 (length env),
      unseal_state-enough env (bytes ctx) q.opens,
      Frames-long parts (i + 1) more rest,
    )

    -- The loop opens frames to the end of a container.
    open_segments-Frames :
        (parts : List Bytes) (i : ℕ) (todo done : Bytes) (ps : List Bytes) (a : ℕ)
        → Frames p manifest secret epoch user f parts i todo []
        → container ≡ done ++ todo
        → open_segments p
            (length parts)
            container
            manifest
            secret
            epoch
            user
            f
            i
            (record { off = length done; parts = ps; assembled = a })
          ≡ ok (record {
            off = length container;
            parts = ps ++ parts;
            assembled = a + length (join parts);
          })
    unfolding open_segments join
    open_segments-Frames [] i todo done ps a h hc =
        cursor-eq (omega (arith, ap length (hc ∙ ap (λ o. done ++ o) h), length-append done []))
          (sym (append-nil ps)) (omega arith)
    open_segments-Frames (segment ∷ parts) i todo done ps a (env, ctx, more, q, rest) hc =
        let whole : container ≡ framed done env more = hc ∙ ap (λ o. done ++ o) q.layout in
        let done' = done ++ (big_endian 8 (length env) ++ env) in
        let at : length done' ≡ length done + 8 + length env = omega (
          arith,
          length-append done (big_endian 8 (length env) ++ env),
          length-append (big_endian 8 (length env)) env,
          length-big_endian 8 (length env),
        ) in
        rw
          (
            open_segment-framed p manifest secret epoch user f done env more ctx segment container i
                a ps whole q.small q.in_context q.opens,
            ← at,
          )
          (open_segments-Frames parts (i + 1) more done' (ps ++ segment ∷ []) (a + length segment)
              rest (whole ∙ simp append_assoc)
            ∙ cursor-eq refl (append_assoc ps (segment ∷ []) parts)
                (omega (arith, length-append segment (join parts))))

  -- Whatever is a container, under a manifest and a context that pass their checks, opens, and to
  -- the plaintexts of its segments.
  pub IsContainer-unseal_state_chunked :
      (user t : Bytes) (m : ModelManifest)
      → require_manifest manifest ≡ ok m
      → require_context context ≡ ok user
      → IsContainer p manifest secret epoch user container t
      → unseal_state_chunked p (bytes container) manifest secret epoch context ≡ ok t
  unfolding unseal_state_chunked require_envelope_bytes parse_stream_header finish
  IsContainer-unseal_state_chunked user t m hm hu z =
      let f = z.f in
      let parsed : parse_stream_bytes container ≡ ok f =
        ap parse_stream_bytes z.layout ∙ parse_stream_bytes-stream_header f z.fits z.body in
      let long : f.num_segments ≤ (length container - 45) / 9 = omega (
        arith,
        ap length z.layout,
        length-append (stream_header f) z.body,
        length-stream_header f z.fits,
        Frames-long user f z.parts 0 z.body z.frames,
        z.counted,
      ) in
      let opened : _ ≡ _ =
        (λ k.
          open_segments p (sym z.counted k) container manifest secret epoch user f 0
            (record { off = sym (length-stream_header f z.fits) k; parts = []; assembled = 0 }))
        ∙ open_segments-Frames user f z.parts 0 z.body (stream_header f) [] 0 z.frames z.layout in
      rw
        (
          hm,
          hu,
          parsed,
          passes f.num_segments z.nonempty,
          lone_passes f.total_len f.num_segments z.lone,
          le→ltb ((length container - 45) / 9) f.num_segments long,
          opened,
          ==-refl (length container),
          ← z.joined,
          ← z.total,
          from_zero (length t),
        )
        refl
