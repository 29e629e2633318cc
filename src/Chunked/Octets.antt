-- ===== src/Chunked/Octets.antt =====
-- Containers of sce/stream.py as strings of bytes.
use sce.Base.{
  ℕ, ◌+◌, ◌≡◌, refl, sym, ◌∙◌, ap, List, [], ◌∷◌, arith, length, drop, All-append, All-take,
  All-drop,
}
use mathlib.Core.Path.{subst}
use sce.Error.{ok, ok-injective}
use sce.Value.{Bytes, Value, bytes}
use sce.Bytes.{IsBytes, big_endian, slice}
use sce.Library.{Primitives, Documented}
use sce.Library.Octets.{Octets}
use sce.Seal.{require_state}
use sce.Seal.Octets.{big_endian-IsBytes, seal_state-IsBytes}
use sce.Stream.{StreamHeader, bounds}
use sce.Stream.Layout.{stream_header}
use sce.Chunked.{seal_segments, seal_state_chunked}
use sce.Chunked.Segments.{seal_segments-Segment}
use sce.Chunked.RoundTrip.{seal_state_chunked-ChunkedRun}

pub stream_header-IsBytes : (f : StreamHeader) → IsBytes f.stream_id → IsBytes (stream_header f)
unfolding stream_header
stream_header-IsBytes f h =
    let numbers =
      All-append _ (big_endian 8 f.num_segments) _ (big_endian-IsBytes 8 f.num_segments) (
        All-append _ (big_endian 8 f.segment_size) _ (big_endian-IsBytes 8 f.segment_size)
          (big_endian-IsBytes 8 f.total_len)) in
    let rest = All-append _ f.stream_id _ h numbers in
    (omega arith, (omega arith, (omega arith, (omega arith, (omega arith, rest)))))

module _ (p : Primitives) (d : Documented p) (o : Octets p) where
  seal_segments-IsBytes :
      (manifest secret epoch : Value) (user : Bytes) (f : StreamHeader) (bs : List (ℕ × ℕ))
      (calls : ℕ) (s : Bytes) (i : ℕ) {out : Bytes} {after : ℕ}
      → IsBytes s
      → seal_segments p calls s manifest secret epoch user f i bs ≡ ok (out, after)
      → IsBytes out
  unfolding seal_segments
  seal_segments-IsBytes manifest secret epoch user f [] calls s i valid h =
      subst IsBytes (ap (λ (z : Bytes × ℕ). z.0) (ok-injective h)) tt
  seal_segments-IsBytes manifest secret epoch user f ((lo, hi) ∷ bs) calls s i valid h =
      let q = seal_segments-Segment p manifest secret epoch user f calls s i lo hi bs h in
      let env =
        seal_state-IsBytes p d o calls (bytes (slice lo hi s)) manifest secret epoch (bytes q.ctx)
          Value.none {s = slice lo hi s} (unfold require_state in refl)
          (All-take _ _ (drop lo s) (All-drop _ lo s valid)) q.sealed in
      let more =
        seal_segments-IsBytes manifest secret epoch user f bs q.mid s (i + 1) valid q.others in
      subst IsBytes (sym q.layout) (
        All-append _ (big_endian 8 (length q.env)) _ (big_endian-IsBytes 8 (length q.env))
          (All-append _ q.env q.more env more))

  -- A container of a state of bytes is a string of bytes.
  pub seal_state_chunked-IsBytes :
      (calls : ℕ) (state manifest secret epoch context segment_size : Value) {container s : Bytes}
      {after : ℕ}
      → require_state state ≡ ok s
      → IsBytes s
      → seal_state_chunked p calls state manifest secret epoch context segment_size
        ≡ ok (container, after)
      → IsBytes container
  seal_state_chunked-IsBytes calls state manifest secret epoch context segment_size hs valid h =
      let r =
        seal_state_chunked-ChunkedRun p d calls state manifest secret epoch context segment_size
          h in
      let body =
        seal_segments-IsBytes manifest secret epoch r.user _ (bounds (length r.s) r.size)
          (calls + 1) r.s 0 (subst IsBytes (ok-injective (sym hs ∙ r.is_state)) valid) r.made in
      subst IsBytes (sym r.layout) (
        All-append _ (stream_header _) r.out (stream_header-IsBytes _ (o.urandom-IsBytes calls 16))
          body)
