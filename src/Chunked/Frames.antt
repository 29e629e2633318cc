-- ===== src/Chunked/Frames.antt =====
-- The frames of a container of sce/stream.py, and the loop of `unseal_state_chunked` over them.
use sce.Base.{
  ℕ, zero, suc, ◌+◌, ◌-◌, ◌≤◌, ◌<◌, ◌^◌, ◌≡◌, refl, sym, ◌∙◌, ap, List, [], ◌∷◌, ◌++◌, arith,
  length, drop, length-append, append_assoc, append-nil, ltb, ltb→le,
}
use mathlib.Core.Path.{subst}
use sce.Error.{ok, >>=-eq-ok, raise_if-eq-ok, ok-injective}
use sce.Value.{Bytes, Value, bytes}
use sce.Bytes.{big_endian, from_bytes, slice, IsBytes}
use sce.Bytes.Slices.{cut, length-slice, slice-big_endian, from_bytes_slice-lt}
use sce.Library.{Primitives}
use sce.Seal.{unseal_state}
use sce.Stream.{seg_context, StreamHeader, join}
use sce.Chunked.{Cursor, open_segment, open_segments}

module _ (p : Primitives) (manifest secret epoch : Value) (user : Bytes) (f : StreamHeader) where
  -- A frame at the head of a container's rest, whose envelope opens as segment `i`.
  pub record Frame (i : ℕ) (todo segment env ctx more : Bytes) : Type 0 where
    pub layout : todo ≡ big_endian 8 (length env) ++ (env ++ more)
    pub small : length env < 256 ^ 8
    pub in_context :
        seg_context user f.stream_id i f.num_segments f.total_len f.segment_size ≡ ok ctx
    pub opens : unseal_state p (bytes env) manifest secret epoch (bytes ctx) ≡ ok segment

  -- The frames of consecutive segments, from segment `i` on, and what stands after them.
  abbrev pub Frames : List Bytes → ℕ → Bytes → Bytes → Type 0
  Frames [] i todo rest = todo ≡ rest
  Frames (segment ∷ parts) i todo rest =
      (env : Bytes) × (ctx : Bytes) × (more : Bytes) × Frame i todo segment env ctx more
      × Frames parts (i + 1) more rest

  -- What one round of the opening loop did.
  record Opened (container : Bytes) (i : ℕ) (c next : Cursor) : Type 0 where
    segment : Bytes
    env : Bytes
    ctx : Bytes
    frame : Frame i (drop c.off container) segment env ctx (drop next.off container)
    bounded : next.off ≤ length container
    parts_eq : next.parts ≡ c.parts ++ segment ∷ []
    assembled_eq : next.assembled ≡ c.assembled + length segment

  open_segment-Opened :
      (container : Bytes) (i : ℕ) (c : Cursor) {next : Cursor}
      → IsBytes container
      → open_segment p container manifest secret epoch user f i c ≡ ok next
      → Opened container i c next
  unfolding open_segment
  open_segment-Opened container i c {next} valid h =
      let (t₁, h₁) = raise_if-eq-ok (ltb (length container) (c.off + 8)) _ _ h in
      let size = from_bytes 0 (slice c.off (c.off + 8) container) in
      let start = c.off + 8 in
      let (t₂, h₂) = raise_if-eq-ok (ltb (length container - start) size) _ _ h₁ in
      let env = slice start (start + size) container in
      let (ctx, hc, h₃) =
        >>=-eq-ok (seg_context user f.stream_id i f.num_segments f.total_len f.segment_size) _ h₂ in
      let (segment, hs, h₄) =
        >>=-eq-ok (unseal_state p (bytes env) manifest secret epoch (bytes ctx)) _ h₃ in
      let room : c.off + 8 ≤ length container = ltb→le (length container) (c.off + 8) t₁ in
      let fits : size ≤ length container - start = ltb→le (length container - start) size t₂ in
      let same = ok-injective h₄ in
      let sized : length env ≡ size =
        length-slice start (start + size) container (omega arith) ∙ omega arith in
      subst (Opened container i c) same (record {
        segment = segment;
        env = env;
        ctx = ctx;
        frame = record {
          layout = cut c.off start container (omega arith) ∙ (λ k.
              (slice-big_endian 8 c.off container valid room ∙ ap (big_endian 8) (sym sized)) k
              ++ cut start (start + size) container (omega arith) k);
          small = omega (arith, sized, from_bytes_slice-lt 8 c.off container valid room);
          in_context = hc;
          opens = hs;
        };
        bounded = omega arith;
        parts_eq = refl;
        assembled_eq = refl;
      })

  -- What the opening loop did with `k` segments.
  pub record OpenedAll (container : Bytes) (k i : ℕ) (c last : Cursor) : Type 0 where
    pub found : List Bytes
    pub frames : Frames found i (drop c.off container) (drop last.off container)
    pub counted : length found ≡ k
    pub parts_eq : last.parts ≡ c.parts ++ found
    pub assembled_eq : last.assembled ≡ c.assembled + length (join found)

  pub open_segments-OpenedAll :
      (k : ℕ) (container : Bytes) (i : ℕ) (c : Cursor) {last : Cursor}
      → IsBytes container
      → open_segments p k container manifest secret epoch user f i c ≡ ok last
      → OpenedAll container k i c last
  unfolding open_segments join
  open_segments-OpenedAll zero container i c valid h =
      subst (OpenedAll container 0 i c) (ok-injective h) (record {
        found = [];
        frames = refl;
        counted = refl;
        parts_eq = sym (append-nil c.parts);
        assembled_eq = omega arith;
      })
  open_segments-OpenedAll (suc k) container i c {last} valid h =
      let (next, hn, h₁) =
        >>=-eq-ok (open_segment p container manifest secret epoch user f i c) _ h in
      let o = open_segment-Opened container i c valid hn in
      let r = open_segments-OpenedAll k container (i + 1) next valid h₁ in
      record {
        found = o.segment ∷ r.found;
        frames = (o.env, o.ctx, drop next.off container, o.frame, r.frames);
        counted = ap suc r.counted;
        parts_eq =
            r.parts_eq
            ∙ ap (λ x. x ++ r.found) o.parts_eq
            ∙ append_assoc c.parts (o.segment ∷ []) r.found;
        assembled_eq =
            omega (arith, r.assembled_eq, o.assembled_eq, length-append o.segment (join r.found));
      }
