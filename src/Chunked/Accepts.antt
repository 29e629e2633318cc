-- ===== src/Chunked/Accepts.antt =====
-- A description of the containers of sce/stream.py, and `unseal_state_chunked` against it.
use sce.Base.{
  ℕ, zero, suc, ◌-◌, ◌/◌, ◌≤◌, ◌≡◌, refl, sym, ◌∙◌, ap, not, ◌&&◌, false, List, [], ◌∷◌, ◌++◌,
  arith, length, drop, take-append-drop, ltb, ◌==◌, ==→eq, not-false,
}
use mathlib.Core.Path.{subst}
use sce.Error.{ok, >>=-eq-ok, raise_if-eq-ok, ok-injective}
use sce.Value.{Bytes, Value, ModelManifest, bytes}
use sce.Bytes.{IsBytes}
use sce.Library.{Primitives}
use sce.Manifest.{require_manifest}
use sce.Envelope.{require_envelope_bytes}
use sce.Seal.{require_context}
use sce.Stream.{StreamHeader, join, parse_stream_header, parse_stream_bytes}
use sce.Stream.Layout.{stream_header, Fits}
use sce.Stream.Accepts.{parse_stream_bytes-Fits}
use sce.Chunked.{Cursor, open_segments, finish, unseal_state_chunked}
use sce.Chunked.Frames.{Frames, open_segments-OpenedAll}

-- A container of a header and the frames that it counts, and nothing else. Each envelope opens as
-- the segment of its place, and the plaintexts together have the length that the header says.
pub record IsContainer (p : Primitives) (manifest secret epoch : Value) (user container t : Bytes)
    : Type 0 where
  pub f : StreamHeader
  pub parts : List Bytes
  pub body : Bytes
  pub fits : Fits f
  pub layout : container ≡ stream_header f ++ body
  pub frames : Frames p manifest secret epoch user f parts 0 body []
  pub counted : length parts ≡ f.num_segments
  pub nonempty : 1 ≤ f.num_segments
  pub lone : f.total_len ≡ 0 → f.num_segments ≡ 1
  pub total : length t ≡ f.total_len
  pub joined : t ≡ join parts

not_empty : (n : ℕ) → (n == 0) ≡ false → 1 ≤ n
not_empty n h = ground arith

is_lone : (len n : ℕ) → (len == 0 && not (n == 1)) ≡ false → len ≡ 0 → n ≡ 1
is_lone len n h e = ground arith

drop_end : (n : ℕ) (b : Bytes) → n ≡ length b → drop n b ≡ []
drop_end n [] h = rw h refl
drop_end zero (x ∷ b) h = absurd (omega arith)
drop_end (suc n) (x ∷ b) h = drop_end n b (omega arith)

finish-eq-ok :
    (container : Bytes) (f : StreamHeader) (c : Cursor) {t : Bytes}
    → finish container f c ≡ ok t
    → (c.off ≡ length container) × (c.assembled ≡ f.total_len) × (join c.parts ≡ t)
unfolding finish
finish-eq-ok container f c h =
    let (t₁, h₁) = raise_if-eq-ok (not (c.off == length container)) _ _ h in
    let (t₂, h₂) = raise_if-eq-ok (not (c.assembled == f.total_len)) _ _ h₁ in
    (==→eq _ _ (not-false _ t₁), ==→eq _ _ (not-false _ t₂), ok-injective h₂)

module _ (p : Primitives) (container : Bytes) (manifest secret epoch context : Value) where
  -- A string of bytes that `unseal_state_chunked` opens is a container: a header, then exactly as
  -- many frames as it counts and at least one, each of an envelope that opens under the context of
  -- its place; the plaintext is theirs in order, and as long as the header says.
  pub unseal_state_chunked-IsContainer :
      {t : Bytes}
      → IsBytes container
      → unseal_state_chunked p (bytes container) manifest secret epoch context ≡ ok t
      → (user : Bytes) × (m : ModelManifest) × (require_manifest manifest ≡ ok m)
        × (require_context context ≡ ok user)
        × IsContainer p manifest secret epoch user container t
  unfolding unseal_state_chunked require_envelope_bytes parse_stream_header
  unseal_state_chunked-IsContainer {t} valid h =
      let (m, hm, h₁) = >>=-eq-ok (require_manifest manifest) _ h in
      let (user, hu, h₂) = >>=-eq-ok (require_context context) _ h₁ in
      let (f, hf, h₃) = >>=-eq-ok (parse_stream_bytes container) _ h₂ in
      let (t₁, h₄) = raise_if-eq-ok (f.num_segments == 0) _ _ h₃ in
      let (t₂, h₅) = raise_if-eq-ok (f.total_len == 0 && not (f.num_segments == 1)) _ _ h₄ in
      let (t₃, h₆) = raise_if-eq-ok (ltb ((length container - 45) / 9) f.num_segments) _ _ h₅ in
      let start : Cursor = record { off = 45; parts = []; assembled = 0 } in
      let (last, hl, h₇) =
        >>=-eq-ok (open_segments p f.num_segments container manifest secret epoch user f 0 start) _
          h₆ in
      let (at_end, total, joined) = finish-eq-ok container f last h₇ in
      let r =
        open_segments-OpenedAll p manifest secret epoch user f f.num_segments container 0 start
          valid hl in
      let (fits, head) = parse_stream_bytes-Fits container f valid hf in
      let same : t ≡ join r.found = sym joined ∙ ap join r.parts_eq in
      (
        user,
        m,
        hm,
        hu,
        record {
          f = f;
          parts = r.found;
          body = drop 45 container;
          fits = fits;
          layout = sym (take-append-drop 45 container) ∙ ap (λ b. b ++ drop 45 container) head;
          frames =
              subst (Frames p manifest secret epoch user f r.found 0 (drop 45 container))
                (drop_end last.off container at_end) r.frames;
          counted = r.counted;
          nonempty = not_empty f.num_segments t₁;
          lone = is_lone f.total_len f.num_segments t₂;
          total = omega (arith, ap length same, r.assembled_eq, total);
          joined = same;
        },
      )
