-- ===== src/Chunked/Errors.antt =====
-- The exceptions of sce/stream.py.
use native.Mathlib.Nat.{mul-suc}
use sce.Base.{
  ℕ, zero, suc, ◌+◌, ◌-◌, ◌/◌, ◌≤◌, ◌<◌, ◌^◌, ◌≡◌, refl, not, ◌&&◌, ◌==◌, ltb, lt→ltb, le→ltb,
  arith, false, ◌*◌, List, [], ◌∷◌, length,
}
use sce.Error.{
  ok, raise, overflow_error, OnlySceError, OnlySceError-ok, OnlySceError-bind, OnlySceError-guard,
}
use sce.Value.{Bytes, Value, ModelManifest, int, pos, bytes, model_manifest}
use sce.Bytes.{IsBytes, max_lp_field, from_bytes, slice, to_bytes, stream_lp}
use sce.Library.{Primitives, Documented}
use sce.Manifest.{require_manifest}
use sce.Manifest.Construct.{IsManifest}
use sce.Envelope.{pack_uint, require_envelope_bytes}
use sce.Seal.{max_state, require_state, require_context, unseal_state}
use sce.Seal.Total.{
  unseal_state-OnlySceError, require_manifest-OnlySceError, require_context-OnlySceError,
}
use sce.Stream.{
  seg_context, check_segment_size, bounds, pack_stream_header, StreamHeader, parse_stream_header,
  parse_stream_bytes,
}
use sce.Stream.Accepts.{parse_stream_bytes-Fits}
use sce.Stream.Bounds.{bounds-Covers}
use sce.Stream.Context.{seg_context-ok}
use sce.Stream.Layout.{Fits}
use sce.Chunked.Splice.{position}
use sce.Chunked.{
  Cursor, seal_segments, seal_state_chunked, open_segment, open_segments, finish,
  unseal_state_chunked,
}

pub parse_stream_bytes-OnlySceError : (s : Bytes) → OnlySceError (parse_stream_bytes s)
unfolding parse_stream_bytes
parse_stream_bytes-OnlySceError s = record { caught = λ e h. ground arith }

finish-OnlySceError : (s : Bytes) (f : StreamHeader) (c : Cursor) → OnlySceError (finish s f c)
unfolding finish
finish-OnlySceError s f c = record { caught = λ e h. ground arith }

pub few : (n size len : ℕ) → 0 < size → (n - 1) * size ≤ len - 1 → n ≤ len + 1
few n zero len h k = absurd (omega arith)
few n (suc size) len h k = omega (arith, mul-suc (n - 1) size)

not_zero : (n : ℕ) → 0 < n → (n == 0) ≡ false
not_zero n h = ground arith

module _ (p : Primitives) (d : Documented p) (container : Bytes) (manifest secret epoch : Value)
    (known : (m : ModelManifest) → manifest ≡ model_manifest m → IsManifest p m) (user : Bytes)
    (short : length user ≤ max_lp_field) (f : StreamHeader) (fits : Fits f) where
  position-OnlySceError : (i : ℕ) → i < f.num_segments → OnlySceError (position user f i)
  position-OnlySceError i hi =
      let (ctx, hc) =
        seg_context-ok user f.stream_id i f.num_segments f.total_len f.segment_size short
          (omega (arith, fits.id_size)) (omega (arith, fits.count)) fits.count fits.total
          fits.segment in
      rw hc (OnlySceError-ok ctx)

  open_segment-OnlySceError :
      (i : ℕ) (c : Cursor)
      → i < f.num_segments
      → OnlySceError (open_segment p container manifest secret epoch user f i c)
  unfolding open_segment
  open_segment-OnlySceError i c hi =
      let start = c.off + 8 in
      let size = from_bytes 0 (slice c.off start container) in
      let env = bytes (slice start (start + size) container) in
      OnlySceError-guard (ltb (length container) start) _ _ refl λ h₁.
        OnlySceError-guard (ltb (length container - start) size) _ _ refl λ h₂.
          OnlySceError-bind (position user f i) _ (position-OnlySceError i hi) λ ctx hc.
            OnlySceError-bind (unseal_state p env manifest secret epoch (bytes ctx)) _
              (unseal_state-OnlySceError p d env manifest secret epoch (bytes ctx) known)
              λ t ht. OnlySceError-ok _

  open_segments-OnlySceError :
      (k i : ℕ) (c : Cursor)
      → i + k ≡ f.num_segments
      → OnlySceError (open_segments p k container manifest secret epoch user f i c)
  unfolding open_segments
  open_segments-OnlySceError zero i c h = OnlySceError-ok c
  open_segments-OnlySceError (suc k) i c h =
      OnlySceError-bind (open_segment p container manifest secret epoch user f i c) _
        (open_segment-OnlySceError i c (omega arith))
        λ next hn. open_segments-OnlySceError k (i + 1) next (omega arith)

module _ (p : Primitives) where
  -- Whatever values `unseal_state_chunked` is given with a string of bytes, a manifest among them
  -- being a constructed one and a context within the 4-byte limit, it returns or raises an exception
  -- of the library, with primitives as documented.
  pub unseal_state_chunked-OnlySceError :
      Documented p
      → (container : Bytes) (manifest secret epoch context : Value) → IsBytes container
      → ((m : ModelManifest) → manifest ≡ model_manifest m → IsManifest p m)
      → ((c : Bytes) → require_context context ≡ ok c → length c ≤ max_lp_field)
      → OnlySceError (unseal_state_chunked p (bytes container) manifest secret epoch context)
  unfolding unseal_state_chunked require_envelope_bytes parse_stream_header
  unseal_state_chunked-OnlySceError d container manifest secret epoch context valid known short =
      OnlySceError-bind (require_manifest manifest) _ (require_manifest-OnlySceError manifest)
        λ m hm.
          OnlySceError-bind (require_context context) _ (require_context-OnlySceError context)
            λ user hu.
              OnlySceError-bind (parse_stream_bytes container) _
                (parse_stream_bytes-OnlySceError container)
                λ f hf. OnlySceError-guard (f.num_segments == 0) _ _ refl λ e₁.
                  OnlySceError-guard (f.total_len == 0 && not (f.num_segments == 1)) _ _ refl λ e₂.
                    OnlySceError-guard (ltb ((length container - 45) / 9) f.num_segments) _ _ refl
                      λ e₃.
                        OnlySceError-bind
                          (open_segments p f.num_segments container manifest secret epoch user f 0
                            _)
                          _
                          (open_segments-OnlySceError p d container manifest secret epoch known user
                            (short user hu) f (parse_stream_bytes-Fits container f valid hf).0
                            f.num_segments 0 _ (omega arith))
                          λ last hl. finish-OnlySceError container f last

  position_overflow :
      (user : Bytes) (f : StreamHeader) (i : ℕ)
      → max_lp_field < length user
      → position user f i ≡ raise overflow_error
  unfolding seg_context stream_lp to_bytes
  position_overflow user f i h = rw (le→ltb (length user) (256 ^ 4) (omega arith)) refl

  seal_segments_overflow :
      (bs : List (ℕ × ℕ)) (calls : ℕ) (s : Bytes) (manifest secret epoch : Value) (user : Bytes)
      (f : StreamHeader) (i : ℕ)
      → 1 ≤ length bs
      → max_lp_field < length user
      → seal_segments p calls s manifest secret epoch user f i bs ≡ raise overflow_error
  unfolding seal_segments
  seal_segments_overflow [] calls s manifest secret epoch user f i n h = absurd (omega arith)
  seal_segments_overflow ((lo, hi) ∷ bs) calls s manifest secret epoch user f i n h =
      rw (position_overflow user f i h) refl

  -- A context above the 4-byte limit escapes `seal_state_chunked` as a raw OverflowError, whatever
  -- the manifest, secret and epoch, for a state and a segment size that it admits.
  pub seal_state_chunked-overflow :
      (calls : ℕ) (m : ModelManifest) (s c : Bytes) (secret epoch : Value) (size : ℕ)
      → 0 < size
      → size ≤ max_state
      → length s + 1 < 2 ^ 64
      → max_lp_field < length c
      → seal_state_chunked p calls
          (bytes s)
          (model_manifest m)
          secret
          epoch
          (bytes c)
          (int (pos size))
        ≡ raise overflow_error
  unfolding seal_state_chunked require_manifest require_state require_context check_segment_size
      pack_stream_header pack_uint
  seal_state_chunked-overflow calls m s c secret epoch size positive small fits long =
      let covers = bounds-Covers size s positive in
      let count : length (bounds (length s) size) < 256 ^ 8 =
        omega (arith, few _ size (length s) positive covers.fewest) in
      rw
        (
          not_zero size positive,
          le→ltb max_state size small,
          lt→ltb (length (bounds (length s) size)) (256 ^ 8) count,
          lt→ltb size (256 ^ 8) (omega arith),
          lt→ltb (length s) (256 ^ 8) (omega arith),
          seal_segments_overflow (bounds (length s) size) (calls + 1) s (model_manifest m) secret
              epoch c _ 0 covers.nonempty long,
        )
        refl
