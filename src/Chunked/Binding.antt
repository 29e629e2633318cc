-- ===== src/Chunked/Binding.antt =====
-- One container of sce/stream.py, opened under two environments.
use sce.Base.{
  ℕ, ◌+◌, ◌≤◌, ◌<◌, ◌^◌, ◌≡◌, ◌⊎◌, inl, inr, refl, sym, ◌∙◌, ap, List, [], ◌∷◌, ◌++◌, arith, length,
  append-cut,
}
use mathlib.Core.Path.{ap₂, subst₂}
use sce.Error.{Result, ok, ok-injective}
use sce.Value.{Bytes, Value, ModelManifest, bytes, model_manifest}
use sce.Bytes.{IsBytes, big_endian}
use sce.Library.{Primitives, Documented}
use sce.Manifest.Environment.{SameEnvironment}
use sce.Manifest.Construct.{IsManifest}
use sce.Keys.{check_epoch, require_secret}
use sce.Seal.{require_state, require_context, unseal_state}
use sce.Seal.Binding.{KnownBreak, unseal_state-binds}
use sce.Stream.{StreamHeader, join, parse_stream_bytes}
use sce.Stream.Context.{seg_context-injective, fixed-cut}
use sce.Stream.Layout.{stream_header, parse_stream_bytes-stream_header}
use sce.Chunked.{seal_state_chunked, unseal_state_chunked}
use sce.Chunked.Accepts.{unseal_state_chunked-IsContainer}
use sce.Chunked.Frames.{Frame, Frames}
use sce.Chunked.RoundTrip.{unseal_state_chunked-seal_state_chunked}
use sce.Chunked.Splice.{within, position, same_context}

-- What a stream is opened with, beside its container.
pub record Holder : Type 0 where
  pub manifest : ModelManifest
  pub secret : Value
  pub epoch : Value
  pub context : Value

-- The same manifest up to NFC and order, and the same secret, epoch and context.
pub record SameHolder (p : Primitives) (a b : Holder) : Type 0 where
  pub environment : SameEnvironment p a.manifest.fields b.manifest.fields
  pub secret : require_secret a.secret ≡ require_secret b.secret
  pub epoch : check_epoch a.epoch ≡ check_epoch b.epoch
  pub context : require_context a.context ≡ require_context b.context

-- A break of a primitive at what the two openings of one of the frames of `todo` have computed, the
-- first of which is segment `i`.
pub data FramesBreak (p : Primitives) (a b : Holder) (user user' : Bytes) (f : StreamHeader)
    : ℕ → Bytes → Type 0 where
  at_frame :
      (i : ℕ) (todo env more ctx ctx' : Bytes)
      → todo ≡ big_endian 8 (length env) ++ (env ++ more)
      → length env < 256 ^ 8
      → position user f i ≡ ok ctx
      → position user' f i ≡ ok ctx'
      → KnownBreak p
          (bytes env)
          (within a.manifest a.secret a.epoch ctx)
          (within b.manifest b.secret b.epoch ctx')
      → FramesBreak p a b user user' f i todo
  after_frame :
      (i : ℕ) (todo env more : Bytes)
      → todo ≡ big_endian 8 (length env) ++ (env ++ more)
      → length env < 256 ^ 8
      → FramesBreak p a b user user' f (i + 1) more
      → FramesBreak p a b user user' f i todo

-- A break of a primitive at what the two openings of a frame of the container have computed, in the
-- stream of the container's header.
pub data StreamBreak (p : Primitives) (container : Bytes) (a b : Holder) : Type 0 where
  in_body :
      (user user' : Bytes) (f : StreamHeader) (body : Bytes)
      → require_context a.context ≡ ok user
      → require_context b.context ≡ ok user'
      → parse_stream_bytes container ≡ ok f
      → container ≡ stream_header f ++ body
      → FramesBreak p a b user user' f 0 body
      → StreamBreak p container a b

module _ (p : Primitives) (a b : Holder) (va : IsManifest p a.manifest)
    (vb : IsManifest p b.manifest) (user user' : Bytes) (hu : require_context a.context ≡ ok user)
    (hu' : require_context b.context ≡ ok user') (f : StreamHeader) where
  -- Two frames at one place of a container.
  Frame-binds :
      (i : ℕ) (todo t env ctx more t' env' ctx' more' : Bytes)
      → Frame p (model_manifest a.manifest) a.secret a.epoch user f i todo t env ctx more
      → Frame p (model_manifest b.manifest) b.secret b.epoch user' f i todo t' env' ctx' more'
      → (SameHolder p a b × (t ≡ t') × (more ≡ more')) ⊎ FramesBreak p a b user user' f i todo
  Frame-binds i todo t env ctx more t' env' ctx' more' q r =
      let (size, e₁) =
        fixed-cut (length env) (length env') q.small r.small (sym q.layout ∙ r.layout) in
      let (same, e₂) = append-cut env env' size e₁ in
      let opens : _ ≡ ok t' =
        ap (λ x. unseal_state p (bytes x) (model_manifest b.manifest) b.secret b.epoch (bytes ctx'))
          same
        ∙ r.opens in
      elim (unseal_state-binds p (bytes env) (within a.manifest a.secret a.epoch ctx)
        (within b.manifest b.secret b.epoch ctx') va vb q.opens opens) [
          | inr broken ↦
              inr (
                at_frame i todo env more ctx ctx' q.layout q.small q.in_context r.in_context broken)
          | inl (s, plain) ↦
              let c : ctx ≡ ctx' =
                same_context p (bytes env) (model_manifest b.manifest) b.secret b.epoch ctx ctx'
                  opens s.context in
              let place =
                seg_context-injective user f.stream_id user' f.stream_id i f.num_segments
                  f.total_len f.segment_size i f.num_segments f.total_len f.segment_size
                  q.in_context (r.in_context ∙ ap ok (sym c)) in
              inl (
                record {
                  environment = s.environment;
                  secret = s.secret;
                  epoch = s.epoch;
                  context = hu ∙ ap ok place.same_user ∙ sym hu';
                },
                plain,
                e₂,
              )
        ]

  -- The frames of a container, opened twice.
  Frames-binds :
      (parts parts' : List Bytes) (i : ℕ) (todo : Bytes)
      → length parts ≡ length parts'
      → Frames p (model_manifest a.manifest) a.secret a.epoch user f parts i todo []
      → Frames p (model_manifest b.manifest) b.secret b.epoch user' f parts' i todo []
      → ((1 ≤ length parts → SameHolder p a b) × (join parts ≡ join parts'))
        ⊎ FramesBreak p a b user user' f i todo
  Frames-binds [] [] i todo n h h' = inl (λ k. absurd (omega arith), refl)
  Frames-binds [] (t' ∷ parts') i todo n h h' = absurd (omega arith)
  Frames-binds (t ∷ parts) [] i todo n h h' = absurd (omega arith)
  Frames-binds (t ∷ parts) (t' ∷ parts') i todo n (env, ctx, more, q, rest)
        (env', ctx', more', r, rest') =
      elim (Frame-binds i todo t env ctx more t' env' ctx' more' q r) [
        | inr broken ↦ inr broken
        | inl (same, plain, e) ↦
            elim (Frames-binds parts parts' (i + 1) more (omega arith) rest (rw e rest')) [
              | inr broken ↦ inr (after_frame i todo env more q.layout q.small broken)
              | inl (others, joined) ↦
                  inl (λ k. same, (unfold join in ap₂ (λ x y. x ++ y) plain joined))
            ]
      ]

module _ (p : Primitives) where
  abbrev pub chunked_under : Bytes → Holder → Result Bytes
  chunked_under container a =
      unseal_state_chunked p (bytes container) (model_manifest a.manifest) a.secret a.epoch
        a.context

  -- If a container opens under two constructed manifests with their secrets, epochs and contexts,
  -- then these are the same and so is the plaintext, or a primitive is broken at what the two
  -- openings of a frame of the container computed.
  pub unseal_state_chunked-binds :
      (container : Bytes) (a b : Holder) {t u : Bytes}
      → IsBytes container
      → IsManifest p a.manifest
      → IsManifest p b.manifest
      → chunked_under container a ≡ ok t
      → chunked_under container b ≡ ok u
      → (SameHolder p a b × (t ≡ u)) ⊎ StreamBreak p container a b
  unseal_state_chunked-binds container a b {t} {u} valid va vb ha hb =
      let (user, m, hm, hu, x) =
        unseal_state_chunked-IsContainer p container (model_manifest a.manifest) a.secret a.epoch
          a.context valid ha in
      let (user', m', hm', hu', y) =
        unseal_state_chunked-IsContainer p container (model_manifest b.manifest) b.secret b.epoch
          b.context valid hb in
      let parse_x : parse_stream_bytes container ≡ ok x.f =
        ap parse_stream_bytes x.layout ∙ parse_stream_bytes-stream_header x.f x.fits x.body in
      let parse_y : parse_stream_bytes container ≡ ok y.f =
        ap parse_stream_bytes y.layout ∙ parse_stream_bytes-stream_header y.f y.fits y.body in
      let header : x.f ≡ y.f = ok-injective (sym parse_x ∙ parse_y) in
      let (h, body) =
        append-cut (stream_header x.f) (stream_header y.f)
          (ap (λ f. length (stream_header f)) header) (sym x.layout ∙ y.layout) in
      let count : length x.parts ≡ length y.parts =
        x.counted ∙ ap (λ (f : StreamHeader). f.num_segments) header ∙ sym y.counted in
      let frames : Frames p (model_manifest b.manifest) b.secret b.epoch user' x.f y.parts 0 x.body
          [] =
        subst₂ (λ f d. Frames p (model_manifest b.manifest) b.secret b.epoch user' f y.parts 0 d [])
          (sym header) (sym body) y.frames in
      elim (Frames-binds p a b va vb user user' hu hu' x.f x.parts y.parts 0 x.body count x.frames
        frames) [
          | inr broken ↦ inr (in_body user user' x.f x.body hu hu' parse_x x.layout broken)
          | inl (same, joined) ↦
              inl (same (omega (arith, x.counted, x.nonempty)), x.joined ∙ joined ∙ sym y.joined)
        ]

  -- If a container sealed under one constructed manifest, secret, epoch and context opens under
  -- another, then these are the same and the plaintext is the sealed state, or a primitive is
  -- broken at what the two openings of a frame of the container compute, with primitives as
  -- documented.
  pub seal_state_chunked-fails_closed :
      Documented p
      → (calls : ℕ) (state segment_size : Value) (a b : Holder) {s container t : Bytes} {after : ℕ}
      → IsManifest p a.manifest
      → IsManifest p b.manifest
      → IsBytes container
      → require_state state ≡ ok s
      → seal_state_chunked p calls state
          (model_manifest a.manifest)
          a.secret
          a.epoch
          a.context
          segment_size
        ≡ ok (container, after)
      → chunked_under container b ≡ ok t
      → (SameHolder p a b × (s ≡ t)) ⊎ StreamBreak p container a b
  seal_state_chunked-fails_closed d calls state segment_size a b {container = container} va vb valid
        hs h ho =
      unseal_state_chunked-binds container a b valid va vb
        (unseal_state_chunked-seal_state_chunked p d calls state (model_manifest a.manifest)
          a.secret a.epoch a.context segment_size hs h)
        ho
