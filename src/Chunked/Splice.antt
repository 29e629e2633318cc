-- ===== src/Chunked/Splice.antt =====
-- A segment of the container of sce/stream.py, sealed in one place and opened in another.
use sce.Base.{ℕ, ◌≡◌, ◌⊎◌, inl, inr, sym, ◌∙◌, ap, arith}
use sce.Error.{Result, ok}
use sce.Value.{Bytes, Value, ModelManifest, bytes, model_manifest}
use sce.Library.{Primitives, Documented}
use sce.Manifest.Construct.{IsManifest}
use sce.Seal.{require_state, require_context, bounded_context, seal_state, unseal_state}
use sce.Seal.Open.{unseal_state-Unsealed}
use sce.Seal.Binding.{Presented, SamePresented, KnownBreak, seal_state-fails_closed}
use sce.Stream.{seg_context, StreamHeader}
use sce.Stream.Context.{SamePosition, seg_context-injective}

-- What a segment is sealed or opened with.
abbrev pub within : ModelManifest → Value → Value → Bytes → Presented
within m secret epoch ctx = record {
  manifest = m;
  secret = secret;
  epoch = epoch;
  context = bytes ctx;
}

-- The context of segment `i` of the stream with the header `f`.
abbrev pub position : Bytes → StreamHeader → ℕ → Result Bytes
position user f i = seg_context user f.stream_id i f.num_segments f.total_len f.segment_size

abbrev pub SamePlace : Bytes → StreamHeader → ℕ → Bytes → StreamHeader → ℕ → Type 0
SamePlace user f i user' g j =
    SamePosition user f.stream_id user' g.stream_id i f.num_segments f.total_len f.segment_size j
      g.num_segments g.total_len g.segment_size

bounded_context-bytes : (c : Bytes) {x : Bytes} → bounded_context (bytes c) ≡ ok x → c ≡ x
unfolding bounded_context require_context
bounded_context-bytes c h = ground arith

module _ (p : Primitives) where
  -- Two contexts that passed their checks as the same bytes are the same.
  pub same_context :
      (sealed manifest secret epoch : Value) (c c' : Bytes) {t : Bytes}
      → unseal_state p sealed manifest secret epoch (bytes c') ≡ ok t
      → bounded_context (bytes c) ≡ bounded_context (bytes c')
      → c ≡ c'
  same_context sealed manifest secret epoch c c' h same =
      let r = unseal_state-Unsealed p sealed manifest secret epoch (bytes c') h in
      bounded_context-bytes c (same ∙ r.is_context) ∙ sym (bounded_context-bytes c' r.is_context)

  -- If an envelope sealed in a place of a stream opens in a place of a stream, under constructed
  -- manifests, then the places, the streams, the callers' contexts, the environments, secrets and
  -- epochs are the same and the plaintext is the sealed one, or a primitive is broken at inputs
  -- that the two calls computed, the envelope's salt among them, with primitives as documented.
  pub segment-fails_closed :
      Documented p
      → (calls : ℕ) (state count : Value) (m m' : ModelManifest)
        (secret epoch secret' epoch' : Value) (user user' : Bytes) (f g : StreamHeader) (i j : ℕ)
        {ctx ctx' s env t : Bytes} {after : ℕ}
      → IsManifest p m
      → IsManifest p m'
      → require_state state ≡ ok s
      → position user f i ≡ ok ctx
      → position user' g j ≡ ok ctx'
      → seal_state p calls state (model_manifest m) secret epoch (bytes ctx) count ≡ ok (env, after)
      → unseal_state p (bytes env) (model_manifest m') secret' epoch' (bytes ctx') ≡ ok t
      → (SamePlace user f i user' g j
          × SamePresented p (within m secret epoch ctx) (within m' secret' epoch' ctx')
          × (s ≡ t))
        ⊎ KnownBreak p (bytes env) (within m secret epoch ctx) (within m' secret' epoch' ctx')
  segment-fails_closed d calls state count m m' secret epoch secret' epoch' user user' f g i j {ctx}
        {ctx'} {env = env} vm vm' hs hc hc' h ho =
      elim (seal_state-fails_closed p d calls state count (within m secret epoch ctx)
        (within m' secret' epoch' ctx') vm vm' hs h ho) [
          | inr broken ↦ inr broken
          | inl (same, plain) ↦
              let c : ctx ≡ ctx' =
                same_context (bytes env) (model_manifest m') secret' epoch' ctx ctx' ho
                  same.context in
              inl (
                seg_context-injective user f.stream_id user' g.stream_id i f.num_segments
                    f.total_len f.segment_size j g.num_segments g.total_len g.segment_size hc
                    (hc' ∙ ap ok (sym c)),
                same,
                plain,
              )
        ]
