-- ===== src/Fuzz/Seeds.antt =====
-- What `seeds_for_generation` of fuzz/fuzz_envelope.py makes.
use sce.Base.{ℕ, ◌+◌, ◌≤◌, ◌≡◌, refl, List, [], ◌∷◌, arith, All, length, replicate, codes}
use sce.Error.{ok}
use sce.Value.{Bytes, Value, ModelManifest, int, pos, bytes, model_manifest}
use sce.Bytes.{IsBytes}
use sce.Library.{Primitives, Documented}
use sce.Library.Octets.{Octets}
use sce.Manifest.Construct.{IsManifest}
use sce.Keys.{check_epoch, require_secret}
use sce.Seal.{require_state, require_context, bounded_context, check_seal_count, seal_state}
use sce.Seal.Returns.{seal_state-returns}
use sce.Seal.RoundTrip.{length-seal_state}
use sce.Seal.Octets.{seal_state-IsBytes}
use sce.Stream.{check_segment_size, bounds, ranges}
use sce.Chunked.{seal_state_chunked}
use sce.Chunked.Returns.{seal_state_chunked-returns}
use sce.Chunked.RoundTrip.{length-seal_state_chunked}
use sce.Chunked.Octets.{seal_state_chunked-IsBytes}
use sce.Fuzz.{master}
use sce.Fuzz.Driver.{seeds_for_generation}
use sce.Fuzz.Generated.{Small}

-- The longest artefact of `seeds_for_generation`: a container of five segments of eight bytes.
abbrev pub seed_len : ℕ
seed_len = 550

five_segments : length (bounds 40 8) ≡ 5
unfolding bounds ranges
five_segments = refl

module _ (p : Primitives) (d : Documented p) (o : Octets p) (room : 1000 ≤ p.max_text)
    (m : ModelManifest) where
  module _ (vm : IsManifest p m) where
    -- An envelope of a short state.
    seed-Small :
        (calls : ℕ) (state context : Bytes) (epoch : ℕ)
        → IsBytes state
        → length state ≤ 100
        → bounded_context (bytes context) ≡ ok context
        → check_epoch (int (pos epoch)) ≡ ok epoch
        → (sealed : Bytes) × (seal_state p calls
              (bytes state)
              (model_manifest m)
              master
              (int (pos epoch))
              (bytes context)
              Value.none
            ≡ ok (sealed, calls + 2))
          × Small seed_len sealed
    seed-Small calls state context epoch valid short hc he =
        let (sealed, run) =
          seal_state-returns p d (omega arith) calls (bytes state) master (int (pos epoch))
            (bytes context) Value.none m {s = state} {c = context} {k = replicate 32 17} {e = epoch}
            vm (unfold require_state in refl) (omega arith) (omega arith) hc
            (unfold check_seal_count in refl) he (unfold require_secret in refl) in
        (
          sealed,
          run,
          record {
            octets =
                seal_state-IsBytes p d o calls (bytes state) (model_manifest m) master
                  (int (pos epoch)) (bytes context) Value.none {s = state}
                  (unfold require_state in refl) valid run;
            bounded = omega (
              arith,
              length-seal_state p d calls (bytes state) (model_manifest m) master (int (pos epoch))
                  (bytes context) Value.none {s = state} (unfold require_state in refl) run,
            );
          },
        )

    chunked_seed-Small :
        (calls : ℕ)
        → (container : Bytes) × (after : ℕ) × (seal_state_chunked p calls
              (bytes (replicate 40 65))
              (model_manifest m)
              master
              (int (pos 0))
              (bytes [])
              (int (pos 8))
            ≡ ok (container, after))
          × Small seed_len container
    chunked_seed-Small calls =
        let (container, run) =
          seal_state_chunked-returns p d (omega arith) calls (bytes (replicate 40 65)) master
            (int (pos 0)) (bytes []) (int (pos 8)) m {s = replicate 40 65} {c = []}
            {k = replicate 32 17} {e = 0} {size = 8} vm (unfold require_state in refl) (omega arith)
            (unfold require_context in refl) (omega arith) (unfold check_segment_size in refl)
            (omega arith) (unfold check_epoch in refl) (unfold require_secret in refl) in
        (
          container,
          _,
          run,
          record {
            octets =
                seal_state_chunked-IsBytes p d o calls (bytes (replicate 40 65)) (model_manifest m)
                  master (int (pos 0)) (bytes []) (int (pos 8)) {s = replicate 40 65}
                  (unfold require_state in refl) (omega arith) run;
            bounded = omega (
              arith,
              length-seal_state_chunked p d calls (bytes (replicate 40 65)) (model_manifest m)
                  master (int (pos 0)) (bytes []) (int (pos 8)) {s = replicate 40 65} {size = 8}
                  (unfold require_state in refl) (unfold check_segment_size in refl) run,
              five_segments,
            );
          },
        )

    pub seeds-Small :
        (calls : ℕ)
        → (bases : List Bytes) × (after : ℕ) × (seeds_for_generation p m calls ≡ ok (bases, after))
          × All (Small seed_len) bases
    unfolding seeds_for_generation
    seeds-Small calls =
        let (a, ha, sa) =
          seed-Small calls (codes "seed-state") [] 0 (omega arith) (omega arith)
            (unfold bounded_context require_context in refl) (unfold check_epoch in refl) in
        let (b, hb, sb) =
          seed-Small (calls + 2) [] (codes "ctx") 7 (omega arith) (omega arith)
            (unfold bounded_context require_context in refl) (unfold check_epoch in refl) in
        let (c, after, hc, sc) = chunked_seed-Small (calls + 2 + 2) in
        (a ∷ b ∷ c ∷ [], after, rw (ha, hb, hc) refl, (sa, (sb, (sc, tt))))
