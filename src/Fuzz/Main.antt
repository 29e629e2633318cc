-- ===== src/Fuzz/Main.antt =====
-- Runs of the driver of fuzz/fuzz_envelope.py.
use sce.Base.{ℕ, zero, suc, ◌≤◌, ◌≡◌, refl, List, [], ◌∷◌, arith, All, length}
use sce.Error.{ok}
use sce.Value.{Bytes, ModelManifest, ℤ}
use sce.Bytes.{IsBytes}
use sce.Library.{Primitives, Documented}
use sce.Library.Octets.{Octets}
use sce.Library.Random.{Random, RandomLaws}
use sce.Manifest.Construct.{IsManifest, new_manifest-IsManifest}
use sce.Fuzz.{returned, target_manifest, test_one_input}
use sce.Fuzz.Passes.{test_one_input_passes}
use sce.Fuzz.Corpus.{CorpusFile, load_corpus, load_corpus-IsBytes}
use sce.Fuzz.Driver.{
  generate, calls_after, LoopEnd, passed, seeds_for_generation, replay_corpus, fuzz_runs, runs_of,
  main,
}
use sce.Fuzz.Seeds.{seed_len, seeds-Small}
use sce.Fuzz.Generated.{Small, generate-Small}

-- An input that passes, in each loop.
module _ (p : Primitives) (m : ModelManifest) where
  replay_corpus-step :
      (calls : ℕ) (b : Bytes) (rest : List Bytes) {r : LoopEnd}
      → test_one_input p m calls b ≡ returned
      → replay_corpus p m (calls_after calls b) rest ≡ r
      → replay_corpus p m calls (b ∷ rest) ≡ r
  unfolding replay_corpus
  replay_corpus-step calls b rest h e = cc

  fuzz_runs-step :
      {State : Type 0} (rng : Random State) (bases : List Bytes) (runs calls : ℕ) (s : State)
      {r : LoopEnd}
      → test_one_input p m calls (generate rng bases s).0 ≡ returned
      → fuzz_runs p m rng bases runs
          (calls_after calls (generate rng bases s).0)
          (generate rng bases s).1
        ≡ r
      → fuzz_runs p m rng bases (suc runs) calls s ≡ r
  unfolding fuzz_runs
  fuzz_runs-step rng bases runs calls s h e = cc

  -- Loops that pass end in the exit code 0.
  main-step :
      {State : Type 0} (rng : Random State) (runs seed : ℤ) (file : CorpusFile) (calls : ℕ)
      {n after end : ℕ} {corpus bases : List Bytes}
      → target_manifest p ≡ ok m
      → load_corpus file ≡ ok corpus
      → replay_corpus p m calls corpus ≡ passed n
      → seeds_for_generation p m n ≡ ok (bases, after)
      → fuzz_runs p m rng bases (runs_of runs) after (rng.seeded seed) ≡ passed end
      → main p rng runs seed file calls ≡ ok 0
  unfolding main
  main-step rng runs seed file calls h loaded replayed seeds ran = cc

module _ (p : Primitives) (d : Documented p) (o : Octets p) (room : 1000 ≤ p.max_text)
    (m : ModelManifest) (h : target_manifest p ≡ ok m) where
  replay_corpus-passes :
      (corpus : List Bytes) (calls : ℕ)
      → All (Small p.max_text) corpus
      → (after : ℕ) × (replay_corpus p m calls corpus ≡ passed after)
  unfolding replay_corpus
  replay_corpus-passes [] calls all = (calls, refl)
  replay_corpus-passes (b ∷ rest) calls all =
      let (after, e) = replay_corpus-passes rest (calls_after calls b) all.1 in
      (
        after,
        replay_corpus-step p m calls b rest
            (test_one_input_passes p d (omega arith) calls b h all.0.octets all.0.bounded) e,
      )

  fuzz_runs-passes :
      {State : Type 0} (rng : Random State) (laws : RandomLaws rng) (bases : List Bytes)
      (runs calls : ℕ) (s : State)
      → All (Small seed_len) bases
      → (after : ℕ) × (fuzz_runs p m rng bases runs calls s ≡ passed after)
  unfolding fuzz_runs
  fuzz_runs-passes rng laws bases zero calls s all = (calls, refl)
  fuzz_runs-passes rng laws bases (suc runs) calls s all =
      let made = generate-Small rng laws seed_len 611 bases s (omega arith) (omega arith) all in
      let blob = (generate rng bases s).0 in
      let (after, e) =
        fuzz_runs-passes rng laws bases runs (calls_after calls blob) (generate rng bases s).1
          all in
      (
        after,
        fuzz_runs-step p m rng bases runs calls s
            (test_one_input_passes p d (omega arith) calls blob h made.octets
              (omega (arith, made.bounded)))
            e,
      )

All-Small :
    (n : ℕ) (corpus : List Bytes)
    → All IsBytes corpus
    → All (λ b. length b ≤ n) corpus
    → All (Small n) corpus
All-Small n [] valid short = tt
All-Small n (b ∷ rest) valid short =
    (record { octets = valid.0; bounded = short.0 }, All-Small n rest valid.1 short.1)

-- `main` ends with the exit code 0, whatever the generator draws in its documented range, for every
-- number of runs and seed and every file of a corpus that loads to inputs that the cipher takes, once
-- the target's manifest is constructed: no input that it replays or makes is a finding, with
-- primitives as documented that return bytes and take a thousand.
pub main-passes :
    {State : Type 0} (p : Primitives)
    → Documented p
    → Octets p
    → 1000 ≤ p.max_text
    → (rng : Random State) → RandomLaws rng
    → (runs seed : ℤ) (file : CorpusFile) (calls : ℕ) {m : ModelManifest} {corpus : List Bytes}
    → target_manifest p ≡ ok m
    → load_corpus file ≡ ok corpus
    → All (λ b. length b ≤ p.max_text) corpus
    → main p rng runs seed file calls ≡ ok 0
main-passes p d o room rng laws runs seed file calls {m} {corpus} h loaded short =
    let vm : IsManifest p m = unfold target_manifest in (new_manifest-IsManifest p _ _ _ _ _ _ h) in
    let all = All-Small p.max_text corpus (load_corpus-IsBytes file loaded) short in
    let (n, replayed) = replay_corpus-passes p d o room m h corpus calls all in
    let (bases, after, seeds, small) = seeds-Small p d o room m vm n in
    let (end, ran) =
      fuzz_runs-passes p d o room m h rng laws bases (runs_of runs) after (rng.seeded seed) small in
    main-step p m rng runs seed file calls h loaded replayed seeds ran
