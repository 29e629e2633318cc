-- ===== src/Fuzz/Regression.antt =====
-- How `main` of fuzz/fuzz_envelope.py ends on an input that fails.
use sce.Base.{ℕ, ◌≡◌, ◌≢◌, refl, sym, ap, ◌⊎◌, inl, inr, ◌∙◌, some, List, [], ◌∷◌, ◌++◌, arith}
use sce.Error.{Exception, ok}
use sce.Value.{Bytes, Text, ModelManifest, ℤ}
use sce.Bytes.{IsBytes}
use sce.Library.{Primitives}
use sce.Library.Random.{Random}
use sce.Fuzz.{Outcome, returned, not_recovered, escaped, target_manifest, test_one_input}
use sce.Fuzz.Corpus.{CorpusFile, document, load_corpus, record_finding, load_corpus-record_finding}
use sce.Fuzz.Driver.{calls_after, passed, failed_at, replay_corpus, main}

Outcome-cases :
    (o : Outcome)
    → (o ≡ returned)
      ⊎ ((out : Bytes) × (body : Bytes) × (o ≡ not_recovered out body))
      ⊎ ((selector : ℕ) × (e : Exception) × (o ≡ escaped selector e))
Outcome-cases returned = inl refl
Outcome-cases (not_recovered out body) = inr (inl (out, body, refl))
Outcome-cases (escaped selector e) = inr (inr (selector, e, refl))

returned-cases : (o : Outcome) → (o ≡ returned) ⊎ (o ≢ returned)
returned-cases returned = inl refl
returned-cases (not_recovered out body) = inr (λ e. ground arith)
returned-cases (escaped selector e) = inr (λ e. ground arith)

passed-injective : {a b : ℕ} → passed a ≡ passed b → a ≡ b
passed-injective h = ground arith

failed-ne-passed : {b : Bytes} {n : ℕ} → failed_at b ≢ passed n
failed-ne-passed h = ground arith

module _ (p : Primitives) (m : ModelManifest) where
  replay_corpus-fails :
      (calls : ℕ) (blob : Bytes) (rest : List Bytes)
      → test_one_input p m calls blob ≢ returned
      → replay_corpus p m calls (blob ∷ rest) ≡ failed_at blob
  unfolding replay_corpus
  replay_corpus-fails calls blob rest ne = elim (Outcome-cases (test_one_input p m calls blob)) [
    | inl e ↦ absurd (ne e)
    | inr (inl (out, body, e)) ↦ cc
    | inr (inr (selector, x, e)) ↦ cc
  ]

  -- A corpus that passes leaves the loop to what follows it.
  replay_corpus-append :
      (corpus rest : List Bytes) (calls : ℕ) {n : ℕ}
      → replay_corpus p m calls corpus ≡ passed n
      → replay_corpus p m calls (corpus ++ rest) ≡ replay_corpus p m n rest
  unfolding replay_corpus
  replay_corpus-append [] rest calls h = ap (λ n. replay_corpus p m n rest) (passed-injective h)
  replay_corpus-append (b ∷ corpus) rest calls {n = n} h =
      elim (returned-cases (test_one_input p m calls b)) [
        | inl e ↦
            let h' : replay_corpus p m (calls_after calls b) corpus ≡ passed n = cc in
            let k = replay_corpus-append corpus rest (calls_after calls b) h' in cc
        | inr ne ↦ absurd (failed-ne-passed (sym (replay_corpus-fails calls b corpus ne) ∙ h))
      ]

-- A loop over the corpus that fails ends `main`.
main-fails :
    {State : Type 0} (p : Primitives) (rng : Random State) (runs seed : ℤ) (file : CorpusFile)
    (calls : ℕ) {m : ModelManifest} {corpus : List Bytes} {blob : Bytes}
    → target_manifest p ≡ ok m
    → load_corpus file ≡ ok corpus
    → replay_corpus p m calls corpus ≡ failed_at blob
    → main p rng runs seed file calls ≡ ok 1
unfolding main
main-fails p rng runs seed file calls h loaded failed = cc

-- An input that still fails after the corpus, once it is added to the corpus as `record_finding`
-- prints it, makes `main` end with the exit code 1, for a corpus that loads and passes and an input of
-- bytes, once the target's manifest is constructed.
pub main-record_finding :
    {State : Type 0} (p : Primitives) (rng : Random State) (runs seed : ℤ) (seeds : List Text)
    (blob : Bytes) (calls : ℕ) {m : ModelManifest} {corpus : List Bytes} {n : ℕ}
    → target_manifest p ≡ ok m
    → load_corpus (document (some seeds)) ≡ ok corpus
    → replay_corpus p m calls corpus ≡ passed n
    → IsBytes blob
    → test_one_input p m n blob ≢ returned
    → main p rng runs seed (document (some (seeds ++ (record_finding p blob).seed ∷ []))) calls
      ≡ ok 1
main-record_finding p rng runs seed seeds blob calls {m} {corpus} {n} h loaded ran valid ne =
    let added = load_corpus-record_finding p seeds (blob ∷ []) (valid, tt) loaded in
    let failed =
      replay_corpus-append p m corpus (blob ∷ []) calls ran
      ∙ replay_corpus-fails p m n blob [] ne in
    main-fails p rng runs seed _ calls h added failed
