-- ===== src/Demo/Scenario.antt =====
-- How `main` of examples/demo.py ends.
use sce.Base.{
  ℕ, ◌+◌, ◌≤◌, ◌≡◌, refl, sym, ◌∙◌, ap, ◌⊎◌, inl, inr, true, false, [], arith, length, codes,
  list_eq_refl,
}
use sce.Error.{Result, ok, raise, state_seal_mismatch, mismatch_message}
use sce.Value.{Bytes, Text, Value, ModelManifest, int, pos, bytes, model_manifest}
use sce.Library.{Primitives, Documented, AsciiNormal}
use sce.Library.Ascii.{nfc-IsAscii-injective}
use sce.Manifest.{compute_memh, require_manifest}
use sce.Manifest.Construct.{IsManifest, new_manifest-IsManifest, new_manifest-fields}
use sce.Manifest.Environment.{SameEnvironment}
use sce.Envelope.{Description, describe_envelope}
use sce.Envelope.Inspect.{explain_mismatch-cases}
use sce.Seal.{max_state, seal_state}
use sce.Seal.Returns.{aad_len}
use sce.Seal.Refuses.{open_under-refuses}
use sce.Seal.Binding.{KnownBreak}
use sce.Seal.Plain.{plain, plain-Admitted, seal_plain, describe_envelope-opened}
use sce.Demo.{weights_v1, weights_v2, present, manifest_for, resume_under, demonstrate}

present_refused :
    (sealed : Bytes) (m : ModelManifest) (r : Result Bytes)
    → r ≡ raise (state_seal_mismatch mismatch_message)
    → present sealed m r ≡ ok false
unfolding present
present_refused sealed m r h = elim (explain_mismatch-cases (bytes sealed) m) [
  | inl (f, hf, e) ↦ rw (h, e)
  | inr (x, hx, e) ↦ rw (h, e)
]

compute_memh-manifest : (m : ModelManifest) → compute_memh (model_manifest m) ≡ ok m.memh
unfolding compute_memh require_manifest
compute_memh-manifest m = refl

-- A break of a primitive at what the two opens of the envelope of the run have computed.
pub record RunBreak (p : Primitives) (state : Bytes) (calls : ℕ) (m n : ModelManifest)
    : Type 0 where
  pub sealed : Bytes
  pub after : ℕ
  pub run :
      seal_state p
        (calls + 1)
        (bytes state)
        (model_manifest m)
        (bytes (p.urandom calls 32))
        (int (pos 0))
        (bytes [])
        Value.none
      ≡ ok (sealed, after)
  pub broken :
      KnownBreak p
        (bytes sealed)
        (plain m (p.urandom calls 32) [])
        (plain n (p.urandom calls 32) [])

module _ (p : Primitives) where
  manifest_for-IsManifest :
      (w : Bytes) (q : Text) {m : ModelManifest} → manifest_for p w q ≡ ok m → IsManifest p m
  unfolding manifest_for
  manifest_for-IsManifest w q h = new_manifest-IsManifest p _ _ _ _ _ _ h

  manifest_for-quantization :
      (w : Bytes) (q : Text) {m : ModelManifest} → manifest_for p w q ≡ ok m → m.quantization ≡ q
  unfolding manifest_for
  manifest_for-quantization w q h = ap (λ f. f.quantization) (new_manifest-fields p _ q _ _ _ h)

  -- Manifests with different quantizations describe different environments.
  quantizations_differ :
      AsciiNormal p
      → (m n : ModelManifest) → m.quantization ≡ codes "bf16"
      → n.quantization ≡ codes "fp8-e4m3"
      → ¬ SameEnvironment p m.fields n.fields
  quantizations_differ a m n hm hn same =
      let e : codes "bf16" ≡ codes "fp8-e4m3" =
        nfc-IsAscii-injective a (codes "bf16") (codes "fp8-e4m3") (omega arith) (omega arith)
          (ap p.nfc (sym hm) ∙ same.quantization ∙ ap p.nfc hn) in
      ground (arith, e)

  demonstrate_run :
      (state : Bytes) (calls : ℕ) {after : ℕ} {m n : ModelManifest} {sealed : Bytes}
      {x : Description}
      → manifest_for p weights_v1 (codes "bf16") ≡ ok m
      → seal_state p
          (calls + 1)
          (bytes state)
          (model_manifest m)
          (bytes (p.urandom calls 32))
          (int (pos 0))
          (bytes [])
          Value.none
        ≡ ok (sealed, after)
      → describe_envelope (bytes sealed) ≡ ok x
      → resume_under p m sealed (p.urandom calls 32) ≡ ok state
      → manifest_for p weights_v2 (codes "fp8-e4m3") ≡ ok n
      → present sealed n (resume_under p n sealed (p.urandom calls 32)) ≡ ok false
      → demonstrate p state calls ≡ ok (record { identical = true; resumed = false })
  unfolding demonstrate
  demonstrate_run state calls {m = m} {n = n} h₁ h₂ h₃ h₄ h₅ h₆ =
      rw
        (
          h₁,
          compute_memh-manifest m,
          h₂,
          h₃,
          h₄,
          h₅,
          compute_memh-manifest n,
          h₆,
          list_eq_refl state,
        )
        refl

  -- The demonstration ends with the state resumed unchanged by the model that it was sealed under
  -- and refused to the re-quantised one, or a primitive is broken at what the two opens of its
  -- envelope compute, for every state
  -- that the cipher takes, once the two manifests are constructed, with primitives as documented
  -- that take the associated data.
  pub demonstrate_refused :
      Documented p
      → AsciiNormal p
      → aad_len ≤ p.max_text
      → (state : Bytes) (calls : ℕ) {m n : ModelManifest} → length state ≤ max_state
      → length state ≤ p.max_text
      → manifest_for p weights_v1 (codes "bf16") ≡ ok m
      → manifest_for p weights_v2 (codes "fp8-e4m3") ≡ ok n
      → (demonstrate p state calls ≡ ok (record { identical = true; resumed = false }))
        ⊎ RunBreak p state calls m n
  unfolding resume_under
  demonstrate_refused d a room state calls {m} {n} small fits hm hn =
      let master = p.urandom calls 32 in
      let long : 16 ≤ length master = omega (arith, d.length-urandom calls 32) in
      let vm = manifest_for-IsManifest weights_v1 (codes "bf16") hm in
      let vn = manifest_for-IsManifest weights_v2 (codes "fp8-e4m3") hn in
      let (sealed, run, opens) =
        seal_plain p m vm master [] long (omega arith) d room (calls + 1) state small fits in
      let (x, described) = describe_envelope-opened p sealed (plain m master []) opens in
      let differ =
        quantizations_differ a m n (manifest_for-quantization weights_v1 (codes "bf16") hm)
          (manifest_for-quantization weights_v2 (codes "fp8-e4m3") hn) in
      elim (open_under-refuses p d (bytes sealed) (plain m master []) (plain n master [])
        (plain-Admitted p m vm master [] long (omega arith))
        (plain-Admitted p n vn master [] long (omega arith)) (λ same. differ same.environment)
        opens) [
          | inr broken ↦
              inr (record { sealed = sealed; after = calls + 1 + 2; run = run; broken = broken })
          | inl refused ↦ inl (
              demonstrate_run state calls hm run described opens hn
                (present_refused sealed n _ refused))
        ]
