-- ===== src/Bench/Timing/Cases.antt =====
-- How the cases of bench/timing_check.py end.
use sce.Base.{
  ℕ, ◌+◌, ◌≤◌, ◌≡◌, refl, sym, ◌∙◌, ap, ◌⊎◌, inl, inr, false, [], ◌∷◌, arith, length, replicate,
  codes, list_eq-cases,
}
use sce.Error.{ok, ok-injective}
use sce.Value.{Bytes, Text, Value, ModelManifest, int, pos, bytes, model_manifest}
use sce.Bytes.{IsBytes}
use sce.Library.{Primitives, Documented, AsciiNormal}
use sce.Library.Octets.{Octets}
use sce.Library.Ascii.{nfc-IsAscii-injective}
use sce.Manifest.Construct.{IsManifest, new_manifest-IsManifest, new_manifest-fields}
use sce.Manifest.Environment.{SameEnvironment}
use sce.Keys.{check_epoch}
use sce.Keys.Derive.{require_secret-long}
use sce.Seal.{seal_state, require_state}
use sce.Seal.Open.{unseal_state-Unsealed}
use sce.Seal.Uniform.{unseal_state-Uniform}
use sce.Seal.Refuses.{open_under-refuses}
use sce.Seal.Authentic.{Forgery, unseal_state-authentic}
use sce.Seal.Binding.{KnownBreak, open_under}
use sce.Seal.Octets.{seal_state-IsBytes}
use sce.Seal.Plain.{plain, plain-Admitted, bounded_context-bytes, seal_plain}
use sce.Attack.{attempt}
use sce.Attack.Guesses.{attempt_refused}
use sce.Bench.Timing.{tamper, timed_manifest, open_case, run_cases}
use sce.Bench.Timing.Tampered.{tamper-IsBytes, tamper_ne, tamper-parses, opened_long}

-- How a case can open the envelope of the run, sealed under `m` and `master`, that it should not: the
-- other environment or the zero secret breaks a primitive at what the two opens compute, the master
-- secret is zero, or the tampered envelope is a forgery.
pub data Opened (p : Primitives) (m n : ModelManifest) (master sealed : Bytes) : Type 0 where
  other_environment :
      KnownBreak p (bytes sealed) (plain m master []) (plain n master [])
      → Opened p m n master sealed
  zero_secret : master ≡ replicate 32 0 → Opened p m n master sealed
  other_secret :
      KnownBreak p (bytes sealed) (plain m master []) (plain m (replicate 32 0) [])
      → Opened p m n master sealed
  forged : Forgery p m.memh (bytes master) 0 [] sealed (tamper sealed) → Opened p m n master sealed

-- The envelope of the run, opened by a case.
pub record RunOpened (p : Primitives) (m n : ModelManifest) (calls : ℕ) : Type 0 where
  pub sealed : Bytes
  pub run :
      seal_state p
        (calls + 2)
        (bytes (p.urandom (calls + 1) 256))
        (model_manifest m)
        (bytes (p.urandom calls 32))
        (int (pos 0))
        (bytes [])
        Value.none
      ≡ ok (sealed, calls + 2 + 2)
  pub opened : Opened p m n (p.urandom calls 32) sealed

module _ (p : Primitives) (d : Documented p) (m n : ModelManifest) (vm : IsManifest p m)
    (vn : IsManifest p n) (master sealed : Bytes) {t : Bytes} (long : 16 ≤ length master)
    (opens : open_under p (bytes sealed) (plain m master []) ≡ ok t) where
  wrong_env :
      ¬ SameEnvironment p m.fields n.fields
      → (attempt (open_case p n sealed master) ≡ ok false) ⊎ Opened p m n master sealed
  unfolding open_case
  wrong_env ne =
      elim (open_under-refuses p d (bytes sealed) (plain m master []) (plain n master [])
        (plain-Admitted p m vm master [] long (omega arith))
        (plain-Admitted p n vn master [] long (omega arith)) (λ same. ne same.environment) opens) [
          | inl refused ↦ inl (attempt_refused _ refused)
          | inr broken ↦ inr (other_environment broken)
        ]

  wrong_secret :
      (attempt (open_case p m sealed (replicate 32 0)) ≡ ok false) ⊎ Opened p m n master sealed
  unfolding open_case
  wrong_secret = elim (list_eq-cases master (replicate 32 0)) [
    | inl same ↦ inr (zero_secret same)
    | inr ne ↦
        elim (open_under-refuses p d (bytes sealed) (plain m master [])
          (plain m (replicate 32 0) []) (plain-Admitted p m vm master [] long (omega arith))
          (plain-Admitted p m vm (replicate 32 0) [] (omega arith) (omega arith))
          (λ same. ne (
            ok-injective (
              sym (require_secret-long master long)
              ∙ same.secret
              ∙ require_secret-long (replicate 32 0) (omega arith))))
          opens) [
            | inl refused ↦ inl (attempt_refused _ refused)
            | inr broken ↦ inr (other_secret broken)
          ]
  ]

  tampered :
      (calls : ℕ) (state : Bytes) {after : ℕ}
      → IsBytes sealed
      → seal_state p calls
          (bytes state)
          (model_manifest m)
          (bytes master)
          (int (pos 0))
          (bytes [])
          Value.none
        ≡ ok (sealed, after)
      → (attempt (open_case p m (tamper sealed) master) ≡ ok false) ⊎ Opened p m n master sealed
  unfolding open_case
  tampered calls state valid run =
      let x =
        unseal_state-Unsealed p (bytes sealed) (model_manifest m) (bytes master) (int (pos 0))
          (bytes []) opens in
      let (g, parses) = tamper-parses sealed valid x.parsed in
      elim (unseal_state-Uniform p d (bytes (tamper sealed)) (bytes master) (int (pos 0)) (bytes [])
        m {f = g} {c = []} {k = master} {e = 0} vm parses (bounded_context-bytes [] (omega arith))
        (unfold check_epoch in refl) (require_secret-long master long)) [
          | inr refused ↦ inl (attempt_refused _ refused)
          | inl (u, accepted) ↦
              elim (unseal_state-authentic p d calls (bytes state) (bytes master) (int (pos 0))
                (bytes []) Value.none m sealed (tamper sealed) {c = []} {e = 0}
                (bounded_context-bytes [] (omega arith)) (unfold check_epoch in refl)
                (tamper-IsBytes sealed valid) run accepted) [
                  | inl (same, _) ↦ absurd (tamper_ne sealed (opened_long sealed x.parsed) same)
                  | inr forgery ↦ inr (forged forgery)
                ]
        ]

module _ (p : Primitives) where
  timed_manifest-IsManifest :
      (w : Text) {m : ModelManifest} → timed_manifest p w ≡ ok m → IsManifest p m
  unfolding timed_manifest
  timed_manifest-IsManifest w h = new_manifest-IsManifest p _ _ _ _ _ _ h

  timed_manifest-weights :
      (w : Text) {m : ModelManifest} → timed_manifest p w ≡ ok m → m.weights_hash ≡ w
  unfolding timed_manifest
  timed_manifest-weights w h = ap (λ f. f.weights_hash) (new_manifest-fields p w _ _ _ _ h)

  weights_differ :
      AsciiNormal p
      → (m n : ModelManifest) → m.weights_hash ≡ codes "sha3:w"
      → n.weights_hash ≡ codes "sha3:w-DIFFERENT"
      → ¬ SameEnvironment p m.fields n.fields
  weights_differ a m n hm hn same =
      let e : codes "sha3:w" ≡ codes "sha3:w-DIFFERENT" =
        nfc-IsAscii-injective a (codes "sha3:w") (codes "sha3:w-DIFFERENT") (omega arith)
          (omega arith) (ap p.nfc (sym hm) ∙ same.weights_hash ∙ ap p.nfc hn) in
      ground (arith, e)

  run_cases_run :
      (calls : ℕ) {m n : ModelManifest} {sealed t : Bytes} {after : ℕ}
      → timed_manifest p (codes "sha3:w") ≡ ok m
      → timed_manifest p (codes "sha3:w-DIFFERENT") ≡ ok n
      → seal_state p
          (calls + 2)
          (bytes (p.urandom (calls + 1) 256))
          (model_manifest m)
          (bytes (p.urandom calls 32))
          (int (pos 0))
          (bytes [])
          Value.none
        ≡ ok (sealed, after)
      → open_case p m sealed (p.urandom calls 32) ≡ ok t
      → attempt (open_case p n sealed (p.urandom calls 32)) ≡ ok false
      → attempt (open_case p m sealed (replicate 32 0)) ≡ ok false
      → attempt (open_case p m (tamper sealed) (p.urandom calls 32)) ≡ ok false
      → run_cases p calls ≡ ok (false ∷ false ∷ false ∷ [])
  unfolding run_cases
  run_cases_run calls h₁ h₂ h₃ h₄ h₅ h₆ h₇ = rw (h₁, h₂, h₃, h₄, h₅, h₆, h₇) refl

  -- The envelope opens in the first case, and the other three, another environment, another secret
  -- and a flipped bit at the end, are refused as mismatches; or the random secret is zero, or a
  -- primitive is broken at what these opens of the run's envelope compute, or the flipped envelope is
  -- a forgery; once the two manifests are constructed, with
  -- primitives as documented that return bytes and take 256.
  pub run_cases_refused :
      Documented p
      → Octets p
      → AsciiNormal p
      → 256 ≤ p.max_text
      → (calls : ℕ) {m n : ModelManifest} → timed_manifest p (codes "sha3:w") ≡ ok m
      → timed_manifest p (codes "sha3:w-DIFFERENT") ≡ ok n
      → (run_cases p calls ≡ ok (false ∷ false ∷ false ∷ [])) ⊎ RunOpened p m n calls
  unfolding open_case
  run_cases_refused d o a room calls {m} {n} hm hn =
      let master = p.urandom calls 32 in
      let state = p.urandom (calls + 1) 256 in
      let long : 16 ≤ length master = omega (arith, d.length-urandom calls 32) in
      let size = d.length-urandom (calls + 1) 256 in
      let vm = timed_manifest-IsManifest (codes "sha3:w") hm in
      let vn = timed_manifest-IsManifest (codes "sha3:w-DIFFERENT") hn in
      let (sealed, run, opens) =
        seal_plain p m vm master [] long (omega arith) d (omega arith) (calls + 2) state
          (omega (arith, size)) (omega (arith, size)) in
      let valid =
        seal_state-IsBytes p d o (calls + 2) (bytes state) (model_manifest m) (bytes master)
          (int (pos 0)) (bytes []) Value.none {s = state} (unfold require_state in refl)
          (o.urandom-IsBytes (calls + 1) 256) run in
      let differ =
        weights_differ a m n (timed_manifest-weights (codes "sha3:w") hm)
          (timed_manifest-weights (codes "sha3:w-DIFFERENT") hn) in
      elim (wrong_env p d m n vm vn master sealed long opens differ) [
        | inr broken ↦ inr (record { sealed = sealed; run = run; opened = broken })
        | inl env ↦ elim (wrong_secret p d m n vm vn master sealed long opens) [
          | inr broken ↦ inr (record { sealed = sealed; run = run; opened = broken })
          | inl secret ↦
              elim (tampered p d m n vm vn master sealed long opens (calls + 2) state valid run) [
                | inr broken ↦ inr (record { sealed = sealed; run = run; opened = broken })
                | inl flipped ↦ inl (run_cases_run calls hm hn run opens env secret flipped)
              ]
        ]
      ]
