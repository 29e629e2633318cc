-- ===== src/Attack/Simulation/Verdict.antt =====
-- How `main` of examples/attack_sim.py ends.
use sce.Base.{
  ℕ, ◌+◌, ◌≤◌, ◌<◌, ◌≡◌, ◌≢◌, refl, sym, ◌∙◌, ap, ◌⊎◌, inl, inr, true, false, some, [], ◌∷◌, arith,
  length, list_eq_refl,
}
use sce.Error.{ok, ok-injective}
use sce.Value.{Bytes, ModelManifest, bytes}
use sce.Bytes.{max_lp_field}
use sce.Texts.{hex}
use sce.Library.{Primitives, Documented}
use sce.Manifest.Construct.{IsManifest, new_manifest-IsManifest}
use sce.Keys.Binding.{Collision}
use sce.Envelope.{Description, describe_envelope}
use sce.Seal.Returns.{aad_len}
use sce.Seal.Refuses.{open_under-refuses}
use sce.Seal.Binding.{SamePresented, KnownBreak}
use sce.Seal.Plain.{
  plain, plain-Admitted, bounded_context-bytes, seal_plain, describe_envelope-opened,
}
use sce.Attack.{
  prod, secret_state, attempt, public_manifest, seal_secret, unseal_with, brute_force, weak_secret,
  crack,
}
use sce.Attack.Guesses.{
  Lucky, pin_text, presented, attempt_refused, brute_force-none, crack-finds, length-weak_secret,
}
use sce.Attack.Simulation.{
  attempts, pins, real_pin, clone_context, Report, is_pin, session_context, simulate,
}

length-hex : (b : Bytes) → length (hex b) ≡ length b + length b
unfolding hex
length-hex [] = refl
length-hex (x ∷ b) = omega (arith, length-hex b)

length-session_context : (b : Bytes) → length (session_context b) ≡ 8 + (length b + length b)
unfolding session_context
length-session_context b = omega (arith, length-hex b)

-- No session is the clone's.
session_context-ne-clone : (b : Bytes) → length b ≡ 16 → session_context b ≢ clone_context
session_context-ne-clone b h e = absurd (omega (arith, ap length e, length-session_context b))

-- The counts of the calls of `os.urandom` before the attacks: after the first envelope, after the
-- guesses of attack 1, and after the envelope of the weak secret.
abbrev pub sealed_at : ℕ → ℕ
sealed_at calls = calls + 1 + 2

abbrev pub guessed_at : ℕ → ℕ
guessed_at calls = sealed_at calls + attempts

abbrev pub weak_at : ℕ → ℕ
weak_at calls = guessed_at calls + 2

-- How an attack of the run can succeed: a secret that attack 1 draws is the master secret, or one of
-- the secrets that it draws, of the pins that attack 2 tries, or the context of the clone breaks a
-- primitive at what the opens of the envelope of that attack compute.
pub data Broken (p : Primitives) (m : ModelManifest) (calls : ℕ) : Type 0 where
  guessed :
      (sealed : Bytes) (i : ℕ)
      → seal_secret p (calls + 1) m (p.urandom calls 32) prod ≡ ok (sealed, sealed_at calls)
      → sealed_at calls ≤ i
      → i < guessed_at calls
      → Lucky p m sealed (p.urandom calls 32) (p.urandom i 32)
      → Broken p m calls
  other_pin :
      (weak : Bytes) (i : ℕ)
      → seal_secret p (guessed_at calls) m (weak_secret p real_pin) prod ≡ ok (weak, weak_at calls)
      → i < real_pin
      → Collision p (pin_text i) (pin_text real_pin)
        ⊎ KnownBreak p
            (bytes weak)
            (presented m (weak_secret p real_pin))
            (presented m (weak_secret p i))
      → Broken p m calls
  other_session :
      (bound : Bytes)
      → seal_secret p
          (weak_at calls + 1)
          m
          (p.urandom calls 32)
          (session_context (p.urandom (weak_at calls) 16))
        ≡ ok (bound, weak_at calls + 1 + 2)
      → KnownBreak p
          (bytes bound)
          (plain m (p.urandom calls 32) (session_context (p.urandom (weak_at calls) 16)))
          (plain m (p.urandom calls 32) clone_context)
      → Broken p m calls

module _ (p : Primitives) (d : Documented p) (room : aad_len ≤ p.max_text) (m : ModelManifest)
    (vm : IsManifest p m) where
  -- An envelope of the secret state, which opens.
  seal_secret-returns :
      (calls : ℕ) (master context : Bytes)
      → 16 ≤ length master
      → length context ≤ max_lp_field
      → (sealed : Bytes) × (seal_secret p calls m master context ≡ ok (sealed, calls + 2))
        × (unseal_with p m sealed master context ≡ ok secret_state)
  unfolding seal_secret unseal_with
  seal_secret-returns calls master context long short =
      seal_plain p m vm master context long short d room calls secret_state (omega arith)
        (omega arith)

  describe_envelope-returns :
      (sealed master context : Bytes) {t : Bytes}
      → unseal_with p m sealed master context ≡ ok t
      → (x : Description) × (describe_envelope (bytes sealed) ≡ ok x)
  unfolding unseal_with
  describe_envelope-returns sealed master context h =
      describe_envelope-opened p sealed (plain m master context) h

  clone_refused :
      (master drawn sealed : Bytes) {t : Bytes}
      → 16 ≤ length master
      → length drawn ≡ 16
      → unseal_with p m sealed master (session_context drawn) ≡ ok t
      → (attempt (unseal_with p m sealed master clone_context) ≡ ok false)
        ⊎ KnownBreak p
            (bytes sealed)
            (plain m master (session_context drawn))
            (plain m master clone_context)
  unfolding unseal_with
  clone_refused master drawn sealed long h opens =
      let short : length (session_context drawn) ≤ max_lp_field =
        omega (arith, length-session_context drawn) in
      let differ : SamePresented p (plain m master (session_context drawn))
            (plain m master clone_context)
          → ⊥ =
        λ same. session_context-ne-clone drawn h (
          ok-injective (
            sym (bounded_context-bytes (session_context drawn) short)
            ∙ same.context
            ∙ bounded_context-bytes clone_context (omega arith))) in
      elim (open_under-refuses p d (bytes sealed) (plain m master (session_context drawn))
        (plain m master clone_context)
        (plain-Admitted p m vm master (session_context drawn) long short)
        (plain-Admitted p m vm master clone_context long (omega arith)) differ opens) [
          | inl refused ↦ inl (attempt_refused _ refused)
          | inr broken ↦ inr broken
        ]

-- The report of an attack that failed, but for the weak secret.
abbrev pub expected : Report
expected = record {
  successes = 0;
  recovered = true;
  found = some real_pin;
  replayed = true;
  elsewhere = false;
  legitimate = true;
}

module _ (p : Primitives) (calls : ℕ) where
  -- The program, from what its calls return.
  simulate_run :
      {n forced after end : ℕ} {m : ModelManifest} {sealed weak bound : Bytes} {x : Description}
      → public_manifest p ≡ ok m
      → seal_secret p (calls + 1) m (p.urandom calls 32) prod ≡ ok (sealed, n)
      → describe_envelope (bytes sealed) ≡ ok x
      → brute_force p m sealed attempts n 0 ≡ ok (0, forced)
      → unseal_with p m sealed (p.urandom calls 32) prod ≡ ok secret_state
      → seal_secret p forced m (weak_secret p real_pin) prod ≡ ok (weak, after)
      → crack p m weak pins 0 ≡ ok (some real_pin)
      → seal_secret p (after + 1) m (p.urandom calls 32) (session_context (p.urandom after 16))
        ≡ ok (bound, end)
      → attempt (unseal_with p m bound (p.urandom calls 32) clone_context) ≡ ok false
      → unseal_with p m bound (p.urandom calls 32) (session_context (p.urandom after 16))
        ≡ ok secret_state
      → simulate p calls ≡ ok expected
  unfolding simulate is_pin
  simulate_run h₁ h₂ h₃ h₄ h₅ h₆ h₇ h₈ h₉ h₁₀ =
      rw (h₁, h₂, h₃, h₄, h₅, h₆, h₇, h₈, h₉, h₁₀, list_eq_refl secret_state) refl

  -- The program ends with both assertions passed, reporting that no guess opened the envelope, that
  -- the search found the pin behind the weak secret, that the right secret opened every time, and
  -- that the other session was refused; or a secret that the run guessed was the master
  -- secret, or a primitive is broken at what the run's opens of an envelope under two secrets or
  -- contexts compute; once its manifest is constructed, with primitives as documented that take the
  -- associated data.
  pub simulate-expected :
      Documented p
      → aad_len ≤ p.max_text
      → {m : ModelManifest} → public_manifest p ≡ ok m
      → (simulate p calls ≡ ok expected) ⊎ Broken p m calls
  simulate-expected d room {m} h =
      let vm : IsManifest p m =
        unfold public_manifest in (new_manifest-IsManifest p _ _ _ _ _ _ h) in
      let master = p.urandom calls 32 in
      let long : 16 ≤ length master = omega (arith, d.length-urandom calls 32) in
      let (sealed, run, opens) =
        seal_secret-returns p d room m vm (calls + 1) master prod long (omega arith) in
      let (x, described) = describe_envelope-returns p d room m vm sealed master prod opens in
      let weak_long : 16 ≤ length (weak_secret p real_pin) =
        omega (arith, length-weak_secret p d real_pin) in
      elim (brute_force-none p d m vm sealed master long opens attempts (sealed_at calls) 0) [
        | inr (i, lo, hi, lucky) ↦ inr (guessed sealed i run lo hi lucky)
        | inl forced ↦
            let after = guessed_at calls in
            let (weak, weak_run, weak_opens) =
              seal_secret-returns p d room m vm after (weak_secret p real_pin) prod weak_long
                (omega arith) in
            let drawn = p.urandom (after + 2) 16 in
            let sixteen = d.length-urandom (after + 2) 16 in
            let (bound, bound_run, bound_opens) =
              seal_secret-returns p d room m vm (after + 2 + 1) master (session_context drawn) long
                (omega (arith, length-session_context drawn, sixteen)) in
            elim (crack-finds p d m vm weak real_pin weak_opens pins 0 (omega arith)
              (omega arith)) [
                | inr (i, before, how) ↦ inr (other_pin weak i weak_run before how)
                | inl found ↦
                    elim (clone_refused p d room m vm master drawn bound long sixteen bound_opens) [
                      | inr broken ↦ inr (other_session bound bound_run broken)
                      | inl refused ↦ inl (
                          simulate_run h run described forced opens weak_run found bound_run refused
                            bound_opens)
                    ]
              ]
      ]
