-- ===== src/Attack/Guesses.antt =====
-- The loops of examples/attack_sim.py over guessed secrets.
use sce.Base.{
  ℕ, zero, suc, ◌+◌, ◌≤◌, ◌<◌, ◌≡◌, ◌≢◌, refl, sym, ◌∙◌, ap, ◌⊎◌, inl, inr, true, false, Option,
  some, ◌++◌, arith, length, codes, append-cut, list_eq-cases,
}
use sce.Error.{Result, ok, raise, state_seal_mismatch, mismatch_message, ok-injective}
use sce.Value.{Bytes, ModelManifest, bytes}
use sce.Texts.{decimal_six}
use sce.Texts.Decimal.{decimal_six-injective}
use sce.Library.{Primitives, Documented}
use sce.Manifest.Construct.{IsManifest}
use sce.Keys.Derive.{require_secret-long}
use sce.Keys.Binding.{Collision}
use sce.Seal.Refuses.{Admitted, open_under-refuses}
use sce.Seal.Binding.{Presented, SamePresented, KnownBreak}
use sce.Seal.Plain.{plain, plain-Admitted}
use sce.Attack.{prod, attempt, unseal_with, brute_force, weak_secret, crack}

abbrev pub presented : ModelManifest → Bytes → Presented
presented m master = plain m master prod

-- How a guess can open an envelope sealed with another secret: it is that secret, or a primitive
-- is broken.
abbrev pub Lucky : Primitives → ModelManifest → Bytes → Bytes → Bytes → Type 0
Lucky p m sealed master guess =
    (master ≡ guess) ⊎ KnownBreak p (bytes sealed) (presented m master) (presented m guess)

pub attempt_refused :
    (r : Result Bytes) → r ≡ raise (state_seal_mismatch mismatch_message) → attempt r ≡ ok false
unfolding attempt
attempt_refused r h = rw h

attempt_opened : (r : Result Bytes) (t : Bytes) → r ≡ ok t → attempt r ≡ ok true
unfolding attempt
attempt_opened r t h = rw h

module _ (p : Primitives) (d : Documented p) (m : ModelManifest) (vm : IsManifest p m)
    (sealed master : Bytes) {t : Bytes} (long : 16 ≤ length master)
    (opens : unseal_with p m sealed master prod ≡ ok t) where
  presented-Admitted : (b : Bytes) → 16 ≤ length b → Admitted p (presented m b)
  presented-Admitted b h = plain-Admitted p m vm b prod h (omega arith)

  same_secret :
      (guess : Bytes)
      → 16 ≤ length guess
      → SamePresented p (presented m master) (presented m guess)
      → master ≡ guess
  same_secret guess h s =
      ok-injective (sym (require_secret-long master long) ∙ s.secret ∙ require_secret-long guess h)

  -- A guess is refused, or it is lucky.
  guess_refused :
      (guess : Bytes)
      → 16 ≤ length guess
      → master ≢ guess
      → (attempt (unseal_with p m sealed guess prod) ≡ ok false)
        ⊎ KnownBreak p (bytes sealed) (presented m master) (presented m guess)
  unfolding unseal_with
  guess_refused guess h ne =
      elim (open_under-refuses p d (bytes sealed) (presented m master) (presented m guess)
        (presented-Admitted master long) (presented-Admitted guess h)
        (λ s. ne (same_secret guess h s)) opens) [
          | inl refused ↦ inl (attempt_refused _ refused)
          | inr broken ↦ inr broken
        ]

  brute_force_step :
      (attempts calls n : ℕ) {r : Result (ℕ × ℕ)}
      → attempt (unseal_with p m sealed (p.urandom calls 32) prod) ≡ ok false
      → brute_force p m sealed attempts (calls + 1) n ≡ r
      → brute_force p m sealed (suc attempts) calls n ≡ r
  unfolding brute_force
  brute_force_step attempts calls n h e = rw h e

  brute_force_done : (calls n : ℕ) → brute_force p m sealed 0 calls n ≡ ok (n, calls)
  unfolding brute_force
  brute_force_done calls n = refl

  -- The attack with random guesses opens nothing, however many it makes, or a guess that it drew is
  -- the secret or breaks a primitive at what the opens of the envelope compute, with primitives as documented.
  pub brute_force-none :
      (attempts calls n : ℕ)
      → (brute_force p m sealed attempts calls n ≡ ok (n, calls + attempts))
        ⊎ ((i : ℕ) × (calls ≤ i)
            × (i < calls + attempts)
            × Lucky p m sealed master (p.urandom i 32))
  brute_force-none zero calls n =
      inl (brute_force_done calls n ∙ ap (λ (c : ℕ). ok (n, c)) (omega arith))
  brute_force-none (suc attempts) calls n = elim (list_eq-cases master (p.urandom calls 32)) [
    | inl same ↦ inr (calls, omega arith, omega arith, inl same)
    | inr ne ↦
        elim (guess_refused (p.urandom calls 32) (omega (arith, d.length-urandom calls 32)) ne) [
          | inr broken ↦ inr (calls, omega arith, omega arith, inr broken)
          | inl refused ↦ elim (brute_force-none attempts (calls + 1) n) [
            | inr (i, lo, hi, lucky) ↦ inr (i, omega arith, omega arith, lucky)
            | inl rest ↦ inl (
                brute_force_step attempts calls n refused
                  (rest ∙ ap (λ (c : ℕ). ok (n, c)) (omega arith)))
          ]
        ]
  ]

-- The text that a pin is hashed in.
abbrev pub pin_text : ℕ → Bytes
pin_text pin = codes "master-pin-" ++ decimal_six pin

pin_text-injective : (i j : ℕ) → pin_text i ≡ pin_text j → i ≡ j
pin_text-injective i j h =
    decimal_six-injective i j (append-cut (codes "master-pin-") (codes "master-pin-") refl h).1

pin-Collision :
    (p : Primitives) (i j : ℕ)
    → i < j
    → weak_secret p j ≡ weak_secret p i
    → Collision p (pin_text i) (pin_text j)
unfolding weak_secret
pin-Collision p i j h e = (λ same. absurd (omega (arith, pin_text-injective i j same)), sym e)

pub length-weak_secret : (p : Primitives) → Documented p → (i : ℕ) → length (weak_secret p i) ≡ 32
unfolding weak_secret
length-weak_secret p d i = d.length-sha3_256 _

le-cases : (a b : ℕ) → a ≤ b → (a ≡ b) ⊎ (a < b)
le-cases a b h = omega arith

crack_next :
    (p : Primitives) (m : ModelManifest) (sealed : Bytes) (left pin : ℕ) {r : Result (Option ℕ)}
    → attempt (unseal_with p m sealed (weak_secret p pin) prod) ≡ ok false
    → crack p m sealed left (pin + 1) ≡ r
    → crack p m sealed (suc left) pin ≡ r
unfolding crack
crack_next p m sealed left pin h e = rw h e

crack_here :
    (p : Primitives) (m : ModelManifest) (sealed : Bytes) (left pin : ℕ) {t : Bytes}
    → unseal_with p m sealed (weak_secret p pin) prod ≡ ok t
    → crack p m sealed (suc left) pin ≡ ok (some pin)
unfolding crack
crack_here p m sealed left pin {t} h = rw (attempt_opened _ t h)

-- A secret that is the hash of a pin is found: the search from a pin on, as far as the real one,
-- ends in the real one, or an earlier pin has the same hash or breaks a primitive at what
-- the opens of the envelope compute,
-- with primitives as documented.
pub crack-finds :
    (p : Primitives)
    → Documented p
    → (m : ModelManifest) → IsManifest p m
    → (sealed : Bytes) (real : ℕ) {t : Bytes}
    → unseal_with p m sealed (weak_secret p real) prod ≡ ok t
    → (left pin : ℕ) → pin ≤ real
    → real < pin + left
    → (crack p m sealed left pin ≡ ok (some real))
      ⊎ ((i : ℕ) × (i < real)
          × (Collision p (pin_text i) (pin_text real)
              ⊎ KnownBreak p
                  (bytes sealed)
                  (presented m (weak_secret p real))
                  (presented m (weak_secret p i))))
crack-finds p d m vm sealed real {t} h zero pin lo hi = absurd (omega arith)
crack-finds p d m vm sealed real {t} h (suc left) pin lo hi = elim (le-cases pin real lo) [
  | inl here ↦ inl (
      crack_here p m sealed left pin
        (ap (λ (i : ℕ). unseal_with p m sealed (weak_secret p i) prod) here ∙ h)
      ∙ ap (λ (i : ℕ). ok (some i)) here)
  | inr before ↦ elim (list_eq-cases (weak_secret p real) (weak_secret p pin)) [
    | inl same ↦ inr (pin, before, inl (pin-Collision p pin real before same))
    | inr ne ↦
        elim (guess_refused p d m vm sealed (weak_secret p real)
          (omega (arith, length-weak_secret p d real)) h (weak_secret p pin)
          (omega (arith, length-weak_secret p d pin)) ne) [
            | inr broken ↦ inr (pin, before, inr broken)
            | inl refused ↦
                elim (crack-finds p d m vm sealed real h left (pin + 1) (omega arith)
                  (omega arith)) [
                    | inr (i, earlier, how) ↦ inr (i, earlier, how)
                    | inl found ↦ inl (crack_next p m sealed left pin refused found)
                  ]
          ]
  ]
]
