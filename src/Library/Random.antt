-- ===== src/Library/Random.antt =====
-- Python's `random.Random`, from which fuzz/fuzz_envelope.py makes its inputs.
use sce.Base.{ℕ, ◌+◌, ◌-◌, ◌<◌}
use sce.Value.{ℤ}

-- A generator with states of its own.
pub record Random (State : Type 0) : Type 0 where
  -- `Random(seed)`
  pub seeded : ℤ → State
  -- a draw below n, which `randrange` and `choice` make
  pub below : ℕ → State → ℕ × State
  -- `random()`, as the numerator over 2 ^ 53
  pub random : State → ℕ × State

-- The documented range of the draws.
pub record RandomLaws {State : Type 0} (rng : Random State) : Type 0 where
  pub below_lt : (n : ℕ) (s : State) → 0 < n → (rng.below n s).0 < n

-- `randrange(lo, hi)` for lo < hi
abbrev pub randrange : {State : Type 0} → Random State → ℕ → ℕ → State → ℕ × State
randrange rng lo hi s = let (n, s') = rng.below (hi - lo) s in (lo + n, s')
