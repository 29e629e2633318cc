-- ===== src/Attack/Simulation.antt =====
-- `main` of examples/attack_sim.py, without what it prints and measures.
pub mod Verdict
use sce.Base.{ℕ, ◌+◌, Bool, not, Option, none, some, [], ◌++◌, ◌==◌, codes, list_eq}
use sce.Error.{Result, ok, ◌>>=◌, ◌>>◌, raise_if, assertion_error}
use sce.Value.{Bytes, bytes}
use sce.Texts.{hex}
use sce.Library.{Primitives}
use sce.Envelope.{describe_envelope}
use sce.Attack.{
  prod, secret_state, attempt, public_manifest, seal_secret, unseal_with, brute_force, weak_secret,
  crack,
}

abbrev pub attempts : ℕ
attempts = 200000

abbrev pub pins : ℕ
pins = 1000000

abbrev pub real_pin : ℕ
real_pin = 428913

-- The context of another session.
abbrev pub clone_context : Bytes
clone_context = codes "session:clone-guessed-value"

-- What the program reports: the envelopes opened by brute force, the pin found, and whether each
-- open gave the state back; `elsewhere` is whether another session opened the envelope.
pub record Report : Type 0 where
  pub successes : ℕ
  pub recovered : Bool
  pub found : Option ℕ
  pub replayed : Bool
  pub elsewhere : Bool
  pub legitimate : Bool

-- `found == real_pin`
unfoldable pub is_pin : Option ℕ → ℕ → Bool
is_pin none pin = Bool.false
is_pin (some i) pin = i == pin

-- `real_ctx`; the digits of `hex` are their own encoding.
unfoldable pub session_context : Bytes → Bytes
session_context drawn = codes "session:" ++ hex drawn

module _ (p : Primitives) where
  -- `main`, in a process that has called `os.urandom` `calls` times
  unfoldable pub simulate : ℕ → Result Report
  simulate calls = do
    let provider_master = p.urandom calls 32
    m ← public_manifest p
    sealed ← seal_secret p (calls + 1) m provider_master prod
    description ← describe_envelope (bytes sealed.0)
    forced ← brute_force p m sealed.0 attempts sealed.1 0
    raise_if (not (forced.0 == 0)) assertion_error
    opened ← unseal_with p m sealed.0 provider_master prod
    weak ← seal_secret p forced.1 m (weak_secret p real_pin) prod
    found ← crack p m weak.0 pins 0
    raise_if (not (is_pin found real_pin)) assertion_error
    again ← unseal_with p m sealed.0 provider_master prod
    let real_ctx = session_context (p.urandom weak.1 16)
    bound ← seal_secret p (weak.1 + 1) m provider_master real_ctx
    elsewhere ← attempt (unseal_with p m bound.0 provider_master clone_context)
    accepted ← unseal_with p m bound.0 provider_master real_ctx
    ok (record {
      successes = forced.0;
      recovered = list_eq opened secret_state;
      found = found;
      replayed = list_eq again secret_state;
      elsewhere = elsewhere;
      legitimate = list_eq accepted secret_state;
    })
