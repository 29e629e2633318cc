-- ===== src/Attack.antt =====
-- The attacks of examples/attack_sim.py on an envelope.
pub mod Guesses
pub mod Simulation
use sce.Base.{
  ℕ, zero, suc, ◌+◌, Bool, true, false, not, Option, none, some, [], ◌++◌, ◌==◌, codes, list_eq,
}
use sce.Error.{Result, ok, raise, ◌>>=◌, ◌>>◌, raise_if, state_seal_mismatch, assertion_error}
use sce.Value.{
  Bytes, Text, Value, ModelManifest, int, pos, str, bytes, model_manifest, mapping, nil,
}
use sce.Texts.{decimal_six, hex}
use sce.Library.{Primitives}
use sce.Manifest.{new_manifest}
use sce.Seal.{seal_state, unseal_state}

-- `context=b"prod"`
abbrev pub prod : Bytes
prod = codes "prod"

abbrev pub secret_state : Bytes
secret_state = codes "PRIVATE conversation state the attacker wants to read"

-- `try: unseal_state(…) … except StateSealMismatch`: whether the envelope was opened
unfoldable pub attempt : Result Bytes → Result Bool
attempt (ok t) = ok true
attempt (raise (state_seal_mismatch m)) = ok false
attempt (raise e) = raise e

module _ (p : Primitives) where
  -- `manifest` of `main`
  unfoldable pub public_manifest : Result ModelManifest
  public_manifest =
      new_manifest p (str (codes "sha3:7b-instruct-v1-9f2a")) (str (codes "bf16"))
        (str (codes "vllm-0.6.3+build.a1b2c3")) (str (codes "tp=1,pp=1")) (str (codes "bf16"))
        (mapping nil)

  -- `seal_state(secret_state, manifest, master_secret=…, context=…)`
  unfoldable pub seal_secret : ℕ → ModelManifest → Bytes → Bytes → Result (Bytes × ℕ)
  seal_secret calls m master context =
      seal_state p calls (bytes secret_state) (model_manifest m) (bytes master) (int (pos 0))
        (bytes context) Value.none

  unfoldable pub unseal_with : ModelManifest → Bytes → Bytes → Bytes → Result Bytes
  unseal_with m sealed master context =
      unseal_state p (bytes sealed) (model_manifest m) (bytes master) (int (pos 0)) (bytes context)

  -- The loop of attack 1, with the attempts that are left: the envelopes opened, and the count of
  -- the calls of `os.urandom`.
  unfoldable pub brute_force : ModelManifest → Bytes → ℕ → ℕ → ℕ → Result (ℕ × ℕ)
  brute_force m sealed zero calls successes = ok (successes, calls)
  brute_force m sealed (suc attempts) calls successes = do
    opened ← attempt (unseal_with m sealed (p.urandom calls 32) prod)
    brute_force m sealed attempts (calls + 1)
        (elim opened [ true ↦ successes + 1 | false ↦ successes ])

  -- `weak_secret`
  unfoldable pub weak_secret : ℕ → Bytes
  weak_secret pin = p.sha3_256 (codes "master-pin-" ++ decimal_six pin)

  -- The loop of attack 2, with the pins that are left from `pin` on: the pin found.
  unfoldable pub crack : ModelManifest → Bytes → ℕ → ℕ → Result (Option ℕ)
  crack m sealed zero pin = ok none
  crack m sealed (suc left) pin = do
    opened ← attempt (unseal_with m sealed (weak_secret pin) prod)
    elim opened [ true ↦ ok (some pin) | false ↦ crack m sealed left (pin + 1) ]
