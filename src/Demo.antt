-- ===== src/Demo.antt =====
-- The scenario of examples/demo.py: a state saved under one model and presented to the next.
pub mod Scenario
use sce.Base.{ℕ, ◌+◌, Bool, true, false, [], ◌++◌, codes, list_eq, take}
use sce.Error.{Result, ok, raise, ◌>>=◌, state_seal_mismatch}
use sce.Value.{
  Bytes, Text, Value, ModelManifest, int, pos, str, bytes, model_manifest, mapping, nil,
}
use sce.Texts.{hex}
use sce.Library.{Primitives}
use sce.Manifest.{new_manifest, compute_memh}
use sce.Envelope.{describe_envelope, explain_mismatch}
use sce.Seal.{seal_state, unseal_state}

-- `weights_v1` and `weights_v2`
abbrev pub weights_v1 : Bytes
weights_v1 = codes "<pretend these are the 7B model weight tensors, version 1>"

abbrev pub weights_v2 : Bytes
weights_v2 = codes "<same architecture, re-quantised weights, version 2>"

-- What the program shows: whether the resumed tensor is identical, and whether the state was
-- resumed by the next model.
pub record Shown : Type 0 where
  pub identical : Bool
  pub resumed : Bool

-- The `try` of step 4.
unfoldable pub present : Bytes → ModelManifest → Result Bytes → Result Bool
present sealed m (ok t) = ok true
present sealed m (raise (state_seal_mismatch e)) = do
  explanation ← explain_mismatch (bytes sealed) (model_manifest m)
  ok false
present sealed m (raise e) = raise e

module _ (p : Primitives) where
  -- `manifest_for`
  unfoldable pub manifest_for : Bytes → Text → Result ModelManifest
  manifest_for weight_bytes quantization =
      new_manifest p (str (codes "sha3:" ++ take 16 (hex (p.sha3_256 weight_bytes))))
        (str quantization) (str (codes "vllm-0.6.3+build.a1b2c3")) (str (codes "tp=1,pp=1"))
        (str (codes "bf16")) (mapping nil)

  -- `unseal_state(sealed, model, master_secret=master_secret, epoch_id=0)`
  unfoldable pub resume_under : ModelManifest → Bytes → Bytes → Result Bytes
  resume_under m sealed master_secret =
      unseal_state p (bytes sealed) (model_manifest m) (bytes master_secret) (int (pos 0))
        (bytes [])

  -- `main` on the bytes of the tensor, in a process that has called `os.urandom` `calls` times
  unfoldable pub demonstrate : Bytes → ℕ → Result Shown
  demonstrate state_bytes calls = do
    let master_secret = p.urandom calls 32
    model_v1 ← manifest_for weights_v1 (codes "bf16")
    memh_v1 ← compute_memh (model_manifest model_v1)
    sealed ←
        seal_state p (calls + 1) (bytes state_bytes) (model_manifest model_v1) (bytes master_secret)
          (int (pos 0)) (bytes []) Value.none
    description ← describe_envelope (bytes sealed.0)
    recovered ← resume_under model_v1 sealed.0 master_secret
    model_v2 ← manifest_for weights_v2 (codes "fp8-e4m3")
    memh_v2 ← compute_memh (model_manifest model_v2)
    resumed ← present sealed.0 model_v2 (resume_under model_v2 sealed.0 master_secret)
    ok (record { identical = list_eq recovered state_bytes; resumed = resumed })
