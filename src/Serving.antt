-- ===== src/Serving.antt =====
-- The serving adapter of examples/serving_adapter.py: the endpoint `MockInferenceServer`, which
-- keeps no conversation, and the `Client` that carries the sealed state between its turns.
pub mod Client
pub mod Transcript
pub mod Turn
pub mod Session
pub mod Update
pub mod Overnight
use sce.Base.{
  ℕ, ◌+◌, Option, none, some, List, [], ◌∷◌, ◌++◌, map, codes, length, list_eq, if◌then◌else◌,
}
use sce.Error.{Exception, Result, ok, raise, ◌>>=◌, state_seal_mismatch, key_error}
use sce.Value.{
  Bytes, Text, Value, ModelManifest, int, pos, str, bytes, model_manifest, mapping, nil,
}
use sce.Utf8.{utf8}
use sce.Utf8.Decode.{ready, utf8_decode}
use sce.Base64.{b64encode, b64decode}
use sce.Texts.{count, decimal, join_with, hex}
use sce.Library.{Primitives}
use sce.Manifest.{new_manifest}
use sce.Envelope.{explain_mismatch}
use sce.Seal.{seal_state, unseal_state}

-- The state of the endpoint: its secret and its identity.
pub record MockInferenceServer : Type 0 where
  pub master_secret : Bytes
  pub manifest : ModelManifest

-- `{"message": …, "continuation": …}`
pub record Request : Type 0 where
  pub message : Text
  pub continuation : Option Text

-- `{"reply": …, "continuation": …}` or `{"error": …}`
pub data Response : Type 0 where
  replied : Text → Text → Response
  error : Text → Response

abbrev pub state_epoch_mismatch : Text
state_epoch_mismatch = codes "state_epoch_mismatch"

-- `"\n"`
abbrev pub newline : Text
newline = 10 ∷ []

-- The transcript of the mock model with a message of the user.
unfoldable pub add_message : Text → Text → Text
add_message [] message = codes "user:" ++ message
add_message (c ∷ history) message = c ∷ history ++ (newline ++ (codes "user:" ++ message))

-- The reply of the mock model, of a transcript that ends in the message.
unfoldable pub model_reply : Text → Text
model_reply history =
    codes "(model reply on turn "
    ++ (decimal (count (codes "user:") history)
        ++ (codes "; I have " ++ (decimal (length history) ++ codes " bytes of state)")))

-- The transcript with the reply.
unfoldable pub add_reply : Text → Text → Text
add_reply history reply = history ++ (newline ++ (codes "assistant:" ++ reply))

-- `prior_state.decode() if prior_state else ""`
unfoldable pub read_history : Bytes → Result Text
read_history [] = ok []
read_history (b ∷ bs) = utf8_decode ready (b ∷ bs)

-- `_run_model`
unfoldable pub run_model : Text → Bytes → Result (Text × Bytes)
run_model message prior_state = do
  before ← read_history prior_state
  let history = add_message before message
  let reply = model_reply history
  state ← utf8 (add_reply history reply)
  ok (reply, state)

module _ (p : Primitives) where
  -- `__init__`, in a process that has called `os.urandom` `calls` times
  unfoldable pub new_server : ℕ → Result (MockInferenceServer × ℕ)
  new_server calls = do
    m ←
        new_manifest p (str (codes "sha3:llama-3-8b-instruct-v1")) (str (codes "bf16"))
          (str (codes "vllm-0.6.3+build.a1b2c3")) (str (codes "tp=1,pp=1")) (str (codes "bf16"))
          (mapping nil)
    ok (record { master_secret = p.urandom calls 32; manifest = m }, calls + 1)

  -- `update_model`
  unfoldable pub update_model : MockInferenceServer → Result MockInferenceServer
  update_model server = do
    m ←
        new_manifest p (str (codes "sha3:llama-3-8b-instruct-v2")) (str (codes "fp8-e4m3"))
          (str (codes "vllm-0.6.4+build.d4e5f6")) (str (codes "tp=1,pp=1")) (str (codes "bf16"))
          (mapping nil)
    ok (record server { manifest = m })

  -- `unseal_state` with the endpoint's identity and secret
  unfoldable pub unseal : MockInferenceServer → Bytes → Result Bytes
  unseal server sealed =
      unseal_state p (bytes sealed) (model_manifest server.manifest) (bytes server.master_secret)
        (int (pos 0)) (bytes [])

  -- The `try` of `chat`: the state, or nothing once a mismatch is caught and its note is made.
  unfoldable pub resumed : MockInferenceServer → Bytes → Result Bytes → Result (Option Bytes)
  resumed server sealed (ok state) = ok (some state)
  resumed server sealed (raise (state_seal_mismatch m)) = do
    note ← explain_mismatch (bytes sealed) (model_manifest server.manifest)
    ok none
  resumed server sealed (raise e) = raise e

  -- The prior state of a request; an empty continuation counts as none.
  unfoldable pub resume : MockInferenceServer → Option Text → Result (Option Bytes)
  resume server none = ok (some [])
  resume server (some []) = ok (some [])
  resume server (some (c ∷ cs)) = do
    sealed ← b64decode (c ∷ cs)
    resumed server sealed (unseal server sealed)

  -- The rest of `chat`, once the prior state is known or refused.
  unfoldable pub answer : MockInferenceServer → ℕ → Text → Option Bytes → Result (Response × ℕ)
  answer server calls message none = ok (error state_epoch_mismatch, calls)
  answer server calls message (some prior_state) = do
    out ← run_model message prior_state
    sealed ←
        seal_state p calls (bytes out.1) (model_manifest server.manifest)
          (bytes server.master_secret) (int (pos 0)) (bytes []) Value.none
    ok (replied out.0 (b64encode sealed.0), sealed.1)

  -- `chat`
  unfoldable pub chat : MockInferenceServer → ℕ → Request → Result (Response × ℕ)
  chat server calls request = do
    prior ← resume server request.continuation
    answer server calls request.message prior

-- `service_discovery`, the value under "memh"
unfoldable pub service_discovery : MockInferenceServer → Text
service_discovery server = hex server.manifest.memh
