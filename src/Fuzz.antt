-- ===== src/Fuzz.antt =====
-- The fuzz target of fuzz/fuzz_envelope.py, `TestOneInput`, and its driver.
pub mod Passes
pub mod Corpus
pub mod Driver
pub mod Generated
pub mod Seeds
pub mod Main
pub mod Regression
use sce.Base.{
  ℕ, ◌%◌, List, [], ◌∷◌, Bool, not, leb, ◌==◌, list_eq, if◌then◌else◌, length, take, drop,
  replicate, codes,
}
use sce.Error.{Exception, Result, ok, raise, ◌>>=◌, is_sce_error}
use sce.Value.{Bytes, Value, ModelManifest, int, pos, str, bytes, model_manifest, mapping, nil}
use sce.Bytes.{from_bytes, slice}
use sce.Library.{Primitives}
use sce.Manifest.{new_manifest}
use sce.Envelope.{describe_envelope, explain_mismatch}
use sce.Seal.{seal_state, unseal_state}
use sce.Stream.{describe_stream}
use sce.Chunked.{unseal_state_chunked}

-- `MASTER`
abbrev pub master : Value
master = bytes (replicate 32 17)

-- `MANIFEST`
unfoldable pub target_manifest : Primitives → Result ModelManifest
target_manifest p =
    new_manifest p (str (codes "sha3:aaaa1111")) (str (codes "bf16"))
      (str (codes "vllm-0.6.3+abc123")) (str (codes "tp=1,pp=1")) (str (codes "bf16")) (mapping nil)

-- `_ENTRY_POINTS`
abbrev pub entry_points : ℕ
entry_points = 6

-- How a call of `TestOneInput` ends: it returns, or raises `FuzzFailure` for bytes that did not come
-- back or for an exception that escaped an entry point.
pub data Outcome : Type 0 where
  returned : Outcome
  not_recovered : Bytes → Bytes → Outcome
  escaped : ℕ → Exception → Outcome

-- The `except` clauses of `TestOneInput`.
unfoldable pub outcome : ℕ → Result Outcome → Outcome
outcome selector (ok o) = o
outcome selector (raise e) = if is_sce_error e then returned else escaped selector e

-- `if out != body`
unfoldable pub compare_bytes : Bytes → Bytes → Outcome
compare_bytes body out = if list_eq out body then returned else not_recovered body out

-- A call whose value is dropped.
abbrev pub quiet {ℓ} : {A : Type ℓ} → Result A → Result Outcome
quiet call = call >>= λ x. ok returned

module _ (p : Primitives) (manifest : ModelManifest) where
  -- The round trip of selector 5, with the epoch and the context that the payload chooses.
  unfoldable pub seal_and_unseal : ℕ → Bytes → Result Outcome
  seal_and_unseal calls payload = do
    let epoch = if leb 2 (length payload) then from_bytes 0 (take 2 payload) else 0
    let ctx = slice 2 6 payload
    let body = drop 6 payload
    sealed ←
        seal_state p calls (bytes body) (model_manifest manifest) master (int (pos epoch))
          (bytes ctx) Value.none
    out ←
        unseal_state p (bytes sealed.0) (model_manifest manifest) master (int (pos epoch))
          (bytes ctx)
    ok (compare_bytes body out)

  -- The body of the `try`.
  unfoldable pub call_entry_point : ℕ → ℕ → Bytes → Result Outcome
  call_entry_point calls selector payload =
      if selector == 0
      then quiet
          (unseal_state p (bytes payload) (model_manifest manifest) master (int (pos 0)) (bytes []))
      else (if selector == 1
          then quiet (describe_envelope (bytes payload))
          else (if selector == 2
              then quiet (explain_mismatch (bytes payload) (model_manifest manifest))
              else (if selector == 3
                  then quiet (
                      unseal_state_chunked p (bytes payload) (model_manifest manifest) master
                        (int (pos 0)) (bytes []))
                  else (if selector == 4
                      then quiet (describe_stream (bytes payload))
                      else (if selector == 5
                          then seal_and_unseal calls payload
                          else ok returned)))))

  -- `TestOneInput`, in a process that has called `os.urandom` `calls` times.
  unfoldable pub test_one_input : ℕ → Bytes → Outcome
  test_one_input calls [] = returned
  test_one_input calls (d ∷ payload) =
      let selector = d % entry_points in outcome selector (call_entry_point calls selector payload)
