-- ===== src/Bench/Timing.antt =====
-- bench/timing_check.py: the four cases whose times it compares. The times are left out.
pub mod Tampered
pub mod Cases
use sce.Base.{ℕ, ◌+◌, ◌-◌, Bool, List, [], ◌∷◌, length, replicate, codes}
use sce.Error.{Result, ok, ◌>>=◌}
use sce.Value.{
  Bytes, Text, Value, ModelManifest, int, pos, str, bytes, model_manifest, mapping, nil,
}
use sce.Library.{Primitives}
use sce.Manifest.{new_manifest}
use sce.Seal.{seal_state, unseal_state}
use sce.Attack.{attempt}
use sce.Fuzz.Driver.{flip_bit, update_at}

-- `tampered`
unfoldable pub tamper : Bytes → Bytes
tamper sealed = update_at (flip_bit 0) (length sealed - 1) sealed

module _ (p : Primitives) where
  -- `M` and `M_WRONG`
  unfoldable pub timed_manifest : Text → Result ModelManifest
  timed_manifest weights =
      new_manifest p (str weights) (str (codes "bf16")) (str (codes "k")) (str (codes "tp=1,pp=1"))
        (str (codes "bf16")) (mapping nil)

  unfoldable pub open_case : ModelManifest → Bytes → Bytes → Result Bytes
  open_case m sealed master =
      unseal_state p (bytes sealed) (model_manifest m) (bytes master) (int (pos 0)) (bytes [])

  -- The import of the module, and each case once: `case_success`, which catches nothing, then
  -- whether `case_wrong_env`, `case_wrong_secret` and `case_tampered_ct` opened the envelope.
  unfoldable pub run_cases : ℕ → Result (List Bool)
  run_cases calls = do
    let master = p.urandom calls 32
    m ← timed_manifest (codes "sha3:w")
    m_wrong ← timed_manifest (codes "sha3:w-DIFFERENT")
    sealed ←
        seal_state p (calls + 2) (bytes (p.urandom (calls + 1) 256)) (model_manifest m)
          (bytes master) (int (pos 0)) (bytes []) Value.none
    opened ← open_case m sealed.0 master
    wrong_env ← attempt (open_case m_wrong sealed.0 master)
    wrong_secret ← attempt (open_case m sealed.0 (replicate 32 0))
    tampered ← attempt (open_case m (tamper sealed.0) master)
    ok (wrong_env ∷ wrong_secret ∷ tampered ∷ [])
