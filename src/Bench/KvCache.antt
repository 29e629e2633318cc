-- ===== src/Bench/KvCache.antt =====
-- bench/kv_cache_reality.py: the sizes of inference states and what sealing adds to them. Times,
-- which it measures, and the texts that it prints are left out.
pub mod Overhead
use sce.Base.{ℕ, ◌+◌, ◌-◌, ◌*◌, ◌/◌, Bool, true, false, not, List, [], ◌∷◌, length, list_eq, codes}
use sce.Error.{Result, ok, ◌>>=◌, ◌>>◌, raise_if, assertion_error}
use sce.Value.{Bytes, Value, ModelManifest, int, pos, str, bytes, model_manifest, mapping, nil}
use sce.Library.{Primitives}
use sce.Manifest.{new_manifest}
use sce.Envelope.{header_size, ctlen_size, tag_len}
use sce.Seal.{seal_state, unseal_state}

-- `FIXED_OVERHEAD`
abbrev pub fixed_overhead : ℕ
fixed_overhead = header_size + ctlen_size + tag_len

-- `kv_cache_bytes`
unfoldable pub kv_cache_bytes : ℕ → ℕ → ℕ → ℕ → ℕ → ℕ
kv_cache_bytes layers kv_heads head_dim seq dtype_bytes =
    2 * layers * kv_heads * head_dim * seq * dtype_bytes

-- `cal`
abbrev pub calibration : ℕ
calibration = 128 * 1024 * 1024

-- `cases`: a size, and whether it is measured or extrapolated.
unfoldable pub cases : List (ℕ × Bool)
unfolding kv_cache_bytes
cases =
    (4 * 1024, true)
    ∷ (64 * 5120 * 128 * 2, true)
    ∷ (kv_cache_bytes 32 8 128 512 2, true)
    ∷ (kv_cache_bytes 32 8 128 2048 2, true)
    ∷ (kv_cache_bytes 32 8 128 8192 2, false)
    ∷ (kv_cache_bytes 80 8 128 8192 1, false)
    ∷ []

module _ (p : Primitives) where
  -- `MANIFEST`
  unfoldable pub bench_manifest : Result ModelManifest
  bench_manifest =
      new_manifest p (str (codes "sha3:model-v1")) (str (codes "bf16"))
        (str (codes "vllm-0.6.3+abc")) (str (codes "tp=1,pp=1")) (str (codes "bf16")) (mapping nil)

-- `tensor n` stands for the bytes of numpy's tensor of n random float16 numbers.
module _ (p : Primitives) (tensor : ℕ → Bytes) where
  -- `measure`, under `MANIFEST` and `MASTER`: the overhead, and the count of the calls of
  -- `os.urandom`
  unfoldable pub measure : ModelManifest → Bytes → ℕ → ℕ → Result (ℕ × ℕ)
  measure m master calls size_bytes = do
    let state = tensor (size_bytes / 2)
    sealed ←
        seal_state p calls (bytes state) (model_manifest m) (bytes master) (int (pos 0)) (bytes [])
          Value.none
    out ← unseal_state p (bytes sealed.0) (model_manifest m) (bytes master) (int (pos 0)) (bytes [])
    raise_if (not (list_eq out state)) assertion_error
    ok (length sealed.0 - length state, sealed.1)

  -- The column of the overheads, from a case on.
  unfoldable pub overheads : ModelManifest → Bytes → ℕ → List (ℕ × Bool) → Result (List ℕ)
  overheads m master calls [] = ok []
  overheads m master calls ((size, true) ∷ rest) = do
    measured ← measure m master calls size
    more ← overheads m master measured.1 rest
    ok (measured.0 ∷ more)
  overheads m master calls ((size, false) ∷ rest) = do
    more ← overheads m master calls rest
    ok (fixed_overhead ∷ more)

  -- `main`, with the import of the module before it
  unfoldable pub benchmark : ℕ → Result (List ℕ)
  benchmark calls = do
    m ← bench_manifest p
    calibrated ← measure m (p.urandom calls 32) (calls + 1) calibration
    overheads m (p.urandom calls 32) calibrated.1 cases
