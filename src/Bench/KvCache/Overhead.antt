-- ===== src/Bench/KvCache/Overhead.antt =====
-- What bench/kv_cache_reality.py reports.
use sce.Base.{
  ℕ, ◌+◌, ◌-◌, ◌*◌, ◌/◌, ◌≤◌, ◌≡◌, refl, Bool, true, false, List, [], ◌∷◌, arith, All, length,
  replicate, list_eq_refl,
}
use sce.Error.{ok}
use sce.Value.{Bytes, Value, ModelManifest, int, pos, bytes, model_manifest}
use sce.Library.{Primitives, Documented}
use sce.Manifest.Construct.{IsManifest, new_manifest-IsManifest}
use sce.Seal.{require_state}
use sce.Seal.RoundTrip.{length-seal_state}
use sce.Seal.Plain.{seal_plain}
use sce.Bench.KvCache.{
  fixed_overhead, kv_cache_bytes, calibration, cases, bench_manifest, measure, overheads, benchmark,
}

-- The largest size that is measured.
abbrev pub largest : ℕ
largest = 268435456

module _ (p : Primitives) (d : Documented p) (tensor : ℕ → Bytes)
    (exact : (n : ℕ) → length (tensor n) ≡ 2 * n) (room : largest ≤ p.max_text) where
  module _ (m : ModelManifest) (vm : IsManifest p m) (master : Bytes)
      (long : 16 ≤ length master) where
    measure-overhead :
        (calls size : ℕ)
        → size ≤ largest
        → measure p tensor m master calls size ≡ ok (fixed_overhead, calls + 2)
    unfolding measure
    measure-overhead calls size small =
        let state = tensor (size / 2) in
        let fits : length state ≤ largest = omega (arith, exact (size / 2)) in
        let (sealed, run, opens) =
          seal_plain p m vm master [] long (omega arith) d (omega arith) calls state (omega arith)
            (omega arith) in
        let added : length sealed - length state ≡ fixed_overhead = omega (
          arith,
          length-seal_state p d calls (bytes state) (model_manifest m) (bytes master) (int (pos 0))
              (bytes []) Value.none {s = state} (unfold require_state in refl) run,
        ) in
        rw (run, opens, list_eq_refl state, added) refl

    -- A case that is measured fits.
    abbrev Measurable : ℕ × Bool → Type 0
    Measurable (size, true) = size ≤ largest
    Measurable (size, false) = Unit

    overheads-fixed :
        (l : List (ℕ × Bool)) (calls : ℕ)
        → All Measurable l
        → overheads p tensor m master calls l ≡ ok (replicate (length l) fixed_overhead)
    unfolding overheads
    overheads-fixed [] calls h = refl
    overheads-fixed ((size, true) ∷ l) calls h =
        rw (measure-overhead calls size h.0, overheads-fixed l (calls + 2) h.1)
    overheads-fixed ((size, false) ∷ l) calls h = rw (overheads-fixed l calls h.1)

  -- Every row of the table, measured or extrapolated, has the overhead of 85 bytes, and no assertion
  -- fails, for tensors of as many bytes as their sizes say and a cipher that takes the largest
  -- measured one, once the manifest is constructed, with primitives as documented.
  pub benchmark-overhead :
      (calls : ℕ) {m : ModelManifest}
      → bench_manifest p ≡ ok m
      → benchmark p tensor calls ≡ ok (replicate 6 fixed_overhead)
  unfolding benchmark cases kv_cache_bytes
  benchmark-overhead calls {m} h =
      let vm : IsManifest p m =
        unfold bench_manifest in (new_manifest-IsManifest p _ _ _ _ _ _ h) in
      let long : 16 ≤ length (p.urandom calls 32) = omega (arith, d.length-urandom calls 32) in
      rw (h, measure-overhead m vm (p.urandom calls 32) long (calls + 1) calibration (omega arith))
        (overheads-fixed m vm (p.urandom calls 32) long cases (calls + 1 + 2) (omega arith))
