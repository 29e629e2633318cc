-- ===== src/Tests/Bench.antt =====
-- Runs of examples/demo.py and of the programs of bench/.
use sce.Base.{ℕ, ◌*◌, ◌≡◌, ◌⊎◌, refl, true, false, [], arith, replicate, length-replicate, codes}
use sce.Error.{ok}
use sce.Value.{Bytes, ModelManifest}
use sce.Bytes.{to_bytes, big_endian}
use sce.Utf8.{utf8}
use sce.Texts.{hex}
use sce.Manifest.{
  sort_entries, require_str, str_items, require_items, enc_str, check_keys, key_entries,
  enc_entries, enc_keyed, enc_extra, canonical_bytes, freeze, new_manifest,
}
use sce.Demo.{weights_v1, weights_v2, manifest_for, demonstrate}
use sce.Demo.Scenario.{RunBreak, demonstrate_refused}
use sce.Bench.KvCache.{fixed_overhead, bench_manifest, benchmark}
use sce.Bench.KvCache.Overhead.{benchmark-overhead}
use sce.Tests.{spread, spread-Documented, spread-AsciiNormal, sum}

abbrev model_v1 : ModelManifest
model_v1 = record {
  fields = record {
    weights_hash = codes "sha3:a1a1a1a1a1a1a1a1";
    quantization = codes "bf16";
    kernel_build_id = codes "vllm-0.6.3+build.a1b2c3";
    tensor_parallel = codes "tp=1,pp=1";
    numerics_mode = codes "bf16";
    extra = [];
  };
  memh = replicate 32 138;
}

abbrev model_v2 : ModelManifest
model_v2 = record {
  fields = record {
    weights_hash = codes "sha3:2020202020202020";
    quantization = codes "fp8-e4m3";
    kernel_build_id = codes "vllm-0.6.3+build.a1b2c3";
    tensor_parallel = codes "tp=1,pp=1";
    numerics_mode = codes "bf16";
    extra = [];
  };
  memh = replicate 32 83;
}

run_v1 : manifest_for spread weights_v1 (codes "bf16") ≡ ok model_v1
unfolding manifest_for hex new_manifest require_str require_items str_items freeze check_keys
    canonical_bytes enc_str utf8 to_bytes big_endian enc_extra key_entries enc_keyed sort_entries
    enc_entries sum
run_v1 = refl

run_v2 : manifest_for spread weights_v2 (codes "fp8-e4m3") ≡ ok model_v2
unfolding manifest_for hex new_manifest require_str require_items str_items freeze check_keys
    canonical_bytes enc_str utf8 to_bytes big_endian enc_extra key_entries enc_keyed sort_entries
    enc_entries sum
run_v2 = refl

demonstrate_refused_example :
    (demonstrate spread (codes "tensor") 0 ≡ ok (record { identical = true; resumed = false }))
    ⊎ RunBreak spread (codes "tensor") 0 model_v1 model_v2
demonstrate_refused_example =
    demonstrate_refused spread spread-Documented spread-AsciiNormal (omega arith) (codes "tensor") 0
      (omega arith) (omega arith) run_v1 run_v2

abbrev bench_model : ModelManifest
bench_model = record {
  fields = record {
    weights_hash = codes "sha3:model-v1";
    quantization = codes "bf16";
    kernel_build_id = codes "vllm-0.6.3+abc";
    tensor_parallel = codes "tp=1,pp=1";
    numerics_mode = codes "bf16";
    extra = [];
  };
  memh = replicate 32 250;
}

bench_run : bench_manifest spread ≡ ok bench_model
unfolding bench_manifest new_manifest require_str require_items str_items freeze check_keys
    canonical_bytes enc_str utf8 to_bytes big_endian enc_extra key_entries enc_keyed sort_entries
    enc_entries sum
bench_run = refl

-- A tensor of zeros.
abbrev zeros : ℕ → Bytes
zeros n = replicate (2 * n) 0

benchmark-overhead_example : benchmark spread zeros 0 ≡ ok (replicate 6 fixed_overhead)
benchmark-overhead_example =
    benchmark-overhead spread spread-Documented zeros (λ n. length-replicate (2 * n) 0)
      (omega arith) 0 bench_run
