-- ===== src/Tests/Cases.antt =====
-- Runs of the cases of bench/timing_check.py and of examples/demo.py.
use sce.Base.{◌⊎◌, ◌≡◌, refl, true, false, [], ◌∷◌, arith, replicate, codes, list_eq}
use sce.Error.{ok}
use sce.Value.{ModelManifest}
use sce.Bytes.{big_endian, to_bytes, from_bytes, lp}
use sce.Utf8.{utf8}
use sce.Manifest.{
  sort_entries, require_str, str_items, require_items, enc_str, check_keys, key_entries,
  enc_entries, enc_keyed, enc_extra, canonical_bytes, freeze, new_manifest, require_manifest,
  compute_memh,
}
use sce.Keys.{
  check_epoch, kdf_canonical, require_secret, kdf_info, commit, derive_key_material, aad,
}
use sce.Envelope.{
  pack_bytes, pack_uint, pack_header, pack_ctlen, require_envelope_bytes, describe_envelope,
  explain, explain_mismatch, unpack, parse_bytes, parse,
}
use sce.Seal.{
  require_state, require_context, bounded_context, check_seal_count, seal_with, seal_state, opened,
  verdict, open_parsed, unseal_state,
}
use sce.Attack.{attempt}
use sce.Fuzz.Driver.{flip_bit, update_at}
use sce.Texts.{hex}
use sce.Demo.{manifest_for, resume_under, present, demonstrate}
use sce.Bench.Timing.Cases.{RunOpened, run_cases_refused}
use sce.Bench.Timing.{timed_manifest, tamper, open_case, run_cases}
use sce.Tests.{spread, spread-Documented, spread-Octets, spread-AsciiNormal, mix, sum}

abbrev right : ModelManifest
right = record {
  fields = record {
    weights_hash = codes "sha3:w";
    quantization = codes "bf16";
    kernel_build_id = codes "k";
    tensor_parallel = codes "tp=1,pp=1";
    numerics_mode = codes "bf16";
    extra = [];
  };
  memh = replicate 32 181;
}

abbrev wrong : ModelManifest
wrong = record {
  fields = record {
    weights_hash = codes "sha3:w-DIFFERENT";
    quantization = codes "bf16";
    kernel_build_id = codes "k";
    tensor_parallel = codes "tp=1,pp=1";
    numerics_mode = codes "bf16";
    extra = [];
  };
  memh = replicate 32 131;
}

right_run : timed_manifest spread (codes "sha3:w") ≡ ok right
unfolding timed_manifest new_manifest require_str require_items str_items freeze check_keys
    canonical_bytes enc_str utf8 to_bytes big_endian enc_extra key_entries enc_keyed sort_entries
    enc_entries sum
right_run = refl

wrong_run : timed_manifest spread (codes "sha3:w-DIFFERENT") ≡ ok wrong
unfolding timed_manifest new_manifest require_str require_items str_items freeze check_keys
    canonical_bytes enc_str utf8 to_bytes big_endian enc_extra key_entries enc_keyed sort_entries
    enc_entries sum
wrong_run = refl

tamper_run : tamper (codes "SCE4") ≡ codes "SCE5"
unfolding tamper update_at flip_bit
tamper_run = refl

refused_run : run_cases spread 1 ≡ ok (false ∷ false ∷ false ∷ [])
unfolding run_cases timed_manifest new_manifest require_str require_items str_items freeze
    check_keys canonical_bytes enc_str utf8 to_bytes big_endian enc_extra key_entries enc_keyed
    sort_entries enc_entries sum mix seal_state seal_with require_manifest require_state
    bounded_context require_context check_seal_count check_epoch derive_key_material require_secret
    kdf_info kdf_canonical lp commit aad pack_header pack_bytes pack_uint pack_ctlen unseal_state
    parse require_envelope_bytes parse_bytes unpack from_bytes list_eq open_parsed opened verdict
    attempt open_case tamper flip_bit update_at
refused_run = refl

run_cases_refused_example :
    (run_cases spread 1 ≡ ok (false ∷ false ∷ false ∷ [])) ⊎ RunOpened spread right wrong 1
run_cases_refused_example =
    run_cases_refused spread spread-Documented spread-Octets spread-AsciiNormal (omega arith) 1
      right_run wrong_run

-- The demonstration of examples/demo.py, run in full.
demo_run : demonstrate spread (codes "tensor") 0 ≡ ok (record { identical = true; resumed = false })
unfolding demonstrate manifest_for resume_under present describe_envelope explain explain_mismatch
    compute_memh hex new_manifest require_str require_items str_items freeze check_keys
    canonical_bytes enc_str utf8 to_bytes big_endian enc_extra key_entries enc_keyed sort_entries
    enc_entries sum mix seal_state seal_with require_manifest require_state bounded_context
    require_context check_seal_count check_epoch derive_key_material require_secret kdf_info
    kdf_canonical lp commit aad pack_header pack_bytes pack_uint pack_ctlen unseal_state parse
    require_envelope_bytes parse_bytes unpack from_bytes list_eq open_parsed opened verdict
demo_run = refl
