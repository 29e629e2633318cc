-- ===== src/Tests/Fuzz.antt =====
-- Runs of the fuzz target of fuzz/fuzz_envelope.py.
use native.Mathlib.Nat.{mod-lt}
use sce.Base.{some, ℕ, ◌+◌, ◌*◌, ◌%◌, ◌^◌, ◌≡◌, refl, [], ◌∷◌, arith, replicate, codes}
use sce.Error.{ok}
use sce.Value.{pos, Bytes, ModelManifest}
use sce.Bytes.{to_bytes, big_endian}
use sce.Utf8.{utf8}
use sce.Manifest.{
  sort_entries, require_str, str_items, require_items, enc_str, check_keys, key_entries,
  enc_entries, enc_keyed, enc_extra, canonical_bytes, freeze, new_manifest,
}
use sce.Library.Random.{Random, RandomLaws}
use sce.Fuzz.{target_manifest}
use sce.Texts.{hex_value, first_digit, from_hex}
use sce.Fuzz.Corpus.{
  document, CorpusFile, read_seeds, load_corpus, record_finding, load_corpus-record_finding,
}
use sce.Fuzz.Driver.{flip_bit, swap_at, generate, main}
use sce.Fuzz.Generated.{Small, generate-Small}
use sce.Fuzz.Main.{main-passes}
use sce.Tests.{toy, toy-Documented, toy-Octets, sum}

abbrev pub target : ModelManifest
target = record {
  fields = record {
    weights_hash = codes "sha3:aaaa1111";
    quantization = codes "bf16";
    kernel_build_id = codes "vllm-0.6.3+abc123";
    tensor_parallel = codes "tp=1,pp=1";
    numerics_mode = codes "bf16";
    extra = [];
  };
  memh = replicate 32 246;
}

target_run : target_manifest toy ≡ ok target
unfolding target_manifest new_manifest require_str require_items str_items freeze check_keys
    canonical_bytes enc_str utf8 to_bytes big_endian enc_extra key_entries enc_keyed sort_entries
    enc_entries sum
target_run = refl

-- Selector 5, epoch 7, context "abcd", body "hello".
abbrev pub input : Bytes
input = 5 ∷ 0 ∷ 7 ∷ codes "abcdhello"

-- A generator that counts.
abbrev pub rng : Random ℕ
rng = record {
  seeded = λ seed. 3;
  below = λ n s. (s % n, s * 5 + 7);
  random = λ s. (s * 2 ^ 51 % 2 ^ 53, s + 1);
}

rng-laws : RandomLaws rng
rng-laws = record { below_lt = λ n s h. mod-lt s h }

flipped : flip_bit 4 17 ≡ 1
unfolding flip_bit
flipped = refl

swapped_places : swap_at 1 (codes "abcd") ≡ codes "acbd"
unfolding swap_at
swapped_places = refl

-- A corpus of one seed, with a space in it.
abbrev file : CorpusFile
file = document (some (codes "050007 6162636468656C6c6f" ∷ []))

file_run : load_corpus file ≡ ok (input ∷ [])
unfolding load_corpus read_seeds from_hex first_digit hex_value
file_run = refl

main-passes_example : main toy rng (pos 2) (pos 0) file 0 ≡ ok 0
main-passes_example =
    main-passes toy toy-Documented toy-Octets (omega arith) rng rng-laws (pos 2) (pos 0) file 0
      target_run file_run (omega arith)

load_corpus-record_finding_example :
    load_corpus (
      document
        (some (codes "050007 6162636468656C6c6f" ∷ (record_finding toy (codes "SCE4")).seed ∷ [])))
    ≡ ok (input ∷ codes "SCE4" ∷ [])
load_corpus-record_finding_example =
    load_corpus-record_finding toy (codes "050007 6162636468656C6c6f" ∷ []) (codes "SCE4" ∷ [])
      (omega arith) file_run

generate-Small_example : Small 200 (generate rng (codes "SCE4" ∷ []) 3).0
generate-Small_example =
    generate-Small rng rng-laws 4 200 (codes "SCE4" ∷ []) 3 (omega arith) (omega arith)
      (record { octets = omega arith; bounded = omega arith }, tt)
