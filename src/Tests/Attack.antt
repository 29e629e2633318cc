-- ===== src/Tests/Attack.antt =====
-- Runs of the simulation of examples/attack_sim.py.
use sce.Base.{
  ℕ, ◌+◌, ◌%◌, ◌≡◌, ◌⊎◌, refl, [], ◌∷◌, ◌++◌, map, arith, length, take, replicate, length-take,
  length-append, length-replicate, codes,
}
use sce.Error.{ok}
use sce.Value.{Bytes, ModelManifest}
use sce.Bytes.{to_bytes, big_endian}
use sce.Bytes.Laws.{length-big_endian}
use sce.Library.{Primitives, Documented}
use sce.Utf8.{utf8}
use sce.Texts.{decimal_six, digits}
use sce.Manifest.{
  sort_entries, require_str, str_items, require_items, enc_str, check_keys, key_entries,
  enc_entries, enc_keyed, enc_extra, canonical_bytes, freeze, new_manifest,
}
use sce.Attack.{public_manifest}
use sce.Attack.Simulation.{simulate}
use sce.Attack.Simulation.Verdict.{Broken, expected, simulate-expected}
use sce.Tests.{mix, toy, toy-Documented}

-- A string of bytes, last to first, before another.
unfoldable reverse_onto : Bytes → Bytes → Bytes
reverse_onto l [] = l
reverse_onto l (b ∷ bs) = reverse_onto (b ∷ l) bs

abbrev shift : ℕ → Bytes → Bytes
shift m b = map (λ x. (x + m) % 256) b

-- The first `n` bytes, with zeros after them.
abbrev exact : ℕ → Bytes → Bytes
exact n b = take n (b ++ replicate n 0)

length-exact : (n : ℕ) (b : Bytes) → length (exact n b) ≡ n
length-exact n b = omega (
  arith,
  length-take n (b ++ replicate n 0),
  length-append b (replicate n 0),
  length-replicate {A = ℕ} n 0,
)

-- Draws that never repeat, and hashes and keys that keep the pins, the guessed secrets and the
-- contexts of the simulation apart, which those of `toy` do not.
abbrev apart : Primitives
apart = record toy {
  sha3_256 = λ b. exact 32 (shift (mix 0 b) (reverse_onto [] b));
  hkdf = λ n salt info ikm. let m = mix 0 (salt ++ info) in exact n (replicate 32 m ++ shift m ikm);
  urandom = λ i n. big_endian n i;
}

apart-Documented : Documented apart
apart-Documented = record {
  nfc_idempotent = toy-Documented.nfc_idempotent;
  length-sha3_256 = λ b. length-exact 32 (shift (mix 0 b) (reverse_onto [] b));
  length-hkdf = λ n salt info ikm.
      let m = mix 0 (salt ++ info) in length-exact n (replicate 32 m ++ shift m ikm);
  length-urandom = λ i n. length-big_endian n i;
  encrypt_returns = toy-Documented.encrypt_returns;
  length-encrypt = toy-Documented.length-encrypt;
  decrypt-encrypt = toy-Documented.decrypt-encrypt;
  decrypt_raises = toy-Documented.decrypt_raises;
}

abbrev manifest : ModelManifest
manifest = record {
  fields = record {
    weights_hash = codes "sha3:7b-instruct-v1-9f2a";
    quantization = codes "bf16";
    kernel_build_id = codes "vllm-0.6.3+build.a1b2c3";
    tensor_parallel = codes "tp=1,pp=1";
    numerics_mode = codes "bf16";
    extra = [];
  };
  memh =
      164 ∷ 164 ∷ 164 ∷ 164 ∷ 218 ∷ 213 ∷ 10 ∷ 6 ∷ 168 ∷ 164 ∷ 164 ∷ 164 ∷ 213 ∷ 225 ∷ 20 ∷ 20 ∷ 208
      ∷ 213 ∷ 225 ∷ 20 ∷ 24 ∷ 173 ∷ 164 ∷ 164 ∷ 164 ∷ 215 ∷ 7 ∷ 214 ∷ 6 ∷ 213 ∷ 5 ∷ 210 ∷ [];
}

manifest_run : public_manifest apart ≡ ok manifest
unfolding public_manifest new_manifest require_str require_items str_items freeze check_keys
    canonical_bytes enc_str utf8 to_bytes big_endian enc_extra key_entries enc_keyed sort_entries
    enc_entries mix reverse_onto
manifest_run = refl

padded : decimal_six 4096 ≡ codes "004096"
unfolding decimal_six digits
padded = refl

simulate-expected_example : (simulate apart 0 ≡ ok expected) ⊎ Broken apart manifest 0
simulate-expected_example = simulate-expected apart 0 apart-Documented (omega arith) manifest_run
