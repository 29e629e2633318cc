-- ===== src/Tests/Regression.antt =====
-- A run of the fuzz target of fuzz/fuzz_envelope.py on primitives that break their documentation.
use sce.Base.{some, ◌≡◌, refl, [], ◌∷◌, arith}
use sce.Error.{ok, raise, value_error}
use sce.Value.{pos}
use sce.Library.{Primitives}
use sce.Bytes.{big_endian, to_bytes, from_bytes, lp}
use sce.Utf8.{utf8}
use sce.Manifest.{
  sort_entries, require_str, str_items, require_items, enc_str, check_keys, key_entries,
  enc_entries, enc_keyed, enc_extra, canonical_bytes, freeze, new_manifest, require_manifest,
}
use sce.Keys.{
  check_epoch, kdf_canonical, require_secret, kdf_info, commit, derive_key_material, aad,
}
use sce.Envelope.{pack_bytes, pack_uint, pack_header}
use sce.Seal.{
  require_state, require_context, bounded_context, check_seal_count, seal_with, seal_state,
}
use sce.Fuzz.{target_manifest, escaped, test_one_input, call_entry_point, seal_and_unseal, outcome}
use sce.Fuzz.Corpus.{document, read_seeds, load_corpus, record_finding}
use sce.Fuzz.Driver.{replay_corpus, main}
use sce.Fuzz.Regression.{main-record_finding}
use sce.Tests.{toy, sum}
use sce.Tests.Fuzz.{target, input, rng}

-- A cipher that refuses every text.
abbrev refusing : Primitives
refusing = record toy { encrypt = λ key nonce text aad. raise value_error }

manifest_run : target_manifest refusing ≡ ok target
unfolding target_manifest new_manifest require_str require_items str_items freeze check_keys
    canonical_bytes enc_str utf8 to_bytes big_endian enc_extra key_entries enc_keyed sort_entries
    enc_entries sum
manifest_run = refl

fails : test_one_input refusing target 0 input ≡ escaped 5 value_error
unfolding test_one_input call_entry_point seal_and_unseal outcome from_bytes seal_state seal_with
    require_manifest require_state bounded_context require_context check_seal_count check_epoch
    derive_key_material require_secret kdf_info kdf_canonical lp to_bytes big_endian commit aad
    pack_header pack_bytes pack_uint sum
fails = refl

main-record_finding_example :
    main refusing rng
      (pos 2)
      (pos 0)
      (document (some ((record_finding refusing input).seed ∷ [])))
      0
    ≡ ok 1
main-record_finding_example =
    main-record_finding refusing rng (pos 2) (pos 0) [] input 0 {corpus = []} {n = 0} manifest_run
      (unfold load_corpus read_seeds in refl) (unfold replay_corpus in refl) (omega arith)
      (λ e. ground (arith, fails))
