-- ===== src/Tests/Overnight.antt =====
-- A run of `main` of examples/serving_adapter.py.
use sce.Base.{◌≡◌, ◌⊎◌, arith, take, refl, list_eq}
use sce.Error.{ok}
use sce.Bytes.{big_endian, to_bytes, from_bytes, lp}
use sce.Manifest.{
  sort_entries, require_str, str_items, require_items, enc_str, check_keys, key_entries,
  enc_entries, enc_keyed, enc_extra, canonical_bytes, freeze, new_manifest, require_manifest,
}
use sce.Keys.{
  check_epoch, kdf_canonical, require_secret, kdf_info, commit, derive_key_material, aad,
}
use sce.Envelope.{
  pack_bytes, pack_uint, pack_header, pack_ctlen, require_envelope_bytes, explain, explain_mismatch,
  unpack, parse_bytes, parse,
}
use sce.Seal.{
  require_state, require_context, bounded_context, check_seal_count, seal_with, seal_state, opened,
  verdict, open_parsed, unseal_state,
}
use sce.Utf8.{utf8_char, utf8}
use sce.Utf8.Decode.{utf8_decode}
use sce.Base64.{b64encode, b64decode, decode_quads, is_ascii}
use sce.Texts.{count_from, join_with, digits, hex}
use sce.Serving.{
  new_server, update_model, chat, answer, resume, resumed, unseal, run_model, read_history,
  add_message, model_reply, add_reply, service_discovery,
}
use sce.Serving.Client.{converse, talk, say, after_chat, rebuild_session, take_reply, replay}
use sce.Serving.Overnight.{CarriedBreak, first_replies, last_reply, converse-overnight}
use sce.Tests.{sum, mix, spread, spread-Documented, spread-Octets, spread-AsciiNormal}
use sce.Tests.Serving.{server, updated, server_run, update_run}

converse-overnight_example :
    (converse spread 0
      ≡ ok (record {
        discovered = take 16 (service_discovery server);
        said = first_replies;
        rediscovered = take 16 (service_discovery updated);
        last = last_reply;
      }))
    ⊎ CarriedBreak spread server updated 1
converse-overnight_example =
    converse-overnight spread spread-Documented spread-Octets spread-AsciiNormal (omega arith) 0
      server_run update_run

-- The same conversation, run in full.
overnight_run :
    converse spread 0
    ≡ ok (record {
      discovered = take 16 (service_discovery server);
      said = first_replies;
      rediscovered = take 16 (service_discovery updated);
      last = last_reply;
    })
unfolding converse new_server update_model talk say after_chat rebuild_session take_reply replay
    chat answer resume resumed unseal run_model read_history add_message model_reply add_reply
    b64encode b64decode decode_quads is_ascii utf8_decode count_from join_with digits utf8_char
    explain explain_mismatch new_manifest require_str require_items str_items freeze check_keys
    canonical_bytes enc_str utf8 to_bytes big_endian enc_extra key_entries enc_keyed sort_entries
    enc_entries sum mix seal_state seal_with require_manifest require_state bounded_context
    require_context check_seal_count check_epoch derive_key_material require_secret kdf_info
    kdf_canonical lp commit aad pack_header pack_bytes pack_uint pack_ctlen unseal_state parse
    require_envelope_bytes parse_bytes unpack from_bytes list_eq open_parsed opened verdict
    service_discovery hex
overnight_run = refl
