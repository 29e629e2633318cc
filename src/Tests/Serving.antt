-- ===== src/Tests/Serving.antt =====
-- Runs of the adapter of examples/serving_adapter.py, and of what it takes of Python's library.
use sce.Base.{none, some, ℕ, ◌≡◌, ◌⊎◌, refl, List, [], ◌∷◌, ◌++◌, arith, replicate, codes}
use sce.Error.{ok, raise, malformed_envelope, short_header}
use sce.Value.{bytes, Bytes, Text, ModelManifest}
use sce.Bytes.{to_bytes, big_endian}
use sce.Utf8.{utf8, utf8_char}
use sce.Base64.{b64encode, b64decode}
use sce.Texts.{count, count_from, decimal, digits, join_with}
use sce.Manifest.{
  sort_entries, require_str, str_items, require_items, enc_str, check_keys, key_entries,
  enc_entries, enc_keyed, enc_extra, canonical_bytes, freeze, new_manifest,
}
use sce.Serving.{
  MockInferenceServer, replied, resume, chat, add_message, model_reply, add_reply, new_server,
  update_model,
}
use sce.Manifest.Environment.{SameEnvironment}
use sce.Envelope.{parse, parse_bytes, require_envelope_bytes}
use sce.Seal.Binding.{KnownBreak}
use sce.Serving.Client.{Client, user, new_client, say, talk, replay}
use sce.Serving.Transcript.{no_history, after_turns, replies, after_turn, reply_to}
use sce.Serving.Turn.{IsServer, IsSealable, Carries, new_server-IsServer}
use sce.Serving.Session.{InSession, exchanged, opening, chat-Stands, talk-InSession}
use sce.Serving.Update.{presented, say_updated, say_malformed}
use sce.Tests.{spread, spread-Documented, spread-Octets, sum}

-- Three bytes and one more, with the padding of a group that is not full.
encode_run : b64encode (codes "SCE4") ≡ codes "U0NFNA=="
unfolding b64encode
encode_run = refl

decode_run : b64decode (codes "U0NF\nNA==") ≡ ok (codes "SCE4")
unfolding b64decode
decode_run = refl

-- One character of each length.
abbrev text : Text
text = 0x41 ∷ 0xe9 ∷ 0x20ac ∷ 0x1f600 ∷ []

abbrev text_bytes : Bytes
text_bytes = 0x41 ∷ 0xc3 ∷ 0xa9 ∷ 0xe2 ∷ 0x82 ∷ 0xac ∷ 0xf0 ∷ 0x9f ∷ 0x98 ∷ 0x80 ∷ []

decimal_run : decimal 4096 ≡ codes "4096"
unfolding digits
decimal_run = refl

count_run : count (codes "user:") (codes "user:user: us user:") ≡ 3
unfolding count_from
count_run = refl

reply_run : reply_to [] (codes "Hello") ≡ codes "(model reply on turn 1; I have 10 bytes of state)"
unfolding add_message model_reply digits count_from
reply_run = refl

abbrev identity : ModelManifest
identity = record {
  fields = record {
    weights_hash = codes "sha3:llama-3-8b-instruct-v1";
    quantization = codes "bf16";
    kernel_build_id = codes "vllm-0.6.3+build.a1b2c3";
    tensor_parallel = codes "tp=1,pp=1";
    numerics_mode = codes "bf16";
    extra = [];
  };
  memh = replicate 32 171;
}

abbrev new_identity : ModelManifest
new_identity = record {
  fields = record {
    weights_hash = codes "sha3:llama-3-8b-instruct-v2";
    quantization = codes "fp8-e4m3";
    kernel_build_id = codes "vllm-0.6.4+build.d4e5f6";
    tensor_parallel = codes "tp=1,pp=1";
    numerics_mode = codes "bf16";
    extra = [];
  };
  memh = replicate 32 8;
}

abbrev pub server : MockInferenceServer
server = record { master_secret = replicate 32 0; manifest = identity }

abbrev pub updated : MockInferenceServer
updated = record { master_secret = replicate 32 0; manifest = new_identity }

pub server_run : new_server spread 0 ≡ ok (server, 1)
unfolding new_server new_manifest require_str require_items str_items freeze check_keys
    canonical_bytes enc_str utf8 to_bytes big_endian enc_extra key_entries enc_keyed sort_entries
    enc_entries sum
server_run = refl

pub update_run : update_model spread server ≡ ok updated
unfolding update_model new_manifest require_str require_items str_items freeze check_keys
    canonical_bytes enc_str utf8 to_bytes big_endian enc_extra key_entries enc_keyed sort_entries
    enc_entries sum
update_run = refl

both : IsServer spread server × IsServer spread updated
both = new_server-IsServer spread spread-Documented 0 server_run update_run

abbrev turn_one : Text
turn_one = codes "user:Hi\nassistant:(model reply on turn 1; I have 7 bytes of state)"

abbrev turn_two : Text
turn_two =
    turn_one ++ codes "\nuser:ok\nassistant:(model reply on turn 2; I have 74 bytes of state)"

first_fits : IsSealable spread (after_turn [] (codes "Hi"))
unfolding utf8 utf8_char add_message model_reply add_reply digits count_from
first_fits = record { state = turn_one; encodes = refl; small = omega arith; fits = omega arith }

second_fits : IsSealable spread (after_turn (after_turn [] (codes "Hi")) (codes "ok"))
unfolding utf8 utf8_char add_message model_reply add_reply digits count_from
second_fits = record { state = turn_two; encodes = refl; small = omega arith; fits = omega arith }

abbrev messages : List Text
messages = codes "Hi" ∷ codes "ok" ∷ []

talk-InSession_example :
    (next : Client) × (after : ℕ) × (talk spread server 1 new_client messages
      ≡ (next, ok (replies [] messages, after)))
    × InSession spread server (after_turns [] messages) next
    × (next.transcript ≡ exchanged messages (replies [] messages))
talk-InSession_example =
    talk-InSession spread spread-Documented spread-Octets (omega arith) server both.0 messages 1 []
      new_client (opening []) (omega arith, first_fits, (omega arith, second_fits, tt))

-- The continuation after one turn.
first_turn :
    (k : Text) × (chat spread server 1 (record { message = codes "Hi"; continuation = none })
      ≡ ok (replied (reply_to [] (codes "Hi")) k, 3))
    × Carries spread server (after_turn [] (codes "Hi")) k
first_turn =
    chat-Stands spread spread-Documented spread-Octets (omega arith) server both.0 1 [] (codes "Hi")
      none {prior = []} (unfold resume in refl) no_history (omega arith) first_fits

other_environment : ¬ SameEnvironment spread identity.fields new_identity.fields
other_environment same = ground (arith, same.quantization)

abbrev log : List (Text × Text)
log = (user, codes "Hi") ∷ []

abbrev replayed : Text
replayed = codes "user:Hi | user:ok"

replay_fits : IsSealable spread (after_turn [] (replay (log ++ (user, codes "ok") ∷ [])))
unfolding utf8 utf8_char add_message model_reply add_reply digits count_from replay join_with
replay_fits = record {
  state =
      codes "user:user:Hi | user:ok\nassistant:(model reply on turn 3; I have 22 bytes of state)";
  encodes = refl;
  small = omega arith;
  fits = omega arith;
}

say_updated_example :
    ((next : Client) × (say spread updated 3
          (record { continuation = some first_turn.0; transcript = log })
          (codes "ok")
        ≡ (next, ok (reply_to [] (replay (log ++ (user, codes "ok") ∷ [])), 5)))
      × InSession spread updated (after_turn [] (replay (log ++ (user, codes "ok") ∷ []))) next)
    ⊎ KnownBreak spread (bytes first_turn.2.sealed) (presented server) (presented updated)
say_updated_example =
    say_updated spread spread-Documented spread-Octets (omega arith) server updated 3
      (after_turn [] (codes "Hi")) first_turn.0 (codes "ok") log both.0 both.1 other_environment
      first_turn.2 (unfold replay join_with in (omega arith)) replay_fits

say_malformed_example :
    say spread server 1
      (record { continuation = some (codes "U0NFNA=="); transcript = [] })
      (codes "Hi")
    ≡ (
      record { continuation = some (codes "U0NFNA=="); transcript = (user, codes "Hi") ∷ [] },
      raise (malformed_envelope short_header),
    )
say_malformed_example =
    say_malformed spread server 1 (codes "U0NFNA==") (codes "Hi") [] {sealed = codes "SCE4"}
      (ground arith) (unfold b64decode in refl)
      (unfold parse require_envelope_bytes parse_bytes in refl)
