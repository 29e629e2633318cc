-- ===== src/Serving/Update.antt =====
-- Sessions of examples/serving_adapter.py whose endpoint has changed its identity, and
-- continuations that are no envelopes.
use sce.Base.{
  ℕ, ◌+◌, ◌≤◌, ◌≡◌, arith, ◌≢◌, refl, ◌⊎◌, inl, inr, some, none, List, [], ◌∷◌, ◌++◌, ◌∙◌,
  list_eq_refl,
}
use sce.Error.{
  Result, ok, raise, Message, malformed_envelope, state_seal_mismatch, mismatch_message,
}
use sce.Value.{Bytes, Text, bytes}
use sce.Utf8.Decode.{IsText}
use sce.Base64.{b64decode}
use sce.Library.{Primitives, Documented}
use sce.Library.Octets.{Octets}
use sce.Manifest.{require_manifest}
use sce.Manifest.Environment.{SameEnvironment}
use sce.Keys.{check_epoch}
use sce.Envelope.{parse}
use sce.Envelope.Inspect.{explain_mismatch-cases}
use sce.Seal.{require_context, bounded_context, unseal_state}
use sce.Seal.Refuses.{Admitted, open_under-refuses}
use sce.Seal.Returns.{aad_len}
use sce.Seal.Binding.{Presented, KnownBreak}
use sce.Seal.Plain.{plain, plain-Admitted}
use sce.Serving.{
  MockInferenceServer, replied, error, state_epoch_mismatch, unseal, resumed, resume, answer, chat,
}
use sce.Serving.Client.{
  Client, user, assistant, replay, take_reply, rebuild_session, after_chat, say,
}
use sce.Serving.Transcript.{no_history, reply_to, after_turn}
use sce.Serving.Turn.{IsServer, IsSealable, Carries, resume-decoded, resume-Carries}
use sce.Serving.Session.{InSession, carrying, chat-Stands}

-- What an endpoint opens envelopes with.
abbrev pub presented : MockInferenceServer → Presented
presented server = plain server.manifest server.master_secret []

module _ (p : Primitives) where
  -- A caught mismatch is a refusal with no reason.
  resumed_refused :
      (server : MockInferenceServer) (sealed : Bytes) (r : Result Bytes)
      → r ≡ raise (state_seal_mismatch mismatch_message)
      → resumed p server sealed r ≡ ok none
  unfolding resumed
  resumed_refused server sealed r h = elim (explain_mismatch-cases (bytes sealed) server.manifest) [
    | inl (f, hf, e) ↦ rw (h, e)
    | inr (m, hm, e) ↦ rw (h, e)
  ]

  refused_chat :
      (server : MockInferenceServer) (calls : ℕ) (k message : Text)
      → resume p server (some k) ≡ ok none
      → chat p server calls (record { message = message; continuation = some k })
        ≡ ok (error state_epoch_mismatch, calls)
  unfolding chat answer
  refused_chat server calls k message h = rw h

  refused-Carries :
      (old server : MockInferenceServer) (history k : Text) (c : Carries p old history k)
      → unseal p server c.sealed ≡ raise (state_seal_mismatch mismatch_message)
      → resume p server (some k) ≡ ok none
  refused-Carries old server history k c h =
      resume-Carries p old server history k c ∙ resumed_refused server c.sealed _ h

  -- A refusal makes the client replay its transcript.
  say_rebuilds :
      (server : MockInferenceServer) (calls : ℕ) (k message : Text)
      (transcript : List (Text × Text)) {reply k' : Text} {after : ℕ}
      → resume p server (some k) ≡ ok none
      → chat p server calls
          (record { message = replay (transcript ++ (user, message) ∷ []); continuation = none })
        ≡ ok (replied reply k', after)
      → say p server calls (record { continuation = some k; transcript = transcript }) message ≡ (
        record {
          continuation = some k';
          transcript = (transcript ++ (user, message) ∷ []) ++ (assistant, reply) ∷ [];
        },
        ok (reply, after),
      )
  unfolding say after_chat rebuild_session take_reply
  say_rebuilds server calls k message transcript h e =
      rw (refused_chat server calls k message h, list_eq_refl state_epoch_mismatch, e)

  no_continuation : (server : MockInferenceServer) → resume p server none ≡ ok (some [])
  unfolding resume
  no_continuation server = refl

  presented-Admitted :
      (server : MockInferenceServer) → IsServer p server → Admitted p (presented server)
  presented-Admitted server v =
      plain-Admitted p server.manifest v.identity server.master_secret [] v.secret (omega arith)

  module _ (d : Documented p) (o : Octets p) (room : aad_len ≤ p.max_text) where
    -- An endpoint opens the envelopes of an endpoint with another identity only if it is the same
    -- environment or a primitive is broken.
    unseal_other :
        (old server : MockInferenceServer) (sealed : Bytes) {t : Bytes}
        → IsServer p old
        → IsServer p server
        → ¬ SameEnvironment p old.manifest.fields server.manifest.fields
        → unseal p old sealed ≡ ok t
        → (unseal p server sealed ≡ raise (state_seal_mismatch mismatch_message))
          ⊎ KnownBreak p (bytes sealed) (presented old) (presented server)
    unfolding unseal
    unseal_other old server sealed vo vs ne h =
        open_under-refuses p d (bytes sealed) (presented old) (presented server)
          (presented-Admitted old vo) (presented-Admitted server vs) (λ same. ne same.environment) h

    -- A client that carries an envelope of an endpoint says a message to an endpoint of another
    -- environment: if the replay of its transcript can be sealed, it gets the reply to the replay
    -- and is in session with the new endpoint, or a primitive is broken at what the two
    -- endpoints compute of the carried envelope, with
    -- primitives as documented that return bytes and take the associated data.
    pub say_updated :
        (old server : MockInferenceServer) (calls : ℕ) (history k message : Text)
        (transcript : List (Text × Text))
        → IsServer p old
        → IsServer p server
        → ¬ SameEnvironment p old.manifest.fields server.manifest.fields
        → (c : Carries p old history k) → IsText (replay (transcript ++ (user, message) ∷ []))
        → IsSealable p (after_turn [] (replay (transcript ++ (user, message) ∷ [])))
        → ((next : Client) × (say p server calls
                (record { continuation = some k; transcript = transcript })
                message
              ≡ (next, ok (reply_to [] (replay (transcript ++ (user, message) ∷ [])), calls + 2)))
            × InSession p server (after_turn [] (replay (transcript ++ (user, message) ∷ []))) next)
          ⊎ KnownBreak p (bytes c.sealed) (presented old) (presented server)
    say_updated old server calls history k message transcript vo vs ne c ht y =
        elim (unseal_other old server c.sealed vo vs ne c.opens) [
          | inr broken ↦ inr broken
          | inl refused ↦
              let transcript' = transcript ++ (user, message) ∷ [] in
              let (k', run, c') =
                chat-Stands p d o room server vs calls [] (replay transcript') none
                  (no_continuation server) no_history ht y in
              inl (
                record {
                  continuation = some k';
                  transcript = transcript' ++ (assistant, reply_to [] (replay transcript')) ∷ [];
                },
                say_rebuilds server calls k message transcript
                    (refused-Carries old server history k c refused) run,
                carrying (after_turn [] (replay transcript')) k' _ c',
              )
        ]

  -- A client whose continuation decodes to what the parser of envelopes refuses keeps it, whatever
  -- it says: the exception on the malformed envelope escapes the endpoint and the client.
  pub say_malformed :
      (server : MockInferenceServer) (calls : ℕ) (k message : Text)
      (transcript : List (Text × Text)) {sealed : Bytes} {m : Message}
      → k ≢ []
      → b64decode k ≡ ok sealed
      → parse (bytes sealed) ≡ raise (malformed_envelope m)
      → say p server calls (record { continuation = some k; transcript = transcript }) message ≡ (
        record { continuation = some k; transcript = transcript ++ (user, message) ∷ [] },
        raise (malformed_envelope m),
      )
  unfolding say after_chat chat resumed unseal unseal_state require_manifest bounded_context
      require_context check_epoch
  say_malformed server calls k message transcript ne h e = rw (resume-decoded p server k ne h, e)
