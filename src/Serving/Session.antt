-- ===== src/Serving/Session.antt =====
-- Conversations of the client of examples/serving_adapter.py with its endpoint.
use sce.Base.{
  ℕ, ◌+◌, ◌≤◌, ◌≡◌, refl, sym, ap, ◌∙◌, Option, some, none, List, [], ◌∷◌, ◌++◌, append_assoc,
  append-nil,
}
use sce.Error.{ok}
use sce.Value.{Bytes, Text}
use sce.Utf8.Decode.{IsText}
use sce.Library.{Primitives, Documented}
use sce.Library.Octets.{Octets}
use sce.Seal.Returns.{aad_len}
use sce.Serving.{MockInferenceServer, replied, resumed, resume, chat}
use sce.Serving.Client.{Client, user, assistant, take_reply, after_chat, say, talk}
use sce.Serving.Transcript.{Stands, no_history, reply_to, after_turn, replies, after_turns}
use sce.Serving.Turn.{IsServer, IsSealable, Carries, resume-Carries, answer-Stands}

-- What a client records of messages and their replies.
abbrev pub exchanged : List Text → List Text → List (Text × Text)
exchanged [] rs = []
exchanged (m ∷ ms) [] = []
exchanged (m ∷ ms) (r ∷ rs) = (user, m) ∷ (assistant, r) ∷ exchanged ms rs

module _ (p : Primitives) where
  -- The client holds a transcript for the endpoint.
  pub data InSession (server : MockInferenceServer) : Text → Client → Type 0 where
    opening :
        (transcript : List (Text × Text))
        → InSession server [] (record { continuation = none; transcript = transcript })
    carrying :
        (history k : Text) (transcript : List (Text × Text))
        → Carries p server history k
        → InSession server history (record { continuation = some k; transcript = transcript })

  -- A client in session on a transcript carries it.
  pub InSession-carrying :
      (server : MockInferenceServer) {c : ℕ} {history : Text} {client : Client}
      {transcript : List (Text × Text)}
      → InSession server (c ∷ history) client
      → client.transcript ≡ transcript
      → (k : Text) × Carries p server (c ∷ history) k
        × (client ≡ record { continuation = some k; transcript = transcript })
  InSession-carrying server (carrying history k t z) h =
      (k, z, ap (λ l. record { continuation = some k; transcript = l }) h)

  resume-InSession :
      (server : MockInferenceServer) {history : Text} {client : Client}
      → InSession server history client
      → (prior : Bytes) × (resume p server client.continuation ≡ ok (some prior))
        × Stands history prior
  unfolding resume resumed
  resume-InSession server (opening t) = ([], refl, no_history)
  resume-InSession server (carrying history k t c) =
      (c.state, rw (resume-Carries p server server history k c, c.opens) refl, c.stands)

  -- A message that is answered, and the rest of the conversation.
  talk-step :
      (server : MockInferenceServer) (calls : ℕ) (client : Client) (m : Text) (ms : List Text)
      {next final : Client} {reply : Text} {n after : ℕ} {out : List Text}
      → say p server calls client m ≡ (next, ok (reply, n))
      → talk p server n next ms ≡ (final, ok (out, after))
      → talk p server calls client (m ∷ ms) ≡ (final, ok (reply ∷ out, after))
  unfolding talk
  talk-step server calls client m ms h k = cc

  -- Every transcript of a conversation can be sealed.
  abbrev pub AllSealable : Text → List Text → Type 0
  AllSealable history [] = Unit
  AllSealable history (m ∷ ms) =
      IsText m × IsSealable p (after_turn history m) × AllSealable (after_turn history m) ms

  module _ (d : Documented p) (o : Octets p) (room : aad_len ≤ p.max_text)
      (server : MockInferenceServer) (v : IsServer p server) where
    -- A message to the endpoint.
    pub chat-Stands :
        (calls : ℕ) (history message : Text) (continuation : Option Text) {prior : Bytes}
        → resume p server continuation ≡ ok (some prior)
        → Stands history prior
        → IsText message
        → IsSealable p (after_turn history message)
        → (k : Text) × (chat p server calls
              (record { message = message; continuation = continuation })
            ≡ ok (replied (reply_to history message) k, calls + 2))
          × Carries p server (after_turn history message) k
    unfolding chat
    chat-Stands calls history message continuation {prior} e z hm y =
        rw e (answer-Stands p d o room server calls history message prior v z hm y)

    pub say-InSession :
        (calls : ℕ) (history message : Text) (client : Client)
        → InSession server history client
        → IsText message
        → IsSealable p (after_turn history message)
        → (next : Client) × (say p server calls client message
            ≡ (next, ok (reply_to history message, calls + 2)))
          × InSession server (after_turn history message) next
          × (next.transcript
              ≡ client.transcript ++ exchanged (message ∷ []) (reply_to history message ∷ []))
    unfolding say after_chat take_reply
    say-InSession calls history message client s hm y =
        let (prior, e, z) = resume-InSession server s in
        let (k, run, c) = chat-Stands calls history message client.continuation e z hm y in
        (
          record {
            continuation = some k;
            transcript =
                (client.transcript ++ (user, message) ∷ [])
                ++ (assistant, reply_to history message) ∷ [];
          },
          rw run refl,
          carrying (after_turn history message) k _ c,
          append_assoc client.transcript _ _,
        )

    -- A client in session with an endpoint, whatever transcript it holds, that says messages whose
    -- turns can all be sealed, gets the replies of the conversation on from that transcript, is in
    -- session with the transcript after it, and has recorded each message and its reply, with
    -- primitives as documented that return bytes and take the associated data.
    pub talk-InSession :
        (messages : List Text) (calls : ℕ) (history : Text) (client : Client)
        → InSession server history client
        → AllSealable history messages
        → (next : Client) × (after : ℕ) × (talk p server calls client messages
            ≡ (next, ok (replies history messages, after)))
          × InSession server (after_turns history messages) next
          × (next.transcript ≡ client.transcript ++ exchanged messages (replies history messages))
    unfolding talk replies after_turns
    talk-InSession [] calls history client s h =
        (client, calls, refl, s, sym (append-nil client.transcript))
    talk-InSession (m ∷ ms) calls history client s (hm, y, rest) =
        let (next, run, s', e) = say-InSession calls history m client s hm y in
        let (final, after, run', s'', e') =
          talk-InSession ms (calls + 2) (after_turn history m) next s' rest in
        (
          final,
          after,
          talk-step server calls client m ms run run',
          s'',
          e'
              ∙ ap (λ l. l ++ exchanged ms (replies (after_turn history m) ms)) e
              ∙ append_assoc client.transcript _ _,
        )
