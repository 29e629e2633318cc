-- ===== src/Serving/Client.antt =====
-- The client of examples/serving_adapter.py.
use sce.Base.{ℕ, Option, none, some, List, [], ◌∷◌, ◌++◌, map, codes, take, list_eq, if◌then◌else◌}
use sce.Error.{Result, ok, raise, ◌>>=◌, key_error}
use sce.Value.{Text}
use sce.Texts.{join_with}
use sce.Library.{Primitives}
use sce.Serving.{
  MockInferenceServer, Response, replied, error, state_epoch_mismatch, chat, new_server,
  update_model, service_discovery,
}

-- The sealed continuation, and the transcript of roles and messages.
pub record Client : Type 0 where
  pub continuation : Option Text
  pub transcript : List (Text × Text)

-- `__init__`
abbrev pub new_client : Client
new_client = record { continuation = none; transcript = [] }

abbrev pub user : Text
user = codes "user"

abbrev pub assistant : Text
assistant = codes "assistant"

-- `" | ".join(f"{r}:{m}" for r, m in self.transcript)`
unfoldable pub replay : List (Text × Text) → Text
replay transcript =
    join_with (codes " | ") (map (λ (e : Text × Text). e.0 ++ (codes ":" ++ e.1)) transcript)

-- `self.transcript.append(…)`
abbrev pub append : Client → Text → Text → Client
append client role message = record client {
  transcript = client.transcript ++ (role, message) ∷ [];
}

-- The end of `say`: what it leaves of the client, and what it returns or raises.
unfoldable pub take_reply : Client → Result (Response × ℕ) → Client × Result (Text × ℕ)
take_reply client (ok (replied reply continuation, calls)) =
    (append (record client { continuation = some continuation }) assistant reply, ok (reply, calls))
take_reply client (ok (error code, calls)) = (client, raise key_error)
take_reply client (raise e) = (client, raise e)

module _ (p : Primitives) (server : MockInferenceServer) where
  -- The rebuild after a refusal: the transcript is replayed in one turn.
  unfoldable pub rebuild_session : ℕ → Client → Client × Result (Text × ℕ)
  rebuild_session calls client =
      let fresh = record client { continuation = none } in
      take_reply fresh
        (chat p server calls (record { message = replay client.transcript; continuation = none }))

  -- `if resp.get("error") == "state_epoch_mismatch"`
  unfoldable pub after_chat : Client → Result (Response × ℕ) → Client × Result (Text × ℕ)
  after_chat client (ok (error code, calls)) =
      if list_eq code state_epoch_mismatch
      then rebuild_session calls client
      else (client, raise key_error)
  after_chat client (ok (replied reply continuation, calls)) =
      take_reply client (ok (replied reply continuation, calls))
  after_chat client (raise e) = (client, raise e)

  -- `say`
  unfoldable pub say : ℕ → Client → Text → Client × Result (Text × ℕ)
  say calls client message =
      let heard = append client user message in
      after_chat heard
        (chat p server calls (record { message = message; continuation = client.continuation }))

  -- The loop of `main` over the messages of a user, with the replies that it prints; an exception
  -- ends it.
  unfoldable pub talk : ℕ → Client → List Text → Client × Result (List Text × ℕ)
  talk calls client [] = (client, ok ([], calls))
  talk calls client (m ∷ ms) =
      let (next, said) = say calls client m in
      elim said [
        | raise e ↦ (next, raise e)
        | ok (reply, n) ↦
            let (final, rest) = talk n next ms in (final, rest >>= λ out. ok (reply ∷ out.0, out.1))
      ]

-- The messages of `main`, before the update and after it.
abbrev pub first_messages : List Text
first_messages = codes "Hello" ∷ codes "What did I just say?" ∷ codes "And before that?" ∷ []

abbrev pub last_message : Text
last_message = codes "Continue please"

-- What `main` prints of the endpoint and of the client: the identity that is discovered and the
-- replies, before the update and after it.
pub record Conversation : Type 0 where
  pub discovered : Text
  pub said : List Text
  pub rediscovered : Text
  pub last : Text

-- `main`; the client holds the endpoint itself, so that it talks to the updated one at the end.
unfoldable pub converse : Primitives → ℕ → Result Conversation
converse p calls = do
  started ← new_server p calls
  let (client, talked) = talk p started.0 started.1 new_client first_messages
  first ← talked
  updated ← update_model p started.0
  second ← (say p updated first.1 client last_message).1
  ok (record {
    discovered = take 16 (service_discovery started.0);
    said = first.0;
    rediscovered = take 16 (service_discovery updated);
    last = second.0;
  })
