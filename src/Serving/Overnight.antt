-- ===== src/Serving/Overnight.antt =====
-- How `main` of examples/serving_adapter.py ends.
use sce.Base.{
  ℕ, ◌+◌, ◌≤◌, ◌≡◌, refl, sym, ◌∙◌, ap, ◌⊎◌, inl, inr, true, some, List, [], ◌∷◌, ◌++◌, ◌&&◌, arith,
  length, take, codes, leb,
}
use mathlib.Core.Path.{subst}
use sce.Error.{ok, ok-injective, >>=-eq-ok}
use sce.Value.{bytes, Text}
use sce.Utf8.Decode.{IsText}
use sce.Base64.{is_ascii}
use sce.Texts.{join_with, count_from, digits}
use sce.Library.{Primitives, Documented, AsciiNormal}
use sce.Library.Octets.{Octets}
use sce.Library.Ascii.{is_ascii-IsAscii, IsAscii-IsText, utf8-IsAscii, nfc-IsAscii-injective}
use sce.Manifest.{new_manifest}
use sce.Manifest.Environment.{SameEnvironment}
use sce.Manifest.Construct.{new_manifest-fields}
use sce.Seal.Binding.{KnownBreak}
use sce.Serving.{
  MockInferenceServer, add_message, model_reply, add_reply, new_server, update_model,
  service_discovery,
}
use sce.Serving.Client.{
  Client, user, new_client, replay, say, talk, first_messages, last_message, converse,
}
use sce.Serving.Transcript.{reply_to, after_turn, replies, after_turns}
use sce.Serving.Turn.{IsServer, Carries, IsSealable, new_server-IsServer}
use sce.Serving.Session.{
  InSession, AllSealable, opening, exchanged, InSession-carrying, talk-InSession,
}
use sce.Serving.Update.{presented, say_updated}

-- The replies before the update.
abbrev pub first_replies : List Text
first_replies =
    codes "(model reply on turn 1; I have 10 bytes of state)"
    ∷ codes "(model reply on turn 2; I have 96 bytes of state)"
    ∷ codes "(model reply on turn 3; I have 178 bytes of state)"
    ∷ []

-- What the client has recorded when the model has been updated, and the last message.
abbrev log : List (Text × Text)
log = exchanged first_messages first_replies ++ (user, last_message) ∷ []

-- The reply to the replay, which has every message of the user and its own mark to count.
abbrev pub last_reply : Text
last_reply = codes "(model reply on turn 5; I have 277 bytes of state)"

first_replies_lem : replies [] first_messages ≡ first_replies
unfolding replies add_message model_reply add_reply digits count_from
first_replies_lem = refl

last_reply_lem : reply_to [] (replay log) ≡ last_reply
unfolding add_message model_reply digits count_from replay join_with
last_reply_lem = refl

log-IsText : IsText (replay log)
unfolding is_ascii digits count_from replay join_with
log-IsText = IsAscii-IsText (replay log) (is_ascii-IsAscii (replay log) refl)

-- The transcript of the endpoint before the update is not empty.
first_history : (c : ℕ) × (h : Text) × (after_turns [] first_messages ≡ c ∷ h)
unfolding after_turns add_message add_reply
first_history = (117, _, refl)

-- A break of a primitive at what the endpoint before the update and the one after it have computed
-- of the envelope that the client carries from the first messages.
pub record CarriedBreak (p : Primitives) (server updated : MockInferenceServer) (after : ℕ)
    : Type 0 where
  pub calls : ℕ
  pub continuation : Text
  pub run : talk p server after new_client first_messages ≡ (
    record {
      continuation = some continuation;
      transcript = exchanged first_messages first_replies;
    },
    ok (first_replies, calls),
  )
  pub carried : Carries p server (after_turns [] first_messages) continuation
  pub broken : KnownBreak p (bytes carried.sealed) (presented server) (presented updated)

module _ (p : Primitives) where
  sealable :
      (t : Text) → is_ascii t && leb (length t) 512 ≡ true → 512 ≤ p.max_text → IsSealable p t
  sealable t h room =
      let (ascii, small) : (is_ascii t ≡ true) × (length t ≤ 512) = ground arith in
      record {
        state = t;
        encodes = utf8-IsAscii t (is_ascii-IsAscii t ascii);
        small = omega (arith, small);
        fits = omega (arith, small, room);
      }

  first_fits : 512 ≤ p.max_text → AllSealable p [] first_messages
  unfolding is_ascii add_message model_reply add_reply digits count_from
  first_fits room =
      let h₁ = after_turn [] (codes "Hello") in
      let h₂ = after_turn h₁ (codes "What did I just say?") in
      let h₃ = after_turn h₂ (codes "And before that?") in
      (
        omega arith,
        sealable h₁ refl room,
        (omega arith, sealable h₂ refl room, (omega arith, sealable h₃ refl room, tt)),
      )

  last_fits : 512 ≤ p.max_text → IsSealable p (after_turn [] (replay log))
  unfolding is_ascii add_message model_reply add_reply digits count_from replay join_with
  last_fits room = sealable (after_turn [] (replay log)) refl room

  -- The quantizations of the endpoint before and after its update.
  updated_differs :
      AsciiNormal p
      → (calls : ℕ) {server updated : MockInferenceServer} {after : ℕ}
      → new_server p calls ≡ ok (server, after)
      → update_model p server ≡ ok updated
      → ¬ SameEnvironment p server.manifest.fields updated.manifest.fields
  unfolding new_server update_model
  updated_differs a calls {server} {updated} h k same =
      let (m, hm, e) = >>=-eq-ok (new_manifest p _ _ _ _ _ _) _ h in
      let (n, hn, f) = >>=-eq-ok (new_manifest p _ _ _ _ _ _) _ k in
      let old : server.manifest.quantization ≡ codes "bf16" =
        ap (λ (z : MockInferenceServer × ℕ). z.0.manifest.quantization) (sym (ok-injective e))
        ∙ ap (λ x. x.quantization) (new_manifest-fields p _ _ _ _ _ hm) in
      let new : updated.manifest.quantization ≡ codes "fp8-e4m3" =
        ap (λ (z : MockInferenceServer). z.manifest.quantization) (sym (ok-injective f))
        ∙ ap (λ x. x.quantization) (new_manifest-fields p _ _ _ _ _ hn) in
      let same_text : codes "bf16" ≡ codes "fp8-e4m3" =
        nfc-IsAscii-injective a (codes "bf16") (codes "fp8-e4m3") (omega arith) (omega arith)
          (ap p.nfc (sym old) ∙ same.quantization ∙ ap p.nfc new) in
      ground (arith, same_text)

  converse_run :
      (calls : ℕ) {server updated : MockInferenceServer} {after n m : ℕ} {client next : Client}
      → new_server p calls ≡ ok (server, after)
      → talk p server after new_client first_messages ≡ (client, ok (first_replies, n))
      → update_model p server ≡ ok updated
      → say p updated n client last_message ≡ (next, ok (last_reply, m))
      → converse p calls
        ≡ ok (record {
          discovered = take 16 (service_discovery server);
          said = first_replies;
          rediscovered = take 16 (service_discovery updated);
          last = last_reply;
        })
  unfolding converse
  converse_run calls h₁ h₂ h₃ h₄ = rw (h₁, h₂, h₃, h₄) refl

  -- The client at the update: it carries the conversation, which its record holds.
  first_talk :
      Documented p
      → Octets p
      → 512 ≤ p.max_text
      → (server : MockInferenceServer) → IsServer p server
      → (calls : ℕ)
      → (after : ℕ) × (k : Text) × (talk p server calls new_client first_messages ≡ (
        record { continuation = some k; transcript = exchanged first_messages first_replies },
        ok (first_replies, after),
      ))
        × Carries p server (after_turns [] first_messages) k
  first_talk d o room server v calls =
      let (next, after, run, s, e) =
        talk-InSession p d o (omega (arith, room)) server v first_messages calls [] new_client
          (opening []) (first_fits room) in
      let (c, h, whole) = first_history in
      let (k, z, shape) =
        InSession-carrying p server (subst (λ t. InSession p server t next) whole s) e in
      (
        after,
        k,
        run
            ∙ ap (λ x. (x, ok (replies [] first_messages, after))) shape
            ∙ ap
                (λ r. (
                  record { continuation = some k; transcript = exchanged first_messages r },
                  ok (r, after),
                ))
                first_replies_lem,
        subst (λ t. Carries p server t k) (sym whole) z,
      )

  -- The conversation of `main` goes on over the update: the client gets the reply of turns 1 to 3,
  -- and then, from the updated endpoint, the reply to the replay of its record, or a primitive is
  -- broken at what the two endpoints compute of the envelope that the client carries then; once the
  -- two identities are constructed, with primitives as documented that return bytes and take 512.
  pub converse-overnight :
      Documented p
      → Octets p
      → AsciiNormal p
      → 512 ≤ p.max_text
      → (calls : ℕ) {server updated : MockInferenceServer} {after : ℕ}
      → new_server p calls ≡ ok (server, after)
      → update_model p server ≡ ok updated
      → (converse p calls
          ≡ ok (record {
            discovered = take 16 (service_discovery server);
            said = first_replies;
            rediscovered = take 16 (service_discovery updated);
            last = last_reply;
          }))
        ⊎ CarriedBreak p server updated after
  converse-overnight d o a room calls {server} {updated} {after} h k =
      let (vs, vu) = new_server-IsServer p d calls h k in
      let (n, c, run, z) = first_talk d o room server vs after in
      elim (say_updated p d o (omega (arith, room)) server updated n (after_turns [] first_messages)
        c last_message (exchanged first_messages first_replies) vs vu (updated_differs a calls h k)
        z log-IsText (last_fits room)) [
          | inr broken ↦
              inr (record { calls = n; continuation = c; run = run; carried = z; broken = broken })
          | inl (next, said, _) ↦
              inl
                (converse_run calls h run k (said ∙ ap (λ r. (next, ok (r, n + 2))) last_reply_lem))
        ]
