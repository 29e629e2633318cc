-- ===== src/Serving/Transcript.antt =====
-- The transcript of the mock model of examples/serving_adapter.py, apart from its sealing.
use sce.Base.{◌≡◌, refl, [], ◌∷◌, List, arith, length, All-append, codes}
use sce.Error.{ok}
use sce.Value.{Bytes, Text}
use sce.Utf8.{utf8}
use sce.Utf8.Decode.{IsText, ready, utf8_decode, utf8_decode-utf8}
use sce.Texts.{count, decimal}
use sce.Texts.Decimal.{digits-All}
use sce.Serving.{add_message, model_reply, add_reply, read_history, run_model}

-- The abstract conversation: what a message makes of a transcript, and the reply.
abbrev pub heard : Text → Text → Text
heard history message = add_message history message

abbrev pub reply_to : Text → Text → Text
reply_to history message = model_reply (heard history message)

abbrev pub after_turn : Text → Text → Text
after_turn history message = add_reply (heard history message) (reply_to history message)

add_message-IsText : (h m : Text) → IsText h → IsText m → IsText (add_message h m)
unfolding add_message
add_message-IsText [] m hh hm = All-append _ (codes "user:") m (omega arith) hm
add_message-IsText (c ∷ h) m hh hm =
    All-append _ (c ∷ h) _ hh (omega arith, All-append _ (codes "user:") m (omega arith) hm)

model_reply-IsText : (h : Text) → IsText (model_reply h)
unfolding model_reply
model_reply-IsText h = All-append _ (codes "(model reply on turn ") _ (omega arith) (
    All-append _ (decimal (count (codes "user:") h)) _ (digits-All 0x110000 _ _ (omega arith)) (
      All-append _ (codes "; I have ") _ (omega arith) (
        All-append _ (decimal (length h)) _ (digits-All 0x110000 _ _ (omega arith)) (omega arith))))

add_reply-IsText : (h r : Text) → IsText h → IsText r → IsText (add_reply h r)
unfolding add_reply
add_reply-IsText h r hh hr =
    All-append _ h _ hh (omega arith, All-append _ (codes "assistant:") r (omega arith) hr)

pub after_turn-IsText : (h m : Text) → IsText h → IsText m → IsText (after_turn h m)
after_turn-IsText h m hh hm =
    add_reply-IsText (heard h m) (reply_to h m) (add_message-IsText h m hh hm)
      (model_reply-IsText (heard h m))

read_history-decode : (s : Bytes) → read_history s ≡ utf8_decode ready s
unfolding read_history utf8_decode
read_history-decode [] = refl
read_history-decode (b ∷ bs) = refl

-- A prior state stands for a transcript.
pub record Stands (history : Text) (state : Bytes) : Type 0 where
  pub valid : IsText history
  pub encodes : utf8 history ≡ ok state

pub no_history : Stands [] []
unfolding utf8
no_history = record { valid = tt; encodes = refl }

-- The mock model goes on with the transcript that its prior state stands for.
pub run_model-Stands :
    (history message : Text) (state : Bytes) {b : Bytes}
    → Stands history state
    → utf8 (after_turn history message) ≡ ok b
    → run_model message state ≡ ok (reply_to history message, b)
unfolding run_model
run_model-Stands history message state z e =
    rw (read_history-decode state, utf8_decode-utf8 history z.valid z.encodes, e)

-- The replies of a conversation, and the transcript after it.
unfoldable pub replies : Text → List Text → List Text
replies history [] = []
replies history (m ∷ ms) = reply_to history m ∷ replies (after_turn history m) ms

unfoldable pub after_turns : Text → List Text → Text
after_turns history [] = history
after_turns history (m ∷ ms) = after_turns (after_turn history m) ms
