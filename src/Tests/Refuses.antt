-- ===== src/Tests/Refuses.antt =====
-- Refused and accepted envelopes of sce/core.py.
use sce.Base.{◌≡◌, ◌⊎◌, refl, [], arith, replicate, codes}
use sce.Error.{raise, state_seal_mismatch, mismatch_message, ok, ok-injective}
use sce.Value.{Value, int, pos, bytes}
use sce.Keys.{check_epoch, require_secret}
use sce.Seal.{require_state, require_context, bounded_context}
use sce.Tests.{toy, toy-Documented}
use sce.Tests.Seal.{secret, in_order, swapped, under, sealed, seal_run, open_run}
use sce.Tests.Manifest.{valid_in_order, valid_swapped}
use sce.Seal.Authentic.{Forgery, unseal_state-authentic}
use sce.Seal.Refuses.{Admitted, open_under-refuses}
use sce.Seal.Binding.{Presented, SamePresented, KnownBreak, open_under}

-- Another secret, and an empty context.
abbrev elsewhere : Presented
elsewhere = record {
  manifest = swapped;
  secret = bytes (replicate 16 8);
  epoch = int (pos 7);
  context = bytes [];
}

valid_under : Admitted toy (under in_order)
unfolding require_secret check_epoch bounded_context require_context
valid_under = record {
  secret = replicate 16 7;
  epoch = 7;
  context = codes "ctx";
  constructed = valid_in_order;
  is_secret = refl;
  is_epoch = refl;
  is_context = refl;
}

valid_elsewhere : Admitted toy elsewhere
unfolding require_secret check_epoch bounded_context require_context
valid_elsewhere = record {
  secret = replicate 16 8;
  epoch = 7;
  context = [];
  constructed = valid_swapped;
  is_secret = refl;
  is_epoch = refl;
  is_context = refl;
}

differ : ¬ SamePresented toy (under in_order) elsewhere
unfolding bounded_context require_context
differ same = ground (arith, ok-injective same.context)

open_under-refuses_example :
    (open_under toy (bytes sealed) elsewhere ≡ raise (state_seal_mismatch mismatch_message))
    ⊎ KnownBreak toy (bytes sealed) (under in_order) elsewhere
open_under-refuses_example =
    open_under-refuses toy toy-Documented (bytes sealed) (under in_order) elsewhere valid_under
      valid_elsewhere differ (open_run in_order refl)

unseal_state-authentic_example :
    ((sealed ≡ sealed) × (require_state (bytes (codes "hi")) ≡ ok (codes "hi")))
    ⊎ Forgery toy in_order.memh secret 7 (codes "ctx") sealed sealed
unseal_state-authentic_example =
    unseal_state-authentic toy toy-Documented 0 (bytes (codes "hi")) secret (int (pos 7))
      (bytes (codes "ctx")) Value.none in_order sealed sealed {c = codes "ctx"} {e = 7}
      (unfold bounded_context require_context in refl) (unfold check_epoch in refl) (omega arith)
      seal_run (open_run in_order refl)
