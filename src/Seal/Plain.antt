-- ===== src/Seal/Plain.antt =====
-- Calls of `seal_state` and `unseal_state` of sce/core.py as the examples make them: a secret and a
-- context of bytes, epoch 0 and no count.
use sce.Base.{ℕ, ◌+◌, ◌≤◌, ◌≡◌, refl, length, le→ltb}
use sce.Error.{Result, ok, ◌>>=◌}
use sce.Value.{Bytes, Value, ModelManifest, int, pos, bytes, model_manifest}
use sce.Bytes.{max_lp_field}
use sce.Library.{Primitives, Documented}
use sce.Manifest.Construct.{IsManifest}
use sce.Keys.{check_epoch}
use sce.Keys.Derive.{require_secret-long}
use sce.Envelope.{Description, parse, describe_envelope}
use sce.Seal.{
  max_state, require_state, require_context, bounded_context, check_seal_count, seal_state,
}
use sce.Seal.Open.{unseal_state-Unsealed}
use sce.Seal.Returns.{aad_len, seal_state-returns}
use sce.Seal.RoundTrip.{unseal_state-seal_state}
use sce.Seal.Refuses.{Admitted}
use sce.Seal.Binding.{Presented, open_under}

-- What such an envelope is presented with.
abbrev pub plain : ModelManifest → Bytes → Bytes → Presented
plain m master context = record {
  manifest = m;
  secret = bytes master;
  epoch = int (pos 0);
  context = bytes context;
}

pub bounded_context-bytes : (c : Bytes) → length c ≤ max_lp_field → bounded_context (bytes c) ≡ ok c
unfolding bounded_context require_context
bounded_context-bytes c h = rw (le→ltb max_lp_field (length c) h)

module _ (p : Primitives) (m : ModelManifest) (vm : IsManifest p m) (master context : Bytes)
    (long : 16 ≤ length master) (short : length context ≤ max_lp_field) where
  pub plain-Admitted : Admitted p (plain m master context)
  plain-Admitted = record {
    secret = master;
    epoch = 0;
    context = context;
    constructed = vm;
    is_secret = require_secret-long master long;
    is_epoch = unfold check_epoch in refl;
    is_context = bounded_context-bytes context short;
  }

  -- A state that fits is sealed, and the envelope opens.
  pub seal_plain :
      Documented p
      → aad_len ≤ p.max_text
      → (calls : ℕ) (state : Bytes) → length state ≤ max_state
      → length state ≤ p.max_text
      → (sealed : Bytes) × (seal_state p calls
            (bytes state)
            (model_manifest m)
            (bytes master)
            (int (pos 0))
            (bytes context)
            Value.none
          ≡ ok (sealed, calls + 2))
        × (open_under p (bytes sealed) (plain m master context) ≡ ok state)
  seal_plain d room calls state small fits =
      let (sealed, run) =
        seal_state-returns p d room calls (bytes state) (bytes master) (int (pos 0)) (bytes context)
          Value.none m {s = state} {c = context} {k = master} {e = 0} vm
          (unfold require_state in refl) small fits (bounded_context-bytes context short)
          (unfold check_seal_count in refl) (unfold check_epoch in refl)
          (require_secret-long master long) in
      (
        sealed,
        run,
        unseal_state-seal_state p d calls (bytes state) (model_manifest m) (bytes master)
            (int (pos 0)) (bytes context) Value.none {s = state} (unfold require_state in refl) run,
      )

returns :
    {A B : Type 0} (r : Result A) (f : A → B) {a : A}
    → r ≡ ok a
    → (x : B) × ((r >>= λ y. ok (f y)) ≡ ok x)
returns r f {a} h = (f a, rw h)

-- An envelope that opens is described.
pub describe_envelope-opened :
    (p : Primitives) (sealed : Bytes) (a : Presented) {t : Bytes}
    → open_under p (bytes sealed) a ≡ ok t
    → (x : Description) × (describe_envelope (bytes sealed) ≡ ok x)
unfolding describe_envelope
describe_envelope-opened p sealed a h =
    returns (parse (bytes sealed)) _
      (unseal_state-Unsealed p (bytes sealed) (model_manifest a.manifest) a.secret a.epoch a.context
        h).parsed
