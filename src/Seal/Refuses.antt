-- ===== src/Seal/Refuses.antt =====
-- Envelopes of sce/core.py presented with what they were not sealed under.
use sce.Base.{ℕ, ◌≡◌, ◌⊎◌, inl, inr}
use sce.Error.{ok, raise, state_seal_mismatch, mismatch_message}
use sce.Value.{Bytes, Value, model_manifest}
use sce.Library.{Primitives, Documented}
use sce.Manifest.Construct.{IsManifest}
use sce.Keys.{check_epoch, require_secret}
use sce.Seal.{bounded_context}
use sce.Seal.Open.{unseal_state-Unsealed}
use sce.Seal.Uniform.{unseal_state-Uniform}
use sce.Seal.Binding.{Presented, SamePresented, KnownBreak, open_under, unseal_state-binds}

-- Arguments that pass the checks of `unseal_state`, with a constructed manifest.
pub record Admitted (p : Primitives) (a : Presented) : Type 0 where
  pub secret : Bytes
  pub epoch : ℕ
  pub context : Bytes
  pub constructed : IsManifest p a.manifest
  pub is_secret : require_secret a.secret ≡ ok secret
  pub is_epoch : check_epoch a.epoch ≡ ok epoch
  pub is_context : bounded_context a.context ≡ ok context

-- An envelope that opens under one manifest, secret, epoch and context and is presented with
-- another, all passing their checks, is refused with the one message, whatever differs, or a
-- primitive is broken at inputs that the two opens compute, the envelope's salt among them, with primitives as documented.
pub open_under-refuses :
    (p : Primitives)
    → Documented p
    → (sealed : Value) (a b : Presented) {t : Bytes} → Admitted p a
    → Admitted p b
    → ¬ SamePresented p a b
    → open_under p sealed a ≡ ok t
    → (open_under p sealed b ≡ raise (state_seal_mismatch mismatch_message))
      ⊎ KnownBreak p sealed a b
open_under-refuses p d sealed a b va vb ne h =
    let x =
      unseal_state-Unsealed p sealed (model_manifest a.manifest) a.secret a.epoch a.context h in
    elim (unseal_state-Uniform p d sealed b.secret b.epoch b.context b.manifest {f = x.f}
      {c = vb.context} {k = vb.secret} {e = vb.epoch} vb.constructed x.parsed vb.is_context
      vb.is_epoch vb.is_secret) [
        | inr refused ↦ inl refused
        | inl (u, k) ↦ elim (unseal_state-binds p sealed a b va.constructed vb.constructed h k) [
          | inl (same, _) ↦ absurd (ne same)
          | inr broken ↦ inr broken
        ]
      ]
