-- ===== src/Serving/Turn.antt =====
-- A turn of the endpoint of examples/serving_adapter.py.
use sce.Base.{ap, ℕ, ◌+◌, ◌≤◌, ◌<◌, ◌≡◌, ◌≢◌, refl, some, [], ◌∷◌, arith, length}
use mathlib.Core.Path.{subst}
use sce.Error.{>>=-eq-ok, ok-injective, ok}
use sce.Value.{Bytes, Text, Value, int, pos, bytes, model_manifest}
use sce.Bytes.{IsBytes}
use sce.Utf8.{utf8}
use sce.Utf8.Decode.{IsText, utf8-IsBytes}
use sce.Base64.{b64encode, b64decode}
use sce.Base64.RoundTrip.{b64decode-b64encode, b64encode-ne-nil}
use sce.Library.{Primitives, Documented}
use sce.Library.Octets.{Octets}
use sce.Manifest.{new_manifest}
use sce.Manifest.Construct.{IsManifest, new_manifest-IsManifest}
use sce.Keys.{check_epoch}
use sce.Keys.Derive.{require_secret-long}
use sce.Seal.{max_state, require_state, require_context, bounded_context, check_seal_count}
use sce.Seal.Returns.{aad_len, seal_state-returns}
use sce.Seal.RoundTrip.{unseal_state-seal_state, length-seal_state}
use sce.Seal.Octets.{seal_state-IsBytes}
use sce.Serving.Transcript.{Stands, reply_to, after_turn, after_turn-IsText, run_model-Stands}
use sce.Serving.{
  new_server, update_model, MockInferenceServer, replied, unseal, resumed, resume, answer,
}

module _ (p : Primitives) where
  -- An endpoint whose identity was constructed and whose secret passes its check.
  pub record IsServer (server : MockInferenceServer) : Type 0 where
    pub identity : IsManifest p server.manifest
    pub secret : 16 ≤ length server.master_secret

  -- The endpoint that `__init__` returns, and the one that `update_model` makes of it, have an
  -- identity that was constructed and a secret that passes its check, with primitives as
  -- documented.
  pub new_server-IsServer :
      Documented p
      → (calls : ℕ) {server updated : MockInferenceServer} {after : ℕ}
      → new_server p calls ≡ ok (server, after)
      → update_model p server ≡ ok updated
      → IsServer server × IsServer updated
  unfolding new_server update_model
  new_server-IsServer d calls {server} {updated} h k =
      let (m, hm, e) = >>=-eq-ok (new_manifest p _ _ _ _ _ _) _ h in
      let (n, hn, f) = >>=-eq-ok (new_manifest p _ _ _ _ _ _) _ k in
      let made : record { master_secret = p.urandom calls 32; manifest = m } ≡ server =
        ap (λ (z : MockInferenceServer × ℕ). z.0) (ok-injective e) in
      let first : IsServer server = subst IsServer made (record {
        identity = new_manifest-IsManifest p _ _ _ _ _ _ hm;
        secret = omega (arith, d.length-urandom calls 32);
      }) in
      (
        first,
        subst IsServer (ok-injective f)
            (record { identity = new_manifest-IsManifest p _ _ _ _ _ _ hn; secret = first.secret }),
      )

  -- A transcript whose encoding the cipher takes.
  pub record IsSealable (history : Text) : Type 0 where
    pub state : Bytes
    pub encodes : utf8 history ≡ ok state
    pub small : length state ≤ max_state
    pub fits : length state ≤ p.max_text

  -- A continuation that carries a transcript: the base64 of an envelope that the endpoint opens to
  -- its encoding.
  pub record Carries (server : MockInferenceServer) (history continuation : Text) : Type 0 where
    pub sealed : Bytes
    pub state : Bytes
    pub text : continuation ≡ b64encode sealed
    pub octets : IsBytes sealed
    pub long : 0 < length sealed
    pub opens : unseal p server sealed ≡ ok state
    pub stands : Stands history state

  pub resume-decoded :
      (server : MockInferenceServer) (k : Text) {sealed : Bytes}
      → k ≢ []
      → b64decode k ≡ ok sealed
      → resume p server (some k) ≡ resumed p server sealed (unseal p server sealed)
  unfolding resume
  resume-decoded server [] h e = absurd (h refl)
  resume-decoded server (c ∷ cs) h e = rw e

  -- Whatever the endpoint makes of a carried envelope, it makes of the continuation.
  pub resume-Carries :
      (server other : MockInferenceServer) (history k : Text) (c : Carries server history k)
      → resume p other (some k) ≡ resumed p other c.sealed (unseal p other c.sealed)
  resume-Carries server other history k c = rw c.text (
      resume-decoded other (b64encode c.sealed) (b64encode-ne-nil c.sealed c.long)
        (b64decode-b64encode c.sealed c.octets))

  module _ (d : Documented p) (o : Octets p) (room : aad_len ≤ p.max_text) where
    -- A turn of the endpoint from a prior state.
    pub answer-Stands :
        (server : MockInferenceServer) (calls : ℕ) (history message : Text) (prior : Bytes)
        → IsServer server
        → Stands history prior
        → IsText message
        → IsSealable (after_turn history message)
        → (k : Text) × (answer p server calls message (some prior)
            ≡ ok (replied (reply_to history message) k, calls + 2))
          × Carries server (after_turn history message) k
    unfolding answer unseal
    answer-Stands server calls history message prior v z hm y =
        let (sealed, run) =
          seal_state-returns p d room calls (bytes y.state) (bytes server.master_secret)
            (int (pos 0)) (bytes []) Value.none server.manifest {s = y.state} {c = []}
            {k = server.master_secret} {e = 0} v.identity (unfold require_state in refl) y.small
            y.fits (unfold bounded_context require_context in refl)
            (unfold check_seal_count in refl) (unfold check_epoch in refl)
            (require_secret-long server.master_secret v.secret) in
        let again : unseal p server sealed ≡ ok y.state =
          unseal_state-seal_state p d calls (bytes y.state) (model_manifest server.manifest)
            (bytes server.master_secret) (int (pos 0)) (bytes []) Value.none {s = y.state}
            (unfold require_state in refl) run in
        let text = after_turn-IsText history message z.valid hm in
        (
          b64encode sealed,
          rw (run_model-Stands history message prior z y.encodes, run),
          record {
            sealed = sealed;
            state = y.state;
            text = refl;
            octets =
                seal_state-IsBytes p d o calls (bytes y.state) (model_manifest server.manifest)
                  (bytes server.master_secret) (int (pos 0)) (bytes []) Value.none {s = y.state}
                  (unfold require_state in refl)
                  (utf8-IsBytes (after_turn history message) text y.encodes) run;
            long = omega (
              arith,
              length-seal_state p d calls (bytes y.state) (model_manifest server.manifest)
                  (bytes server.master_secret) (int (pos 0)) (bytes []) Value.none {s = y.state}
                  (unfold require_state in refl) run,
            );
            opens = again;
            stands = record { valid = text; encodes = y.encodes };
          },
        )
