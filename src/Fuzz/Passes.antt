-- ===== src/Fuzz/Passes.antt =====
-- The outcomes of `TestOneInput` of fuzz/fuzz_envelope.py.
use sce.Base.{
  ℕ, ◌≤◌, ◌%◌, ◌==◌, ◌≡◌, refl, Bool, true, false, [], ◌∷◌, arith, inl, inr, list_eq_refl,
  if◌then◌else◌, length, drop, length-drop,
}
use mathlib.Core.Path.{subst}
use sce.Error.{
  Result, ok, raise, ◌>>=◌, OnlySceError, OnlySceError-ok, OnlySceError-bind, ok-injective,
}
use sce.Value.{
  Bytes, Value, ModelManifest, int, pos, bytes, model_manifest, model_manifest-injective,
}
use sce.Bytes.{IsBytes, max_lp_field}
use sce.Library.{Primitives, Documented}
use sce.Manifest.Construct.{IsManifest, new_manifest-IsManifest}
use sce.Envelope.{require_envelope_bytes, parse, describe_envelope, explain_mismatch}
use sce.Envelope.Inspect.{explain_mismatch-cases}
use sce.Seal.{require_state, require_context, seal_state, unseal_state}
use sce.Seal.Returns.{aad_len, seal_state-OnlySceError}
use sce.Seal.RoundTrip.{unseal_state-seal_state}
use sce.Seal.Total.{parse-OnlySceError, unseal_state-OnlySceError}
use sce.Stream.{parse_stream_header, parse_stream_bytes, describe_stream}
use sce.Chunked.Errors.{parse_stream_bytes-OnlySceError, unseal_state_chunked-OnlySceError}
use sce.Fuzz.{
  Outcome, returned, outcome, master, target_manifest, entry_points, quiet, compare_bytes,
  seal_and_unseal, call_entry_point, test_one_input,
}

-- The `try` ends without a failure.
record Fine (r : Result Outcome) : Type 0 where
  passes : (selector : ℕ) → outcome selector r ≡ returned

Fine-bind :
    {A : Type 0} (call : Result A) (rest : A → Result Outcome)
    → OnlySceError call
    → ((a : A) → call ≡ ok a → Fine (rest a))
    → Fine (call >>= rest)
unfolding outcome
Fine-bind (ok a) rest h k = k a refl
Fine-bind (raise e) rest h k = record { passes = λ n. rw (h.caught e refl) refl }

Fine-returned : Fine (ok returned)
unfolding outcome
Fine-returned = record { passes = λ n. refl }

quiet-Fine : {A : Type 0} (call : Result A) → OnlySceError call → Fine (quiet call)
quiet-Fine call h = Fine-bind call _ h λ a e. Fine-returned

if-Fine : (b : Bool) {x y : Result Outcome} → Fine x → Fine y → Fine (if b then x else y)
if-Fine true hx hy = hx
if-Fine false hx hy = hy

describe_envelope-OnlySceError : (v : Value) → OnlySceError (describe_envelope v)
unfolding describe_envelope
describe_envelope-OnlySceError v =
    OnlySceError-bind (parse v) _ (parse-OnlySceError v) λ f h. OnlySceError-ok _

explain_mismatch-OnlySceError :
    (v : Value) (m : ModelManifest) → OnlySceError (explain_mismatch v (model_manifest m))
explain_mismatch-OnlySceError v m = elim (explain_mismatch-cases v m) [
  | inl (f, hf, e) ↦ rw e (OnlySceError-ok _)
  | inr (x, hx, e) ↦ rw e (OnlySceError-ok _)
]

describe_stream-OnlySceError : (b : Bytes) → OnlySceError (describe_stream (bytes b))
unfolding describe_stream parse_stream_header require_envelope_bytes
describe_stream-OnlySceError b =
    OnlySceError-bind (parse_stream_bytes b) _ (parse_stream_bytes-OnlySceError b)
      λ f h. OnlySceError-ok _

short_context : (b c : Bytes) → require_context (bytes b) ≡ ok c → b ≡ c
unfolding require_context
short_context b c h = ok-injective h

same_state : (b s : Bytes) → require_state (bytes b) ≡ ok s → b ≡ s
unfolding require_state
same_state b s h = ok-injective h

module _ (p : Primitives) (d : Documented p) (room : aad_len ≤ p.max_text) (m : ModelManifest)
    (vm : IsManifest p m) where
  known : (n : ModelManifest) → model_manifest m ≡ model_manifest n → IsManifest p n
  known n h = subst (IsManifest p) (model_manifest-injective h) vm

  -- Whatever is sealed comes back.
  round_trip-Fine :
      (calls : ℕ) (body : Bytes) (epoch ctx : Value)
      → length body ≤ p.max_text
      → Fine (
          seal_state p calls (bytes body) (model_manifest m) master epoch ctx Value.none
          >>= λ sealed.
              unseal_state p (bytes sealed.0) (model_manifest m) master epoch ctx >>= λ out.
              ok (compare_bytes body out))
  unfolding compare_bytes
  round_trip-Fine calls body epoch ctx fits =
      Fine-bind (seal_state p calls (bytes body) (model_manifest m) master epoch ctx Value.none) _
        (seal_state-OnlySceError p d room calls (bytes body) (model_manifest m) master epoch ctx
          Value.none known (λ s h. subst (λ x. length x ≤ p.max_text) (same_state body s h) fits))
        λ sealed h.
          rw
            (
              unseal_state-seal_state p d calls (bytes body) (model_manifest m) master epoch ctx
                  Value.none {s = body} (unfold require_state in refl) h,
              list_eq_refl body,
            )
            Fine-returned

  call_entry_point-Fine :
      (calls selector : ℕ) (payload : Bytes)
      → IsBytes payload
      → length payload ≤ p.max_text
      → Fine (call_entry_point p m calls selector payload)
  unfolding call_entry_point seal_and_unseal
  call_entry_point-Fine calls selector payload valid fits =
      if-Fine (selector == 0)
        (quiet-Fine _ (
          unseal_state-OnlySceError p d (bytes payload) (model_manifest m) master (int (pos 0))
            (bytes []) known))
        (if-Fine (selector == 1) (quiet-Fine _ (describe_envelope-OnlySceError (bytes payload))) (
          if-Fine (selector == 2) (quiet-Fine _ (explain_mismatch-OnlySceError (bytes payload) m)) (
            if-Fine (selector == 3)
              (quiet-Fine _ (
                unseal_state_chunked-OnlySceError p d payload (model_manifest m) master
                  (int (pos 0)) (bytes []) valid known
                  (λ c h.
                    subst (λ x. length x ≤ max_lp_field) (short_context [] c h) (omega arith))))
              (if-Fine (selector == 4) (quiet-Fine _ (describe_stream-OnlySceError payload)) (
                if-Fine (selector == 5)
                  (round_trip-Fine calls (drop 6 payload) _ _
                    (omega (arith, length-drop 6 payload)))
                  Fine-returned)))))

-- `TestOneInput` returns without a failure for every string of bytes that the cipher takes, with
-- primitives as documented that take the associated data, once the target's manifest is
-- constructed: no exception but those of the library escapes an entry point, and what is sealed
-- comes back.
pub test_one_input_passes :
    (p : Primitives)
    → Documented p
    → aad_len ≤ p.max_text
    → (calls : ℕ) (input : Bytes) {m : ModelManifest} → target_manifest p ≡ ok m
    → IsBytes input
    → length input ≤ p.max_text
    → test_one_input p m calls input ≡ returned
unfolding test_one_input target_manifest
test_one_input_passes p d room calls [] h valid fits = refl
test_one_input_passes p d room calls (b ∷ payload) {m} h valid fits =
    let vm = new_manifest-IsManifest p _ _ _ _ _ _ h in
    (call_entry_point-Fine p d room m vm calls (b % entry_points) payload valid.1
        (omega arith)).passes
      (b % entry_points)
