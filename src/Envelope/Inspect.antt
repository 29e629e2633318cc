-- ===== src/Envelope/Inspect.antt =====
-- `describe_envelope` and `explain_mismatch` of sce/core.py.
use sce.Base.{◌-◌, ◌≡◌, ◌⊎◌, inl, inr, refl, sym, ◌∙◌, ap, arith, length, take}
use sce.Error.{
  Message, Exception, ok, raise, malformed_envelope, not_bytes, Result-cases, >>=-eq-ok,
  ok-injective, raise-injective,
}
use sce.Value.{Bytes, Value, ModelManifest, bytes, model_manifest, type_name}
use sce.Manifest.{require_manifest}
use sce.Envelope.{
  magic, version, Parsed, require_envelope_bytes, parse_bytes, parse, Description,
  describe_envelope, not_valid, refused, explain, explain_mismatch,
}
use sce.Envelope.Accepts.{parse_bytes-public}

-- What `describe_envelope` says of an envelope is determined by its length.
pub describe_envelope-length :
    (s : Bytes) {a : Description}
    → describe_envelope (bytes s) ≡ ok a
    → a ≡ record {
      magic_field = magic;
      version_field = version;
      ciphertext_bytes = length s - 69;
      total_envelope_bytes = length s;
    }
unfolding describe_envelope parse require_envelope_bytes
describe_envelope-length s h =
    let (f, hf, e) = >>=-eq-ok (parse_bytes s) _ h in
    let (same_magic, same_version, size) = parse_bytes-public s hf in
    let body : length f.ciphertext ≡ length s - 69 = omega (arith, size) in
    sym (ok-injective e) ∙ (λ k. record {
      magic_field = same_magic k;
      version_field = same_version k;
      ciphertext_bytes = body k;
      total_envelope_bytes = length s;
    })

-- Two envelopes of the same length have the same description, whatever they were sealed under.
pub describe_envelope-unlinkable :
    (s r : Bytes) {a b : Description}
    → describe_envelope (bytes s) ≡ ok a
    → describe_envelope (bytes r) ≡ ok b
    → length s ≡ length r
    → a ≡ b
describe_envelope-unlinkable s r ha hb h =
    describe_envelope-length s ha
    ∙ (λ k. record {
      magic_field = magic;
      version_field = version;
      ciphertext_bytes = h k - 69;
      total_envelope_bytes = h k;
    })
    ∙ sym (describe_envelope-length r hb)

parse_bytes-malformed :
    (s : Bytes) (e : Exception)
    → parse_bytes s ≡ raise e
    → (m : Message) × (e ≡ malformed_envelope m)
unfolding parse_bytes
parse_bytes-malformed s e h = ground arith

require_envelope_bytes-malformed :
    (v : Value) (m : Message) (e : Exception)
    → require_envelope_bytes v m ≡ raise e
    → (n : Message) × (e ≡ malformed_envelope n)
unfolding require_envelope_bytes
require_envelope_bytes-malformed v m e h = ground arith

parse-malformed :
    (v : Value) (e : Exception) → parse v ≡ raise e → (m : Message) × (e ≡ malformed_envelope m)
unfolding parse
parse-malformed v e h =
    elim (Result-cases (require_envelope_bytes v (not_bytes "sealed envelope" (type_name v)))) [
      | inl (s, hs) ↦ parse_bytes-malformed s e (rw hs at h)
      | inr (x, hx) ↦
          let (m, hm) =
            require_envelope_bytes-malformed v (not_bytes "sealed envelope" (type_name v)) x hx in
          (m, sym (raise-injective {A = Parsed} (rw hx at h)) ∙ hm)
    ]

-- Under any manifest `explain_mismatch` returns a note: for a value that the parser rejects, the
-- structural fault that it raised, and for an envelope, the head of the presented fingerprint.
pub explain_mismatch-cases :
    (v : Value) (m : ModelManifest)
    → ((f : Parsed) × (parse v ≡ ok f)
        × (explain_mismatch v (model_manifest m) ≡ ok (refused (take 8 m.memh))))
      ⊎ ((e : Message) × (parse v ≡ raise (malformed_envelope e))
          × (explain_mismatch v (model_manifest m) ≡ ok (not_valid e)))
unfolding explain_mismatch require_manifest explain
explain_mismatch-cases v m = elim (Result-cases (parse v)) [
  | inl (f, hf) ↦ inl (f, hf, (rw hf refl))
  | inr (x, hx) ↦
      let (e, he) = parse-malformed v x hx in
      let faulty = hx ∙ ap raise he in inr (e, faulty, (rw faulty refl))
]
