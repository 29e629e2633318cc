-- ===== src/Bench/Timing/Tampered.antt =====
-- The tampered envelope of bench/timing_check.py.
use sce.Base.{
  ℕ, zero, suc, ◌-◌, ◌<◌, ◌≡◌, ◌≢◌, refl, sym, ◌∙◌, ap, [], ◌∷◌, ◌++◌, arith, length, length-append,
}
use sce.Error.{ok}
use sce.Value.{Bytes, bytes}
use sce.Bytes.{IsBytes, big_endian}
use sce.Fuzz.Driver.{flip_bit, update_at}
use sce.Fuzz.Generated.{flip_bit-lt, update_at-IsBytes, length-update_at}
use sce.Envelope.{Parsed, parse, require_envelope_bytes}
use sce.Envelope.Layout.{header, envelope, fields_of, parse_bytes-envelope}
use sce.Envelope.Accepts.{parse_bytes-IsEnvelope, parse_bytes-enough}
use sce.Bench.Timing.{tamper}

-- Flipping the last byte of a concatenation flips that of its second part.
update_at-append :
    (f : ℕ → ℕ) (a b : Bytes)
    → 0 < length b
    → update_at f (length (a ++ b) - 1) (a ++ b) ≡ a ++ update_at f (length b - 1) b
unfolding update_at
update_at-append f [] b h = refl
update_at-append f (x ∷ a) b h =
    let i : length (x ∷ (a ++ b)) - 1 ≡ suc (length (a ++ b) - 1) =
      omega (arith, length-append a b) in
    rw i (ap (λ r. x ∷ r) (update_at-append f a b h))

flip_bit-ne : (x : ℕ) → flip_bit 0 x ≢ x
unfolding flip_bit
flip_bit-ne x e = ground arith

update_at-ne :
    (f : ℕ → ℕ) (i : ℕ) (b : Bytes) → ((x : ℕ) → f x ≢ x) → i < length b → update_at f i b ≢ b
unfolding update_at
update_at-ne f i [] hf h e = absurd (omega arith)
update_at-ne f zero (x ∷ b) hf h e = hf x (cc)
update_at-ne f (suc i) (x ∷ b) hf h e = update_at-ne f i b hf (omega arith) (cc)

-- Tampering leaves an envelope with another ciphertext of the same size.
tamper-envelope :
    (nonce salt k c : Bytes)
    → 0 < length c
    → tamper (envelope nonce salt k c) ≡ envelope nonce salt k (tamper c)
unfolding tamper envelope
tamper-envelope nonce salt k c h =
    let f = flip_bit 0 in
    let head = header nonce salt k in
    let frame = big_endian 4 (length c) in
    update_at-append f head (frame ++ c) (omega (arith, length-append frame c))
    ∙ ap (λ r. head ++ r)
        (update_at-append f frame c h
          ∙ ap (λ (n : ℕ). big_endian 4 n ++ update_at f (length c - 1) c)
              (sym (length-update_at f (length c - 1) c)))

pub length-tamper : (s : Bytes) → length (tamper s) ≡ length s
unfolding tamper
length-tamper s = length-update_at (flip_bit 0) (length s - 1) s

pub tamper-IsBytes : (s : Bytes) → IsBytes s → IsBytes (tamper s)
unfolding tamper
tamper-IsBytes s h =
    update_at-IsBytes (flip_bit 0) (length s - 1) s (λ x hx. flip_bit-lt 0 x (omega arith) hx) h

pub tamper_ne : (s : Bytes) → 0 < length s → tamper s ≢ s
unfolding tamper
tamper_ne s h = update_at-ne (flip_bit 0) (length s - 1) s flip_bit-ne (omega arith)

pub tamper-parses :
    (s : Bytes) {f : Parsed}
    → IsBytes s
    → parse (bytes s) ≡ ok f
    → (g : Parsed) × (parse (bytes (tamper s)) ≡ ok g)
unfolding parse require_envelope_bytes
tamper-parses s {f} valid h =
    let z = parse_bytes-IsEnvelope s f valid h in
    let c = f.ciphertext in
    let size : length (tamper c) ≡ length c = length-tamper c in
    let whole : tamper s ≡ envelope f.nonce f.salt f.commitment (tamper c) =
      ap tamper z.layout
      ∙ tamper-envelope f.nonce f.salt f.commitment c (omega (arith, z.tagged)) in
    (
      fields_of f.nonce f.salt f.commitment (tamper c),
      rw whole (
          parse_bytes-envelope f.nonce f.salt f.commitment z.sized (tamper c)
            (omega (arith, size, z.tagged)) (omega (arith, size, z.framed))),
    )

pub opened_long : (s : Bytes) {f : Parsed} → parse (bytes s) ≡ ok f → 0 < length s
unfolding parse require_envelope_bytes
opened_long s h = omega (arith, parse_bytes-enough s h)
