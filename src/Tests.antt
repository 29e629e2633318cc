-- ===== src/Tests.antt =====
-- Concrete functions in place of the external primitives, to run the model of sce/core.py and
-- sce/stream.py on: a checksum stands for every hash and for the tag.
pub mod Manifest
pub mod Seal
pub mod Stream
mod Segments
mod Fuzz
mod Regression
mod Inspect
mod Serving
mod Overnight
mod Refuses
mod Attack
mod Bench
mod Cases
use sce.Base.{
  zero, suc, ◌<◌, All-append, ℕ, ◌+◌, ◌-◌, ◌%◌, ◌*◌, ◌^◌, ◌≡◌, refl, sym, ◌∙◌, ap, List, [], ◌∷◌,
  ◌++◌, arith, length, take, replicate, length-append, length-replicate, take-append, list_eq,
  list_eq_refl, if◌then◌else◌, codes,
}
use mathlib.Core.Path.{subst}
use sce.Error.{Exception, ok, raise, invalid_tag, ok-injective}
use sce.Value.{Bytes}
use sce.Bytes.{IsBytes}
use sce.Library.{Primitives, Documented, AsciiNormal}
use sce.Library.Octets.{Octets}

unfoldable pub sum : ℕ → Bytes → ℕ
sum acc [] = acc
sum acc (b ∷ bs) = sum ((acc + b) % 256) bs

abbrev seal_text : Bytes → Bytes → Bytes → Bytes → Bytes
seal_text key nonce text aad = text ++ replicate 16 (sum 0 (key ++ (nonce ++ (text ++ aad))))

abbrev pub toy : Primitives
toy = record {
  nfc = λ t. t;
  sha3_256 = λ b. replicate 32 (sum 0 b);
  hkdf = λ n salt info ikm. replicate n (sum 0 (salt ++ (info ++ ikm)));
  encrypt = λ key nonce text aad. ok (seal_text key nonce text aad);
  decrypt = λ key nonce c aad.
      let text = take (length c - 16) c in
      if list_eq c (seal_text key nonce text aad) then ok text else raise invalid_tag;
  max_text = 2 ^ 31 - 1;
  urandom = λ i n. replicate n (i % 256);
}

toy-text :
    (key nonce text aad : Bytes)
    → take (length (seal_text key nonce text aad) - 16) (seal_text key nonce text aad) ≡ text
toy-text key nonce text aad =
    take-append _ text (replicate 16 (sum 0 (key ++ (nonce ++ (text ++ aad)))))
      (omega (arith, length-append text (replicate 16 (sum 0 (key ++ (nonce ++ (text ++ aad)))))))

toy-decrypt :
    (key nonce text aad c : Bytes)
    → toy.encrypt key nonce text aad ≡ ok c
    → toy.decrypt key nonce c aad ≡ ok text
toy-decrypt key nonce text aad c h =
    rw (
      sym (ok-injective h),
      toy-text key nonce text aad,
      list_eq_refl (seal_text key nonce text aad),
    )

toy-raises :
    (key nonce c aad : Bytes) (e : Exception)
    → toy.decrypt key nonce c aad ≡ raise e
    → e ≡ invalid_tag
toy-raises key nonce c aad e h = ground arith

pub toy-Documented : Documented toy
toy-Documented = record {
  nfc_idempotent = λ t. refl;
  length-sha3_256 = λ b. refl;
  length-hkdf = λ n salt info ikm. length-replicate n _;
  length-urandom = λ i n. length-replicate n _;
  encrypt_returns = λ key nonce text aad _ _ _ _. (seal_text key nonce text aad, refl);
  length-encrypt = λ key nonce text aad c h.
      ap length (sym (ok-injective h))
      ∙ length-append text (replicate 16 (sum 0 (key ++ (nonce ++ (text ++ aad)))));
  decrypt-encrypt = toy-decrypt;
  decrypt_raises = λ key nonce c aad e _ _ h. toy-raises key nonce c aad e h;
}

sum-lt : (acc : ℕ) (b : Bytes) → acc < 256 → sum acc b < 256
unfolding sum
sum-lt acc [] h = h
sum-lt acc (x ∷ b) h = sum-lt ((acc + x) % 256) b (omega arith)

replicate-IsBytes : (n x : ℕ) → x < 256 → IsBytes (replicate n x)
replicate-IsBytes zero x h = tt
replicate-IsBytes (suc n) x h = (h, replicate-IsBytes n x h)

pub toy-Octets : Octets toy
toy-Octets = record {
  sha3_256-IsBytes = λ b. replicate-IsBytes 32 (sum 0 b) (sum-lt 0 b (omega arith));
  urandom-IsBytes = λ i n. replicate-IsBytes n (i % 256) (omega arith);
  encrypt-IsBytes = λ key nonce text aad c h e.
      subst IsBytes (ok-injective e)
        (All-append _ text _ h (replicate-IsBytes 16 _ (sum-lt 0 _ (omega arith))));
}

pub toy-AsciiNormal : AsciiNormal toy
toy-AsciiNormal = record { nfc_ascii = λ t h. refl }

-- A derivation whose bytes depend on the places of its inputs, which that of `toy` do not.
unfoldable pub mix : ℕ → Bytes → ℕ
mix acc [] = acc
mix acc (b ∷ bs) = mix ((acc * 3 + b) % 251) bs

abbrev pub spread : Primitives
spread = record toy { hkdf = λ n salt info ikm. replicate n (mix 0 (salt ++ (info ++ ikm))) }

pub spread-Documented : Documented spread
spread-Documented = record {
  nfc_idempotent = toy-Documented.nfc_idempotent;
  length-sha3_256 = toy-Documented.length-sha3_256;
  length-hkdf = λ n salt info ikm. length-replicate n _;
  length-urandom = toy-Documented.length-urandom;
  encrypt_returns = toy-Documented.encrypt_returns;
  length-encrypt = toy-Documented.length-encrypt;
  decrypt-encrypt = toy-Documented.decrypt-encrypt;
  decrypt_raises = toy-Documented.decrypt_raises;
}

pub spread-Octets : Octets spread
spread-Octets = record {
  sha3_256-IsBytes = toy-Octets.sha3_256-IsBytes;
  urandom-IsBytes = toy-Octets.urandom-IsBytes;
  encrypt-IsBytes = toy-Octets.encrypt-IsBytes;
}

pub spread-AsciiNormal : AsciiNormal spread
spread-AsciiNormal = record { nfc_ascii = λ t h. refl }
