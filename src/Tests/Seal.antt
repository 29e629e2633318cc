-- ===== src/Tests/Seal.antt =====
-- Runs of the seal of sce/core.py, and the theorems about it at these runs.
use sce.Base.{ℕ, ◌≡◌, ◌⊎◌, refl, [], ◌∷◌, ◌++◌, arith, length, replicate, list_eq, codes, ◌≤◌}
use mathlib.Core.Path.{subst}
use sce.Error.{ok, OnlySceError, ok-injective}
use sce.Value.{
  Bytes, Value, ModelManifest, int, pos, bytes, model_manifest, model_manifest-injective,
}
use sce.Bytes.{big_endian, to_bytes, from_bytes, lp}
use sce.Manifest.{require_manifest}
use sce.Keys.{
  check_epoch, kdf_canonical, require_secret, kdf_info, commit, derive_key_material, aad,
}
use sce.Envelope.{
  pack_bytes, pack_uint, pack_header, pack_ctlen, require_envelope_bytes, unpack, parse_bytes,
  parse,
}
use sce.Seal.{
  require_state, require_context, bounded_context, check_seal_count, seal_with, seal_state, opened,
  verdict, open_parsed, unseal_state,
}
use sce.Tests.{toy, toy-Documented, sum}
use sce.Tests.Manifest.{manifest_with, lora, rope, valid_in_order, valid_swapped}
use sce.Manifest.Construct.{IsManifest}
use sce.Keys.Derive.{material, split_material}
use sce.Keys.Binding.{commitment-binds}
use sce.Envelope.Layout.{header, fields_of}
use sce.Seal.RoundTrip.{unseal_state-seal_state}
use sce.Seal.Total.{unseal_state-OnlySceError}
use sce.Seal.Returns.{seal_state-returns, seal_state-OnlySceError}
use sce.Seal.Binding.{
  Presented, SamePresented, KnownBreak, BrokenDerivation, open_under, unseal_state-binds,
  seal_state-fails_closed,
}

abbrev pub secret : Value
secret = bytes (replicate 16 7)

abbrev pub in_order : ModelManifest
in_order = manifest_with (lora ∷ rope ∷ [])

abbrev pub swapped : ModelManifest
swapped = manifest_with (rope ∷ lora ∷ [])

abbrev pub under : ModelManifest → Presented
under m = record {
  manifest = m;
  secret = secret;
  epoch = int (pos 7);
  context = bytes (codes "ctx");
}

abbrev nonce : Bytes
nonce = replicate 12 1

abbrev salt : Bytes
salt = replicate 16 0

abbrev commitment : Bytes
commitment = replicate 32 132

abbrev ciphertext : Bytes
ciphertext = codes "hi" ++ replicate 16 188

-- The envelope, written out.
abbrev pub sealed : Bytes
sealed = codes "SCE4" ++ (4 ∷ (nonce ++ (salt ++ (commitment ++ (0 ∷ 0 ∷ 0 ∷ 18 ∷ ciphertext)))))

pub seal_run :
    seal_state toy 0
      (bytes (codes "hi"))
      (model_manifest in_order)
      secret
      (int (pos 7))
      (bytes (codes "ctx"))
      Value.none
    ≡ ok (sealed, 2)
unfolding seal_state seal_with require_manifest require_state bounded_context require_context
    check_seal_count check_epoch derive_key_material require_secret kdf_info kdf_canonical lp
    to_bytes big_endian commit aad pack_header pack_bytes pack_uint pack_ctlen sum
seal_run = refl

parse_run : parse_bytes sealed ≡ ok (fields_of nonce salt commitment ciphertext)
unfolding parse_bytes unpack from_bytes list_eq header
parse_run = refl

pub open_run :
    (m : ModelManifest)
    → m.memh ≡ in_order.memh
    → open_under toy (bytes sealed) (under m) ≡ ok (codes "hi")
unfolding unseal_state require_manifest bounded_context require_context check_epoch parse
    require_envelope_bytes parse_bytes unpack from_bytes list_eq open_parsed derive_key_material
    require_secret kdf_info kdf_canonical lp to_bytes big_endian commit aad opened verdict sum
open_run m h = rw h

unseal_state-seal_state_example :
    unseal_state toy
      (bytes sealed)
      (model_manifest in_order)
      secret
      (int (pos 7))
      (bytes (codes "ctx"))
    ≡ ok (codes "hi")
unseal_state-seal_state_example =
    unseal_state-seal_state toy toy-Documented 0 (bytes (codes "hi")) (model_manifest in_order)
      secret (int (pos 7)) (bytes (codes "ctx")) Value.none (unfold require_state in refl) seal_run

seal_state-fails_closed_example :
    (SamePresented toy (under in_order) (under swapped) × (codes "hi" ≡ codes "hi"))
    ⊎ KnownBreak toy (bytes sealed) (under in_order) (under swapped)
seal_state-fails_closed_example =
    seal_state-fails_closed toy toy-Documented 0 (bytes (codes "hi")) Value.none (under in_order)
      (under swapped) valid_in_order valid_swapped (unfold require_state in refl) seal_run
      (open_run swapped refl)

unseal_state-binds_example :
    (SamePresented toy (under in_order) (under swapped) × (codes "hi" ≡ codes "hi"))
    ⊎ KnownBreak toy (bytes sealed) (under in_order) (under swapped)
unseal_state-binds_example =
    unseal_state-binds toy (bytes sealed) (under in_order) (under swapped) valid_in_order
      valid_swapped (open_run in_order refl) (open_run swapped refl)

seal_state-returns_example :
    (e : Bytes) × (seal_state toy 0
        (bytes (codes "hi"))
        (model_manifest in_order)
        secret
        (int (pos 7))
        (bytes (codes "ctx"))
        Value.none
      ≡ ok (e, 2))
seal_state-returns_example =
    seal_state-returns toy toy-Documented (omega arith) 0 (bytes (codes "hi")) secret (int (pos 7))
      (bytes (codes "ctx")) Value.none in_order {s = codes "hi"} {c = codes "ctx"}
      {k = replicate 16 7} {e = 7} valid_in_order (unfold require_state in refl) (omega arith)
      (omega arith) (unfold bounded_context require_context in refl)
      (unfold check_seal_count in refl) (unfold check_epoch in refl) (unfold require_secret in refl)

only_in_order : (m : ModelManifest) → model_manifest in_order ≡ model_manifest m → IsManifest toy m
only_in_order m h = subst (IsManifest toy) (model_manifest-injective h) valid_in_order

hi_fits : (s : Bytes) → require_state (bytes (codes "hi")) ≡ ok s → length s ≤ toy.max_text
unfolding require_state
hi_fits s h = subst (λ x. length x ≤ toy.max_text) (ok-injective h) (omega arith)

seal_state-OnlySceError_example : OnlySceError (
    seal_state toy 0
      (bytes (codes "hi"))
      (model_manifest in_order)
      Value.none
      (int (pos 7))
      (bytes (codes "ctx"))
      Value.none)
seal_state-OnlySceError_example =
    seal_state-OnlySceError toy toy-Documented (omega arith) 0 (bytes (codes "hi"))
      (model_manifest in_order) Value.none (int (pos 7)) (bytes (codes "ctx")) Value.none
      only_in_order hi_fits

unseal_state-OnlySceError_example : OnlySceError (
    unseal_state toy
      (bytes sealed)
      (model_manifest in_order)
      (bytes (replicate 16 8))
      (int (pos 7))
      (bytes (codes "ctx")))
unseal_state-OnlySceError_example =
    unseal_state-OnlySceError toy toy-Documented (bytes sealed) (model_manifest in_order)
      (bytes (replicate 16 8)) (int (pos 7)) (bytes (codes "ctx")) only_in_order

-- The canonical bytes of the derivation above.
abbrev derivation_bytes : Bytes
derivation_bytes =
    codes "LDDP-SCE|kdf-canon-v4"
    ++ (0 ∷ 0 ∷ 0 ∷ 3 ∷ codes "ctx")
    ++ ((0 ∷ 0 ∷ 0 ∷ 8 ∷ 0 ∷ 0 ∷ 0 ∷ 0 ∷ 0 ∷ 0 ∷ 0 ∷ 7 ∷ []) ++ (0 ∷ 0 ∷ 0 ∷ 32 ∷ in_order.memh))

derive_run :
    derive_key_material toy secret in_order.memh 7 (codes "ctx") salt
    ≡ ok (split_material toy (material toy salt (replicate 16 7) derivation_bytes))
unfolding derive_key_material require_secret kdf_info kdf_canonical lp to_bytes big_endian commit
derive_run = refl

commitment-binds_example :
    ((require_secret secret ≡ require_secret secret)
      × (codes "ctx" ≡ codes "ctx")
      × (◌≡◌ {A = ℕ} 7 7)
      × (in_order.memh ≡ in_order.memh))
    ⊎ BrokenDerivation toy secret in_order.memh 7
        (codes "ctx")
        secret
        in_order.memh
        7
        (codes "ctx")
        salt
commitment-binds_example =
    commitment-binds toy secret in_order.memh 7 (codes "ctx") secret in_order.memh 7 (codes "ctx")
      salt derive_run derive_run refl
