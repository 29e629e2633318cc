-- ===== src/Seal/Octets.antt =====
-- Envelopes of sce/core.py as strings of bytes.
use sce.Base.{ℕ, zero, suc, ◌/◌, ◌%◌, ◌≡◌, arith, [], ◌∷◌, ◌++◌, length, All-append, sym, ◌∙◌}
use mathlib.Core.Path.{subst}
use sce.Error.{ok, ok-injective}
use sce.Value.{Bytes, Value}
use sce.Bytes.{IsBytes, big_endian}
use sce.Library.{Primitives, Documented}
use sce.Library.Octets.{Octets}
use sce.Keys.{KeyMaterial, commit, derive_key_material}
use sce.Keys.Derive.{derive_key_material-eq-ok}
use sce.Envelope.Layout.{header, envelope}
use sce.Seal.{require_state, seal_state}
use sce.Seal.RoundTrip.{seal_state-Run}

pub big_endian-IsBytes : (w n : ℕ) → IsBytes (big_endian w n)
unfolding big_endian
big_endian-IsBytes zero n = tt
big_endian-IsBytes (suc w) n =
    All-append _ (big_endian w (n / 256)) (n % 256 ∷ []) (big_endian-IsBytes w (n / 256))
      (omega arith, tt)

module _ (nonce salt commitment c : Bytes) (hn : IsBytes nonce) (hs : IsBytes salt)
    (hk : IsBytes commitment) (hc : IsBytes c) where
  envelope-IsBytes : IsBytes (envelope nonce salt commitment c)
  unfolding envelope header
  envelope-IsBytes =
      let body : IsBytes (big_endian 4 (length c) ++ c) =
        All-append _ (big_endian 4 (length c)) c (big_endian-IsBytes 4 (length c)) hc in
      let fields =
        All-append _ nonce (salt ++ commitment) hn (All-append _ salt commitment hs hk) in
      let all = All-append _ (nonce ++ (salt ++ commitment)) _ fields body in
      (omega arith, (omega arith, (omega arith, (omega arith, (omega arith, all)))))

module _ (p : Primitives) (d : Documented p) (o : Octets p) where
  commitment-IsBytes :
      (v : Value) (memh : Bytes) (e : ℕ) (c salt : Bytes) {km : KeyMaterial}
      → derive_key_material p v memh e c salt ≡ ok km
      → IsBytes km.commitment
  commitment-IsBytes v memh e c salt h =
      let (s, x, hs, hx, eq) = derive_key_material-eq-ok p v memh e c salt h in
      rw eq (unfold commit in o.sha3_256-IsBytes _)

  -- An envelope of a state of bytes is a string of bytes.
  pub seal_state-IsBytes :
      (calls : ℕ) (state manifest secret epoch context count : Value) {sealed s : Bytes} {after : ℕ}
      → require_state state ≡ ok s
      → IsBytes s
      → seal_state p calls state manifest secret epoch context count ≡ ok (sealed, after)
      → IsBytes sealed
  seal_state-IsBytes calls state manifest secret epoch context count hs valid h =
      let r = seal_state-Run p d calls state manifest secret epoch context count h in
      let q = r.made in
      let same : _ ≡ r.s = ok-injective (sym hs ∙ r.is_state) in
      subst IsBytes (sym q.layout) (
        envelope-IsBytes _ _ q.km.commitment q.ciphertext (o.urandom-IsBytes _ _)
          (o.urandom-IsBytes _ _) (commitment-IsBytes _ _ _ _ _ q.derived)
          (o.encrypt-IsBytes _ _ _ _ q.ciphertext (subst IsBytes same valid) q.encrypted))
