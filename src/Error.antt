-- ===== src/Error.antt =====
-- The exceptions of sce/core.py, and the raw Python exceptions that its calls can raise.
use sce.Base.{ℕ, String, ◌≡◌, refl, ◌⊎◌, inl, inr, Bool, true, false, List}

-- One constructor for each text that the code raises with, in the order of the source.
pub data Message : Type 0 where
  field_not_str : String → String → Message
  field_too_long : String → Message
  field_must_be_str : String → Message
  extra_not_mapping extra_not_str : Message
  extra_keys_collide : List ℕ → Message
  not_a_manifest : String → Message
  not_bytes : String → String → Message
  bad_epoch lp_too_long : Message
  secret_not_bytes : String → Message
  secret_too_short : Message
  state_not_bytes : Message
  state_too_long : ℕ → Message
  context_not_bytes context_too_long : Message
  bad_seal_count : Message
  seal_count_at_ceiling : ℕ → Message
  short_header bad_magic : Message
  bad_version : ℕ → Message
  length_mismatch short_ciphertext : Message
  bad_segment_size segment_size_too_large : Message
  short_stream_header bad_stream_magic : Message
  bad_stream_version : ℕ → Message
  zero_segments empty_not_single too_many_segments : Message
  missing_frame short_segment trailing_bytes : Message
  -- `_MISMATCH_MESSAGE`
  mismatch_message : Message

-- `SCEError` and its two subclasses, then what Python and the cryptography package raise.
pub data Exception : Type 0 where
  sce_error : Message → Exception
  state_seal_mismatch : Message → Exception
  malformed_envelope : Message → Exception
  overflow_error struct_error unicode_encode_error unicode_decode_error value_error key_error :
      Exception
  invalid_tag assertion_error : Exception

-- `except SCEError` catches it.
abbrev pub is_sce_error : Exception → Bool
is_sce_error (sce_error m) = true
is_sce_error (state_seal_mismatch m) = true
is_sce_error (malformed_envelope m) = true
is_sce_error _ = false

-- A call returns a value or raises.
pub data Result {ℓ} (A : Type ℓ) : Type ℓ where
  ok : A → Result A
  raise : Exception → Result A

-- The exception of a call is that of the code around it.
infixl 5 ◌>>=◌
abbrev pub ◌>>=◌ {ℓ κ} :
    {A : Type ℓ} {B : Type κ} (call : Result A) (rest : A → Result B) → Result B
raise e >>= rest = raise e
ok value >>= rest = rest value

infixl 5 ◌>>◌
abbrev pub ◌>>◌ {κ} : {B : Type κ} (call : Result (Unit {0})) (rest : Result B) → Result B
call >> rest = call >>= λ u. rest

-- `if test: raise e`
abbrev pub raise_if : Bool → Exception → Result (Unit {0})
raise_if true e = raise e
raise_if false e = ok tt

pub ok-injective {ℓ} : {A : Type ℓ} {a b : A} → ok a ≡ ok b → a ≡ b
ok-injective h = cc

pub raise-injective {ℓ} :
    {A : Type ℓ} {e e' : Exception} → ◌≡◌ {A = Result A} (raise e) (raise e') → e ≡ e'
raise-injective h = cc

-- To split on a call and keep the equation.
pub Result-cases {ℓ} :
    {A : Type ℓ} (r : Result A) → ((a : A) × (r ≡ ok a)) ⊎ ((e : Exception) × (r ≡ raise e))
Result-cases (ok a) = inl (a, refl)
Result-cases (raise e) = inr (e, refl)

-- A bind that succeeded went through a value.
pub >>=-eq-ok {ℓ κ} :
    {A : Type ℓ} {B : Type κ} (call : Result A) (rest : A → Result B) {out : B}
    → (call >>= rest) ≡ ok out
    → (value : A) × (call ≡ ok value) × (rest value ≡ ok out)
>>=-eq-ok (raise e) rest h = cc
>>=-eq-ok (ok value) rest h = (value, refl, h)

-- Code that goes on after `raise_if` ran with a test that was false.
pub raise_if-eq-ok {ℓ} :
    {B : Type ℓ} (b : Bool) (e : Exception) (k : Result B) {r : B}
    → (raise_if b e >> k) ≡ ok r
    → (b ≡ false) × (k ≡ ok r)
raise_if-eq-ok true e k h = cc
raise_if-eq-ok false e k h = (refl, h)

-- Whatever the call raises, `except SCEError` catches.
pub record OnlySceError {ℓ} {A : Type ℓ} (r : Result A) : Type ℓ where
  pub caught : (e : Exception) → r ≡ raise e → is_sce_error e ≡ true

pub OnlySceError-ok {ℓ} : {A : Type ℓ} (a : A) → OnlySceError (ok a)
OnlySceError-ok a = record { caught = λ e h. cc }

pub OnlySceError-raise {ℓ} :
    {A : Type ℓ} (e : Exception) → is_sce_error e ≡ true → OnlySceError {A = A} (raise e)
OnlySceError-raise {A} e h = record { caught = λ e' k. cc }

pub OnlySceError-raise_if :
    (b : Bool) (e : Exception) → is_sce_error e ≡ true → OnlySceError (raise_if b e)
OnlySceError-raise_if true e h = OnlySceError-raise e h
OnlySceError-raise_if false e h = OnlySceError-ok tt

-- The rest of the code may use that the call returned.
pub OnlySceError-bind {ℓ κ} :
    {A : Type ℓ} {B : Type κ} (m : Result A) (f : A → Result B)
    → OnlySceError m
    → ((a : A) → m ≡ ok a → OnlySceError (f a))
    → OnlySceError (m >>= f)
OnlySceError-bind (ok a) f hm hf = hf a refl
OnlySceError-bind (raise e) f hm hf = OnlySceError-raise e (hm.caught e refl)

-- The code after a test may use that the test failed.
pub OnlySceError-guard {ℓ} :
    {A : Type ℓ} (b : Bool) (e : Exception) (k : Result A)
    → is_sce_error e ≡ true
    → (b ≡ false → OnlySceError k)
    → OnlySceError (raise_if b e >> k)
OnlySceError-guard true e k h hk = OnlySceError-raise e h
OnlySceError-guard false e k h hk = hk refl

-- Code that returns whenever its first call does raises only what that call raises.
pub OnlySceError-returns {ℓ κ} :
    {A : Type ℓ} {B : Type κ} (m : Result A) (f : A → Result B)
    → OnlySceError m
    → ((a : A) → m ≡ ok a → (b : B) × ((m >>= f) ≡ ok b))
    → OnlySceError (m >>= f)
OnlySceError-returns (ok a) f hm h = let (b, e) = h a refl in rw e (OnlySceError-ok b)
OnlySceError-returns (raise e) f hm h = OnlySceError-raise e (hm.caught e refl)
