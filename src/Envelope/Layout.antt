-- ===== src/Envelope/Layout.antt =====
-- The layout of the SCE4 envelope that `_parse` of sce/core.py accepts.
use sce.Base.{
  ℕ, ◌+◌, ◌^◌, ◌≤◌, ◌<◌, ◌≡◌, refl, sym, ◌∙◌, ap, ◌∷◌, ◌++◌, arith, length, take, drop, take-append,
  take-all, ==-refl, drop-append, drop-drop, length-append, le→ltb, list_eq_refl, replicate,
}
use sce.Error.{ok}
use sce.Value.{Bytes}
use sce.Bytes.{big_endian, from_bytes, slice}
use sce.Bytes.Laws.{length-big_endian, from_bytes-big_endian}
use sce.Envelope.{magic, version, pack_bytes, pack_uint, pack_header, Parsed, unpack, parse_bytes}

-- The header, and the whole envelope.
unfoldable pub header : Bytes → Bytes → Bytes → Bytes
header nonce salt commitment = magic ++ version ∷ (nonce ++ (salt ++ commitment))

unfoldable pub envelope : Bytes → Bytes → Bytes → Bytes → Bytes
envelope nonce salt commitment ciphertext =
    header nonce salt commitment ++ (big_endian 4 (length ciphertext) ++ ciphertext)

abbrev pub fields_of : Bytes → Bytes → Bytes → Bytes → Parsed
fields_of nonce salt commitment ciphertext = record {
  prefix = header nonce salt commitment;
  magic_field = magic;
  version_field = version;
  nonce = nonce;
  salt = salt;
  commitment = commitment;
  ciphertext = ciphertext;
}

pub pack_bytes-exact : (n : ℕ) (b : Bytes) → length b ≡ n → pack_bytes n b ≡ b
unfolding pack_bytes
pack_bytes-exact n b h = take-append n b (replicate n 0) h

-- Fields of a fixed size, of the sizes that the layout gives them.
pub record IsSized (nonce salt commitment : Bytes) : Type 0 where
  pub nonce_size : length nonce ≡ 12
  pub salt_size : length salt ≡ 16
  pub commitment_size : length commitment ≡ 32

module _ (nonce salt commitment : Bytes) (z : IsSized nonce salt commitment) where
  pub pack_header-lem : pack_header nonce salt commitment ≡ ok (header nonce salt commitment)
  unfolding pack_header pack_uint big_endian header
  pack_header-lem = rw (
    pack_bytes-exact 12 nonce z.nonce_size,
    pack_bytes-exact 16 salt z.salt_size,
    pack_bytes-exact 32 commitment z.commitment_size,
    pack_bytes-exact 4 magic refl,
  )

  pub length-header : length (header nonce salt commitment) ≡ 65
  unfolding header
  length-header = omega (
    arith,
    length-append nonce (salt ++ commitment),
    length-append salt commitment,
    z.nonce_size,
    z.salt_size,
    z.commitment_size,
  )

  header-magic : slice 0 4 (header nonce salt commitment) ≡ magic
  unfolding header
  header-magic = refl

  header-version : from_bytes 0 (slice 4 5 (header nonce salt commitment)) ≡ version
  unfolding header from_bytes
  header-version = refl

  header_nonce : slice 5 17 (header nonce salt commitment) ≡ nonce
  unfolding header
  header_nonce = take-append 12 nonce (salt ++ commitment) z.nonce_size

  header_salt : slice 17 33 (header nonce salt commitment) ≡ salt
  unfolding header
  header_salt =
      ap (take 16) (drop-append 12 nonce (salt ++ commitment) z.nonce_size)
      ∙ take-append 16 salt commitment z.salt_size

  header_commitment : slice 33 65 (header nonce salt commitment) ≡ commitment
  unfolding header
  header_commitment =
      ap (take 32) (
        sym (drop-drop 12 16 (nonce ++ (salt ++ commitment)))
        ∙ ap (drop 16) (drop-append 12 nonce (salt ++ commitment) z.nonce_size)
        ∙ drop-append 16 salt commitment z.salt_size)
      ∙ take-all 32 commitment (omega (arith, z.commitment_size))

  module _ (c : Bytes) where
    envelope_head : take 65 (envelope nonce salt commitment c) ≡ header nonce salt commitment
    unfolding envelope
    envelope_head = take-append 65 (header nonce salt commitment) _ length-header

    envelope_tail : drop 65 (envelope nonce salt commitment c) ≡ big_endian 4 (length c) ++ c
    unfolding envelope
    envelope_tail = drop-append 65 (header nonce salt commitment) _ length-header

    envelope_ctlen : slice 65 69 (envelope nonce salt commitment c) ≡ big_endian 4 (length c)
    envelope_ctlen =
        ap (take 4) envelope_tail
        ∙ take-append 4 (big_endian 4 (length c)) c (length-big_endian 4 (length c))

    envelope_body : drop 69 (envelope nonce salt commitment c) ≡ c
    envelope_body =
        sym (drop-drop 65 4 (envelope nonce salt commitment c))
        ∙ ap (drop 4) envelope_tail
        ∙ drop-append 4 (big_endian 4 (length c)) c (length-big_endian 4 (length c))

    -- Every envelope is 69 bytes longer than its ciphertext.
    pub length-envelope : length (envelope nonce salt commitment c) ≡ length c + 69
    unfolding envelope
    length-envelope = omega (
      arith,
      length-append (header nonce salt commitment) (big_endian 4 (length c) ++ c),
      length-append (big_endian 4 (length c)) c,
      length-big_endian 4 (length c),
      length-header,
    )

    unpack-envelope : unpack (envelope nonce salt commitment c) ≡ fields_of nonce salt commitment c
    unfolding unpack
    unpack-envelope = rw (
      envelope_head, envelope_body, header-magic, header-version, header_nonce, header_salt,
      header_commitment,
    )

    -- The parser reads back the fields that an envelope was made of, if they have the sizes of the
    -- header and the ciphertext between 16 and 2 ^ 32 - 1 bytes.
    pub parse_bytes-envelope :
        16 ≤ length c
        → length c < 2 ^ 32
        → parse_bytes (envelope nonce salt commitment c) ≡ ok (fields_of nonce salt commitment c)
    unfolding parse_bytes
    parse_bytes-envelope h k = rw (
      unpack-envelope,
      list_eq_refl magic,
      envelope_ctlen,
      from_bytes-big_endian 4 (length c) k,
      le→ltb (length (envelope nonce salt commitment c)) 69 (omega (arith, length-envelope)),
      ==-refl (length c),
      le→ltb (length c) 16 h,
    )
