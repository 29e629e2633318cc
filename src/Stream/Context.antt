-- ===== src/Stream/Context.antt =====
-- The context of a segment, `_seg_context` of sce/stream.py.
use sce.Base.{
  ℕ, ◌≤◌, ◌<◌, ◌+◌, ◌^◌, ◌≡◌, refl, sym, ◌∙◌, ◌++◌, length, length-append, append-cut, arith,
}
use sce.Error.{ok, ok-injective, >>=-eq-ok}
use sce.Value.{Bytes}
use sce.Bytes.{max_lp_field, big_endian, to_bytes, stream_lp}
use sce.Bytes.Laws.{
  stream_lp-eq-ok, to_bytes-ok, to_bytes-eq-ok, length-big_endian, big_endian-injective, prefix-cut,
}
use sce.Stream.{stream_domain, seg_context}

abbrev pub prefixed : Bytes → Bytes
prefixed b = big_endian 4 (length b) ++ b

-- The layout of a context.
abbrev pub context_of : Bytes → Bytes → ℕ → ℕ → ℕ → ℕ → Bytes
context_of user id i n t z =
    stream_domain
    ++ (prefixed user
        ++ (prefixed id
            ++ (big_endian 8 i ++ (big_endian 8 n ++ (big_endian 8 t ++ big_endian 8 z)))))

-- The fields of a context that was encoded, and its bytes.
pub record InContext (user id : Bytes) (i n t z : ℕ) (b : Bytes) : Type 0 where
  pub user_size : length user ≤ max_lp_field
  pub id_size : length id ≤ max_lp_field
  pub index : i < 256 ^ 8
  pub count : n < 256 ^ 8
  pub total : t < 256 ^ 8
  pub segment : z < 256 ^ 8
  pub bytes : b ≡ context_of user id i n t z

pub seg_context-InContext :
    (user id : Bytes) (i n t z : ℕ) {b : Bytes}
    → seg_context user id i n t z ≡ ok b
    → InContext user id i n t z b
unfolding seg_context
seg_context-InContext user id i n t z h =
    let (u, hu, h₁) = >>=-eq-ok (stream_lp user) _ h in
    let (s, hs, h₂) = >>=-eq-ok (stream_lp id) _ h₁ in
    let (bi, hi, h₃) = >>=-eq-ok (to_bytes 8 i) _ h₂ in
    let (bn, hn, h₄) = >>=-eq-ok (to_bytes 8 n) _ h₃ in
    let (bt, ht, h₅) = >>=-eq-ok (to_bytes 8 t) _ h₄ in
    let (bz, hz, h₆) = >>=-eq-ok (to_bytes 8 z) _ h₅ in
    let (user_size, eu) = stream_lp-eq-ok user hu in
    let (id_size, es) = stream_lp-eq-ok id hs in
    let (index, ei) = to_bytes-eq-ok 8 i hi in
    let (count, en) = to_bytes-eq-ok 8 n hn in
    let (total, et) = to_bytes-eq-ok 8 t ht in
    let (segment, ez) = to_bytes-eq-ok 8 z hz in
    record {
      user_size = user_size;
      id_size = id_size;
      index = index;
      count = count;
      total = total;
      segment = segment;
      bytes =
          sym (ok-injective h₆)
          ∙ (λ k. stream_domain ++ (eu k ++ (es k ++ (ei k ++ (en k ++ (et k ++ ez k))))));
    }

pub fixed-cut :
    (n m : ℕ) {r s : Bytes}
    → n < 256 ^ 8
    → m < 256 ^ 8
    → big_endian 8 n ++ r ≡ big_endian 8 m ++ s
    → (n ≡ m) × (r ≡ s)
fixed-cut n m hn hm e =
    let (a, b) =
      append-cut (big_endian 8 n) (big_endian 8 m)
        (length-big_endian 8 n ∙ sym (length-big_endian 8 m)) e in
    (big_endian-injective 8 n m hn hm a, b)

-- What a context says of its segment.
pub record SamePosition (user id user' id' : Bytes) (i n t z i' n' t' z' : ℕ) : Type 0 where
  pub same_user : user ≡ user'
  pub same_id : id ≡ id'
  pub same_index : i ≡ i'
  pub same_count : n ≡ n'
  pub same_total : t ≡ t'
  pub same_segment : z ≡ z'

-- Two segments with the same context bytes have the same caller's context, stream id, index,
-- number of segments, total length and segment size.
pub seg_context-injective :
    (user id user' id' : Bytes) (i n t z i' n' t' z' : ℕ) {b : Bytes}
    → seg_context user id i n t z ≡ ok b
    → seg_context user' id' i' n' t' z' ≡ ok b
    → SamePosition user id user' id' i n t z i' n' t' z'
seg_context-injective user id user' id' i n t z i' n' t' z' h h' =
    let a = seg_context-InContext user id i n t z h in
    let b = seg_context-InContext user' id' i' n' t' z' h' in
    let (d, e₁) = append-cut stream_domain stream_domain refl (sym a.bytes ∙ b.bytes) in
    let (u, e₂) = prefix-cut user user' a.user_size b.user_size e₁ in
    let (s, e₃) = prefix-cut id id' a.id_size b.id_size e₂ in
    let (x, e₄) = fixed-cut i i' a.index b.index e₃ in
    let (y, e₅) = fixed-cut n n' a.count b.count e₄ in
    let (w, e₆) = fixed-cut t t' a.total b.total e₅ in
    record {
      same_user = u;
      same_id = s;
      same_index = x;
      same_count = y;
      same_total = w;
      same_segment = big_endian-injective 8 z z' a.segment b.segment e₆;
    }

-- Fields that fit have a context.
pub seg_context-ok :
    (user id : Bytes) (i n t z : ℕ)
    → length user ≤ max_lp_field
    → length id ≤ max_lp_field
    → i < 256 ^ 8
    → n < 256 ^ 8
    → t < 256 ^ 8
    → z < 256 ^ 8
    → (b : Bytes) × (seg_context user id i n t z ≡ ok b)
unfolding seg_context stream_lp
seg_context-ok user id i n t z hu hs hi hn ht hz = (
  context_of user id i n t z,
  rw (
    to_bytes-ok 4 (length user) (omega arith),
    to_bytes-ok 4 (length id) (omega arith),
    to_bytes-ok 8 i hi,
    to_bytes-ok 8 n hn,
    to_bytes-ok 8 t ht,
    to_bytes-ok 8 z hz,
  ),
)

-- A context adds its domain, two length prefixes and four integers to its two fields.
pub length-context_of :
    (user id : Bytes) (i n t z : ℕ)
    → length (context_of user id i n t z) ≡ length user + length id + 58
length-context_of user id i n t z = omega (
  arith,
  length-append (prefixed user)
      (prefixed id ++ (big_endian 8 i ++ (big_endian 8 n ++ (big_endian 8 t ++ big_endian 8 z)))),
  length-append (big_endian 4 (length user)) user,
  length-append (prefixed id)
      (big_endian 8 i ++ (big_endian 8 n ++ (big_endian 8 t ++ big_endian 8 z))),
  length-append (big_endian 4 (length id)) id,
  length-append (big_endian 8 i) (big_endian 8 n ++ (big_endian 8 t ++ big_endian 8 z)),
  length-append (big_endian 8 n) (big_endian 8 t ++ big_endian 8 z),
  length-append (big_endian 8 t) (big_endian 8 z),
  length-big_endian 4 (length user),
  length-big_endian 4 (length id),
  length-big_endian 8 i,
  length-big_endian 8 n,
  length-big_endian 8 t,
  length-big_endian 8 z,
)
