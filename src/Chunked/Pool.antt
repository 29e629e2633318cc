-- ===== src/Chunked/Pool.antt =====
-- Containers put together from sealed segments: reordering, dropping and splicing.
use sce.Base.{
  ℕ, ◌+◌, ◌≡◌, ◌⊎◌, inl, inr, refl, sym, ◌∙◌, ap, List, [], ◌∷◌, map, length, length-map,
}
use mathlib.Core.Path.{ap₂}
use sce.Error.{ok}
use sce.Value.{Bytes, Value, ModelManifest, bytes, model_manifest}
use sce.Library.{Primitives, Documented}
use sce.Manifest.Construct.{IsManifest}
use sce.Seal.{require_state, seal_state}
use sce.Seal.Binding.{KnownBreak}
use sce.Stream.{StreamHeader, join}
use sce.Chunked.Accepts.{IsContainer}
use sce.Chunked.Frames.{Frames}
use sce.Chunked.Splice.{within, position, SamePlace, segment-fails_closed}

-- A segment that was sealed: under what, in which place of which stream, and what it holds.
pub record Place : Type 0 where
  pub manifest : ModelManifest
  pub secret : Value
  pub epoch : Value
  pub user : Bytes
  pub header : StreamHeader
  pub index : ℕ
  pub plaintext : Bytes

-- The envelope of a segment that was sealed in a place.
pub record Origin (p : Primitives) (x : Place) (env : Bytes) : Type 0 where
  pub calls : ℕ
  pub state : Value
  pub count : Value
  pub ctx : Bytes
  pub after : ℕ
  pub valid : IsManifest p x.manifest
  pub is_state : require_state state ≡ ok x.plaintext
  pub in_context : position x.user x.header x.index ≡ ok ctx
  pub run :
      seal_state p calls state (model_manifest x.manifest) x.secret x.epoch (bytes ctx) count
      ≡ ok (env, after)

-- The places are those of the stream that is opened, from place `j` on, in order.
abbrev pub InOrder : Bytes → StreamHeader → List Place → ℕ → Type 0
InOrder user g [] j = Unit
InOrder user g (x ∷ xs) j = SamePlace x.user x.header x.index user g j × InOrder user g xs (j + 1)

module _ (p : Primitives) (m : ModelManifest) (secret epoch : Value) (user : Bytes)
    (g : StreamHeader) where
  -- Each frame's envelope was sealed in the place beside it.
  abbrev pub FromPool :
      (parts : List Bytes) (j : ℕ) (todo rest : Bytes)
      → Frames p (model_manifest m) secret epoch user g parts j todo rest
      → List Place
      → Type 0
  FromPool [] j todo rest h [] = Unit
  FromPool [] j todo rest h (x ∷ xs) = ⊥
  FromPool (t ∷ parts) j todo rest h [] = ⊥
  FromPool (t ∷ parts) j todo rest (env, ctx, more, q, others) (x ∷ xs) =
      Origin p x env × FromPool parts (j + 1) more rest others xs

  -- A break of a primitive at what sealing the envelope of one of the frames in the place beside it
  -- and opening it have computed.
  abbrev pub PoolBreak :
      (parts : List Bytes) (j : ℕ) (todo rest : Bytes)
      → Frames p (model_manifest m) secret epoch user g parts j todo rest
      → List Place
      → Type 0
  PoolBreak [] j todo rest h xs = ⊥
  PoolBreak (t ∷ parts) j todo rest h [] = ⊥
  PoolBreak (t ∷ parts) j todo rest (env, ctx, more, q, others) (x ∷ xs) =
      ((c : Bytes) × (position x.user x.header x.index ≡ ok c)
        × KnownBreak p (bytes env) (within x.manifest x.secret x.epoch c)
            (within m secret epoch ctx))
      ⊎ PoolBreak parts (j + 1) more rest others xs

  module _ (d : Documented p) (valid : IsManifest p m) where
    pool-InOrder :
        (parts : List Bytes) (j : ℕ) (todo rest : Bytes)
        (h : Frames p (model_manifest m) secret epoch user g parts j todo rest) (xs : List Place)
        → FromPool parts j todo rest h xs
        → (InOrder user g xs j × (map (λ (x : Place). x.plaintext) xs ≡ parts))
          ⊎ PoolBreak parts j todo rest h xs
    pool-InOrder [] j todo rest h [] o = inl (tt, refl)
    pool-InOrder [] j todo rest h (x ∷ xs) o = absurd o
    pool-InOrder (t ∷ parts) j todo rest h [] o = absurd o
    pool-InOrder (t ∷ parts) j todo rest (env, ctx, more, q, others) (x ∷ xs) (o, os) =
        elim (segment-fails_closed p d o.calls o.state o.count x.manifest m x.secret x.epoch secret
          epoch x.user user x.header g x.index j o.valid valid o.is_state o.in_context q.in_context
          o.run q.opens) [
            | inr broken ↦ inr (inl (o.ctx, o.in_context, broken))
            | inl (place, same, plain) ↦ elim (pool-InOrder parts (j + 1) more rest others xs os) [
              | inr broken ↦ inr (inr broken)
              | inl (order, texts) ↦ inl ((place, order), ap₂ (λ a b. a ∷ b) plain texts)
            ]
          ]

-- If the envelopes of a container that opens under a constructed manifest were sealed as segments,
-- each in any place of any stream, then they are, in order, all the segments of one stream, with the
-- header of the container and the caller's context that it is opened with, and the plaintext is
-- theirs in this order, or a primitive is broken at what sealing
-- one of these envelopes and opening it computed, with primitives as documented.
pub FromPool-InOrder :
    (p : Primitives)
    → Documented p
    → (m : ModelManifest) (secret epoch : Value) (user container t : Bytes) → IsManifest p m
    → (z : IsContainer p (model_manifest m) secret epoch user container t) (xs : List Place)
    → FromPool p m secret epoch user z.f z.parts 0 z.body [] z.frames xs
    → (InOrder user z.f xs 0
        × (length xs ≡ z.f.num_segments)
        × (t ≡ join (map (λ (x : Place). x.plaintext) xs)))
      ⊎ PoolBreak p m secret epoch user z.f z.parts 0 z.body [] z.frames xs
FromPool-InOrder p d m secret epoch user container t valid z xs h =
    elim (pool-InOrder p m secret epoch user z.f d valid z.parts 0 z.body [] z.frames xs h) [
      | inr broken ↦ inr broken
      | inl (order, texts) ↦ inl (
        order,
        sym (length-map (λ (x : Place). x.plaintext) xs) ∙ ap length texts ∙ z.counted,
        z.joined ∙ ap join (sym texts),
      )
    ]
