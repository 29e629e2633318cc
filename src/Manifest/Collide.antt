-- ===== src/Manifest/Collide.antt =====
-- Keys of `extra` that the collision check of `__post_init__` in sce/core.py refuses.
use sce.Base.{◌≡◌, true, false, inl, inr, List, [], ◌∷◌, ◌++◌, arith, map, Bool-cases}
use sce.Error.{raise, sce_error, extra_keys_collide}
use sce.Value.{Text}
use sce.Library.{Primitives}
use sce.Manifest.{mem_text, check_keys}
use sce.Manifest.Keys.{mem_text-cons, mem_text_self}

-- The keys of entries, which the message on a collision names one of.
abbrev pub keys_of : List (Text × Text) → List Text
keys_of l = map (λ (e : Text × Text). e.0) l

module _ (p : Primitives) where
  open p use {nfc}

  -- The check ends in a collision at a key of the entries.
  abbrev pub Collides : List Text → List (Text × Text) → Type 0
  Collides seen l =
      (key : Text) × (mem_text key (keys_of l) ≡ true)
      × (check_keys p seen l ≡ raise (sce_error (extra_keys_collide key)))

  Collides-cons :
      (seen : List Text) (k v : Text) (l : List (Text × Text))
      → (mem_text (nfc k) seen ≡ false → Collides (nfc k ∷ seen) l)
      → Collides seen ((k, v) ∷ l)
  unfolding check_keys
  Collides-cons seen k v l rest = elim (Bool-cases (mem_text (nfc k) seen)) [
    | inl old ↦ (k, mem_text_self k (keys_of l), rw old)
    | inr new ↦
        let (key, named, run) = rest new in
        (key, mem_text-cons key k (keys_of l) named, rw (new, run))
  ]

  check_keys-seen :
      (seen : List Text) (b c : List (Text × Text)) (j w : Text)
      → mem_text (nfc j) seen ≡ true
      → Collides seen (b ++ ((j, w) ∷ c))
  check_keys-seen seen [] c j w h = Collides-cons seen j w c (λ new. absurd (ground arith))
  check_keys-seen seen ((i, u) ∷ b) c j w h =
      Collides-cons seen i u (b ++ ((j, w) ∷ c))
        (λ new. check_keys-seen (nfc i ∷ seen) b c j w (mem_text-cons (nfc j) (nfc i) seen h))

  pub check_keys-collide :
      (seen : List Text) (a b c : List (Text × Text)) (k v j w : Text)
      → nfc k ≡ nfc j
      → Collides seen (a ++ ((k, v) ∷ (b ++ ((j, w) ∷ c))))
  check_keys-collide seen [] b c k v j w e =
      Collides-cons seen k v (b ++ ((j, w) ∷ c))
        (λ new. check_keys-seen (nfc k ∷ seen) b c j w (rw e (mem_text_self (nfc j) seen)))
  check_keys-collide seen ((i, u) ∷ a) b c k v j w e =
      Collides-cons seen i u (a ++ ((k, v) ∷ (b ++ ((j, w) ∷ c))))
        (λ new. check_keys-collide (nfc i ∷ seen) a b c k v j w e)
