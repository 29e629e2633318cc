-- ===== src/Stream/Bounds.antt =====
-- The bounds of the segments in `seal_state_chunked` of sce/stream.py.
use sce.Base.{
  ℕ, zero, suc, ◌+◌, ◌-◌, ◌*◌, ◌≤◌, ◌<◌, ◌≡◌, refl, sym, ◌∙◌, min, List, [], ◌∷◌, ◌++◌, map, arith,
  ltb, ◌==◌, false, Bool-cases, length, take, drop, All, inl, inr, ltb→lt, ltb→le, le→ltb, lt→ltb,
  ==→eq, drop-drop, take-append-drop, length-drop, take-all,
}
use sce.Value.{Bytes}
use sce.Bytes.{slice}
use sce.Stream.{ranges, bounds, join}

-- The pieces of a state.
abbrev pub pieces : Bytes → List (ℕ × ℕ) → List Bytes
pieces s bs = map (λ (b : ℕ × ℕ). slice b.0 b.1 s) bs

drop-short : (n : ℕ) (s : Bytes) → length s ≤ n → drop n s ≡ []
drop-short zero [] h = refl
drop-short zero (x ∷ s) h = absurd (omega arith)
drop-short (suc n) [] h = refl
drop-short (suc n) (x ∷ s) h = drop-short n s (omega arith)

-- A piece that the end of the state cuts is what a full piece would be.
take-min :
    (o size : ℕ) (s : Bytes)
    → o < length s
    → take (min (o + size) (length s) - o) (drop o s) ≡ take size (drop o s)
take-min o size s h = elim (Bool-cases (ltb (length s) (o + size))) [
  | inl k ↦
      let cut : min (o + size) (length s) - o ≡ length s - o =
        omega (arith, ltb→lt (length s) (o + size) k) in
      rw cut (
        take-all (length s - o) (drop o s) (omega (arith, length-drop o s))
        ∙ sym (
            take-all size (drop o s)
              (omega (arith, length-drop o s, ltb→lt (length s) (o + size) k))))
  | inr k ↦
      let full : min (o + size) (length s) - o ≡ size =
        omega (arith, ltb→le (length s) (o + size) k) in
      rw full
]

one_fewer :
    (n size len : ℕ) → 1 ≤ n → 0 < size → n * size ≤ len + (size - 1) → (n - 1) * size ≤ len - 1
one_fewer zero size len h z k = absurd (omega arith)
one_fewer (suc n) size len h z k = let e : suc n - 1 ≡ n = omega arith in rw e (omega arith)

module _ (size : ℕ) (s : Bytes) where
  -- A piece of a segment's size within the state.
  abbrev pub InState : ℕ × ℕ → Type 0
  InState b = (b.0 ≤ b.1) × (b.1 ≤ length s) × (b.1 - b.0 ≤ size)

  -- What the bounds of a state's segments satisfy.
  pub record Covers (bs : List (ℕ × ℕ)) : Type 0 where
    pub joined : join (pieces s bs) ≡ s
    pub within : All InState bs
    pub nonempty : 1 ≤ length bs
    pub fewest : (length bs - 1) * size ≤ length s - 1

module _ (size : ℕ) (s : Bytes) (positive : 0 < size) where
  -- The fuel is enough: the ranges from `o` on reach the end of the state.
  join-ranges :
      (fuel o : ℕ)
      → length s ≤ o + fuel
      → join (pieces s (ranges fuel o (length s) size)) ≡ drop o s
  unfolding ranges join
  join-ranges zero o h = sym (drop-short o s (omega arith))
  join-ranges (suc fuel) o h = elim (Bool-cases (ltb o (length s))) [
    | inl k ↦
        rw
          (
            k,
            join-ranges fuel (o + size) (omega arith),
            take-min o size s (ltb→lt o (length s) k),
            ← drop-drop o size s,
          )
          (take-append-drop size (drop o s))
    | inr k ↦ rw k (sym (drop-short o s (ltb→le o (length s) k)))
  ]

  ranges-InState : (fuel o : ℕ) → All (InState size s) (ranges fuel o (length s) size)
  unfolding ranges
  ranges-InState zero o = tt
  ranges-InState (suc fuel) o = elim (Bool-cases (ltb o (length s))) [
    | inl k ↦ rw k (
      (omega (arith, ltb→lt o (length s) k), omega arith, omega arith),
      ranges-InState fuel (o + size),
    )
    | inr k ↦ rw k tt
  ]

  ranges_past : (fuel o : ℕ) → length s ≤ o → length (ranges fuel o (length s) size) ≡ 0
  unfolding ranges
  ranges_past zero o h = refl
  ranges_past (suc fuel) o h = rw (le→ltb o (length s) h) refl

  length-ranges :
      (fuel o : ℕ) → length (ranges fuel o (length s) size) * size ≤ length s - o + (size - 1)
  unfolding ranges
  length-ranges zero o = omega arith
  length-ranges (suc fuel) o = elim (Bool-cases (ltb o (length s))) [
    | inr k ↦ rw k (omega arith)
    | inl k ↦ elim (Bool-cases (ltb (o + size) (length s))) [
      | inl j ↦ rw k (omega (arith, length-ranges fuel (o + size), ltb→lt (o + size) (length s) j))
      | inr j ↦
          rw (k, ranges_past fuel (o + size) (ltb→le (o + size) (length s) j))
            (omega (arith, ltb→lt o (length s) k))
    ]
  ]

  nil_state : length s ≡ 0 → slice 0 0 s ++ [] ≡ s
  nil_state h = sym (drop-short 0 s (omega arith))

  not_zero : (length s == 0) ≡ false → 0 < length s
  not_zero h = ground arith

  started : (fuel : ℕ) → 0 < length s → 0 < fuel → 1 ≤ length (ranges fuel 0 (length s) size)
  unfolding ranges
  started zero h k = absurd (omega arith)
  started (suc fuel) h k = rw (lt→ltb 0 (length s) h) (omega arith)

  ranges-Covers : 0 < length s → Covers size s (ranges (length s) 0 (length s) size)
  ranges-Covers h = record {
    joined = join-ranges (length s) 0 (omega arith);
    within = ranges-InState (length s) 0;
    nonempty = started (length s) h h;
    fewest =
        one_fewer (length (ranges (length s) 0 (length s) size)) size (length s)
          (started (length s) h h) positive (omega (arith, length-ranges (length s) 0));
  }

  nil-Covers : length s ≡ 0 → Covers size s ((0, 0) ∷ [])
  unfolding join
  nil-Covers h = record {
    joined = nil_state h;
    within = ((omega arith, omega arith, omega arith), tt);
    nonempty = omega arith;
    fewest = omega arith;
  }

  -- For a positive segment size the pieces of a state, in order, are within it and no longer than
  -- the size, they join to the state, and they are as few as the size allows, but never none.
  pub bounds-Covers : Covers size s (bounds (length s) size)
  unfolding bounds
  bounds-Covers = elim (Bool-cases (length s == 0)) [
    | inl k ↦ rw k (nil-Covers (==→eq (length s) 0 k))
    | inr k ↦ rw k (ranges-Covers (not_zero k))
  ]
