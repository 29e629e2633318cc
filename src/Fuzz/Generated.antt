-- ===== src/Fuzz/Generated.antt =====
-- The inputs that the driver of fuzz/fuzz_envelope.py makes.
use sce.Base.{
  ℕ, zero, suc, ◌+◌, ◌-◌, ◌*◌, ◌≤◌, ◌<◌, ◌≡◌, refl, List, [], ◌∷◌, ◌++◌, arith, All, All-append,
  All-take, length, length-append, length-take, ltb, ◌==◌, ◌&&◌, Bool, true, false, if◌then◌else◌,
}
use sce.Value.{Bytes}
use sce.Bytes.{IsBytes}
use sce.Library.Random.{Random, RandomLaws, randrange}
use sce.Fuzz.Driver.{
  flip_bit, update_at, swap_at, choose, random_bytes, apply_op, mutate_rounds, mutate, generate,
}

-- A string of bytes of a bounded length.
pub record Small (n : ℕ) (b : Bytes) : Type 0 where
  pub octets : IsBytes b
  pub bounded : length b ≤ n

pub flip_bit-lt : (bit x : ℕ) → bit < 8 → x < 256 → flip_bit bit x < 256
unfolding flip_bit
flip_bit-lt zero x hb hx = ground arith
flip_bit-lt (suc zero) x hb hx = ground arith
flip_bit-lt (suc (suc zero)) x hb hx = ground arith
flip_bit-lt (suc (suc (suc zero))) x hb hx = ground arith
flip_bit-lt (suc (suc (suc (suc zero)))) x hb hx = ground arith
flip_bit-lt (suc (suc (suc (suc (suc zero))))) x hb hx = ground arith
flip_bit-lt (suc (suc (suc (suc (suc (suc zero)))))) x hb hx = ground arith
flip_bit-lt (suc (suc (suc (suc (suc (suc (suc zero))))))) x hb hx = ground arith
flip_bit-lt (suc (suc (suc (suc (suc (suc (suc (suc b)))))))) x hb hx = absurd (omega arith)

pub update_at-IsBytes :
    (f : ℕ → ℕ) (i : ℕ) (b : Bytes)
    → ((x : ℕ) → x < 256 → f x < 256)
    → IsBytes b
    → IsBytes (update_at f i b)
unfolding update_at
update_at-IsBytes f i [] hf h = tt
update_at-IsBytes f zero (x ∷ b) hf h = (hf x h.0, h.1)
update_at-IsBytes f (suc i) (x ∷ b) hf h = (h.0, update_at-IsBytes f i b hf h.1)

pub length-update_at : (f : ℕ → ℕ) (i : ℕ) (b : Bytes) → length (update_at f i b) ≡ length b
unfolding update_at
length-update_at f i [] = refl
length-update_at f zero (x ∷ b) = refl
length-update_at f (suc i) (x ∷ b) = omega (arith, length-update_at f i b)

swap_at-IsBytes : (i : ℕ) (b : Bytes) → IsBytes b → IsBytes (swap_at i b)
unfolding swap_at
swap_at-IsBytes i [] h = tt
swap_at-IsBytes i (x ∷ []) h = h
swap_at-IsBytes zero (x ∷ y ∷ b) h = (h.1.0, (h.0, h.1.1))
swap_at-IsBytes (suc i) (x ∷ y ∷ b) h = (h.0, swap_at-IsBytes i (y ∷ b) h.1)

length-swap_at : (i : ℕ) (b : Bytes) → length (swap_at i b) ≡ length b
unfolding swap_at
length-swap_at i [] = refl
length-swap_at i (x ∷ []) = refl
length-swap_at zero (x ∷ y ∷ b) = refl
length-swap_at (suc i) (x ∷ y ∷ b) = omega (arith, length-swap_at i (y ∷ b))

choose-Small : (n : ℕ) (bs : List Bytes) (i : ℕ) → All (Small n) bs → Small n (choose bs i)
unfolding choose
choose-Small n [] i h = record { octets = tt; bounded = omega arith }
choose-Small n (b ∷ bs) zero h = h.0
choose-Small n (b ∷ bs) (suc i) h = choose-Small n bs i h.1

cons-Small : (n m b : ℕ) (t : Bytes) → n < m → b < 256 → Small n t → Small m (b ∷ t)
cons-Small n m b t le hb h = record { octets = (hb, h.octets); bounded = omega (arith, h.bounded) }

module _ {State : Type 0} (rng : Random State) (laws : RandomLaws rng) where
  randrange-lt : (lo hi : ℕ) (s : State) → lo < hi → (randrange rng lo hi s).0 < hi
  randrange-lt lo hi s h = omega (arith, laws.below_lt (hi - lo) s (omega arith))

  random_bytes-Small : (n : ℕ) (s : State) → Small n (random_bytes rng n s).0
  unfolding random_bytes
  random_bytes-Small zero s = record { octets = tt; bounded = omega arith }
  random_bytes-Small (suc n) s =
      let rest = random_bytes-Small n (randrange rng 0 256 s).1 in
      record {
        octets = (randrange-lt 0 256 s (omega arith), rest.octets);
        bounded = omega (arith, rest.bounded);
      }

  if-Small :
      (n : ℕ) (b : Bool) (x y : Bytes × State)
      → Small n x.0
      → Small n y.0
      → Small n (if b then x else y).0
  if-Small n true x y hx hy = hx
  if-Small n false x y hx hy = hy

  update_at-Small :
      (n : ℕ) (f : ℕ → ℕ) (i : ℕ) (out : Bytes)
      → ((x : ℕ) → x < 256 → f x < 256)
      → Small n out
      → Small (n + 15) (update_at f i out)
  update_at-Small n f i out hf h = record {
    octets = update_at-IsBytes f i out hf h.octets;
    bounded = omega (arith, length-update_at f i out, h.bounded);
  }

  append-Small :
      (n k : ℕ) (out : Bytes) (s : State)
      → k < 16
      → Small n out
      → Small (n + 15) (out ++ (random_bytes rng k s).0)
  append-Small n k out s hk h =
      let more = random_bytes-Small k s in
      record {
        octets = All-append _ out (random_bytes rng k s).0 h.octets more.octets;
        bounded =
            omega (arith, length-append out (random_bytes rng k s).0, more.bounded, h.bounded);
      }

  -- An operation adds at most 15 bytes.
  apply_op-Small :
      (op n : ℕ) (out : Bytes) (s : State) → Small n out → Small (n + 15) (apply_op rng op out s).0
  unfolding apply_op
  apply_op-Small op n out s h =
      if-Small (n + 15) (op == 0 && ltb 0 (length out)) _ _
        (update_at-Small n (flip_bit (randrange rng 0 8 (randrange rng 0 (length out) s).1).0) _ out
          (λ x hx. flip_bit-lt _ x (randrange-lt 0 8 _ (omega arith)) hx) h)
        (if-Small (n + 15) (op == 1 && ltb 0 (length out)) _ _
          (update_at-Small n (λ b. (randrange rng 0 256 s).0) _ out
            (λ x hx. randrange-lt 0 256 s (omega arith)) h)
          (if-Small (n + 15) (op == 2 && ltb 1 (length out)) _ _
            (record {
              octets = All-take _ _ out h.octets;
              bounded =
                  omega (arith, length-take (randrange rng 0 (length out) s).0 out, h.bounded);
            })
            (if-Small (n + 15) (op == 3) _ _
              (append-Small n (randrange rng 1 16 s).0 out (randrange rng 1 16 s).1
                (randrange-lt 1 16 s (omega arith)) h)
              (if-Small (n + 15) (op == 4 && ltb 2 (length out)) _ _
                (record {
                  octets = swap_at-IsBytes _ out h.octets;
                  bounded =
                      omega (
                        arith,
                        length-swap_at (randrange rng 0 (length out - 1) s).0 out,
                        h.bounded,
                      );
                })
                (record { octets = h.octets; bounded = omega (arith, h.bounded) })))))

  mutate_rounds-Small :
      (k n : ℕ) (out : Bytes) (s : State)
      → Small n out
      → Small (n + 15 * k) (mutate_rounds rng k out s).0
  unfolding mutate_rounds
  mutate_rounds-Small zero n out s h = record {
    octets = h.octets;
    bounded = omega (arith, h.bounded);
  }
  mutate_rounds-Small (suc k) n out s h =
      let one = apply_op-Small (randrange rng 0 5 s).0 n out (randrange rng 0 5 s).1 h in
      let rest =
        mutate_rounds-Small k (n + 15) _
          (apply_op rng (randrange rng 0 5 s).0 out (randrange rng 0 5 s).1).1 one in
      record { octets = rest.octets; bounded = omega (arith, rest.bounded) }

  mutate-Small :
      (n : ℕ) (base : Bytes) (s : State) → Small n base → Small (n + 60) (mutate rng base s).0
  unfolding mutate
  mutate-Small n base s h =
      let rounds = mutate_rounds-Small (randrange rng 1 5 s).0 n base (randrange rng 1 5 s).1 h in
      record {
        octets = rounds.octets;
        bounded = omega (arith, rounds.bounded, randrange-lt 1 5 s (omega arith));
      }

  Small-weaken : (n m : ℕ) (b : Bytes) → n ≤ m → Small n b → Small m b
  Small-weaken n m b le h = record { octets = h.octets; bounded = omega (arith, h.bounded) }

  generate_from-Small :
      (n : ℕ) (bases : List Bytes) (s : State)
      → 139 ≤ n
      → All (Small n) bases
      → Small (n + 61) (generate rng bases s).0
  unfolding generate
  generate_from-Small n bases s big h =
      let s₁ = (rng.random s).1 in
      if-Small (n + 61) (ltb (rng.random s).0 2702159776422298) _ _
        (Small-weaken (randrange rng 0 200 s₁).0 (n + 61) _
          (omega (arith, randrange-lt 0 200 s₁ (omega arith)))
          (random_bytes-Small (randrange rng 0 200 s₁).0 (randrange rng 0 200 s₁).1))
        (if-Small (n + 61) (ltb (rng.random s).0 4953959590107546) _ _
          (cons-Small (n + 60) (n + 61) _ _ (omega arith) (randrange-lt 0 256 s₁ (omega arith)) (
            let s₂ = (randrange rng 0 256 s₁).1 in
            let tail = random_bytes-Small (randrange rng 0 120 s₂).0 (randrange rng 0 120 s₂).1 in
            record {
              octets = (omega arith, (omega arith, (omega arith, (omega arith, tail.octets))));
              bounded = omega (arith, randrange-lt 0 120 s₂ (omega arith), tail.bounded);
            }))
          (cons-Small (n + 60) (n + 61) _ _ (omega arith) (randrange-lt 0 256 s₁ (omega arith))
            (mutate-Small n _ _ (choose-Small n bases _ h))))

  All-Small-weaken :
      (n m : ℕ) (bases : List Bytes) → n ≤ m → All (Small n) bases → All (Small m) bases
  All-Small-weaken n m [] le h = tt
  All-Small-weaken n m (b ∷ bases) le h =
      (Small-weaken n m b le h.0, All-Small-weaken n m bases le h.1)

  -- An input that is generated from artefacts of bytes, whatever is drawn in the documented range, is
  -- a string of bytes, of a length of at most 200 or at most 61 more than the longest artefact,
  -- whichever is more.
  pub generate-Small :
      (n m : ℕ) (bases : List Bytes) (s : State)
      → 200 ≤ m
      → n + 61 ≤ m
      → All (Small n) bases
      → Small m (generate rng bases s).0
  generate-Small n m bases s least fits h = Small-weaken (m - 61 + 61) m _ (omega arith) (
      generate_from-Small (m - 61) bases s (omega arith)
        (All-Small-weaken n (m - 61) bases (omega arith) h))
