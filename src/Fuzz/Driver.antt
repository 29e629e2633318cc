-- ===== src/Fuzz/Driver.antt =====
-- The driver of fuzz/fuzz_envelope.py: the mutations, the generated inputs and the loops of `main`.
use sce.Base.{
  ℕ, zero, suc, ◌+◌, ◌-◌, ◌/◌, ◌%◌, ◌^◌, List, [], ◌∷◌, ◌++◌, ◌&&◌, ltb, leb, ◌==◌, drop,
  if◌then◌else◌, length, take, replicate, codes,
}
use sce.Error.{Result, ok, ◌>>=◌}
use sce.Value.{Bytes, Value, ModelManifest, ℤ, pos, negsuc, int, bytes, model_manifest}
use sce.Library.{Primitives}
use sce.Library.Random.{Random, randrange}
use sce.Seal.{max_state, seal_state}
use sce.Chunked.{seal_state_chunked}
use sce.Fuzz.Corpus.{CorpusFile, load_corpus}
use sce.Fuzz.{returned, master, entry_points, target_manifest, test_one_input}

-- `x ^ (1 << bit)`
unfoldable pub flip_bit : ℕ → ℕ → ℕ
flip_bit bit x = if x / 2 ^ bit % 2 == 1 then x - 2 ^ bit else x + 2 ^ bit

-- `out[i] = f(out[i])`
unfoldable pub update_at : (ℕ → ℕ) → ℕ → Bytes → Bytes
update_at f i [] = []
update_at f zero (b ∷ bs) = f b ∷ bs
update_at f (suc i) (b ∷ bs) = b ∷ update_at f i bs

-- `out[i], out[i + 1] = out[i + 1], out[i]`
unfoldable pub swap_at : ℕ → Bytes → Bytes
swap_at i [] = []
swap_at i (a ∷ []) = a ∷ []
swap_at zero (a ∷ b ∷ bs) = b ∷ a ∷ bs
swap_at (suc i) (a ∷ b ∷ bs) = a ∷ swap_at i (b ∷ bs)

-- The element of `rng.choice(bases)` at the place drawn; the list is not empty.
unfoldable pub choose : List Bytes → ℕ → Bytes
choose [] i = []
choose (b ∷ bs) zero = b
choose (b ∷ bs) (suc i) = choose bs i

module _ {State : Type 0} (rng : Random State) where
  -- `bytes(rng.randrange(256) for _ in range(n))`
  unfoldable pub random_bytes : ℕ → State → Bytes × State
  random_bytes zero s = ([], s)
  random_bytes (suc n) s =
      let (b, s₁) = randrange rng 0 256 s in let (bs, s₂) = random_bytes n s₁ in (b ∷ bs, s₂)

  -- The body of the loop of `mutate`, for the operation drawn. The value that is assigned is drawn
  -- before the place, and the place that is flipped before the bit.
  unfoldable pub apply_op : ℕ → Bytes → State → Bytes × State
  unfolding flip_bit update_at swap_at random_bytes
  apply_op op out s =
      if op == 0 && ltb 0 (length out)
      then (let (i, s₁) = randrange rng 0 (length out) s in
          let (bit, s₂) = randrange rng 0 8 s₁ in (update_at (flip_bit bit) i out, s₂))
      else if op == 1 && ltb 0 (length out)
      then (let (value, s₁) = randrange rng 0 256 s in
          let (i, s₂) = randrange rng 0 (length out) s₁ in (update_at (λ b. value) i out, s₂))
      else if op == 2 && ltb 1 (length out)
      then (let (i, s₁) = randrange rng 0 (length out) s in (take i out, s₁))
      else if op == 3
      then (let (n, s₁) = randrange rng 1 16 s in
          let (more, s₂) = random_bytes n s₁ in (out ++ more, s₂))
      else if op == 4 && ltb 2 (length out)
      then (let (i, s₁) = randrange rng 0 (length out - 1) s in (swap_at i out, s₁))
      else (out, s)

  unfoldable pub mutate_rounds : ℕ → Bytes → State → Bytes × State
  mutate_rounds zero out s = (out, s)
  mutate_rounds (suc k) out s =
      let (op, s₁) = randrange rng 0 5 s in
      let (next, s₂) = apply_op op out s₁ in mutate_rounds k next s₂

  -- `mutate`
  unfoldable pub mutate : Bytes → State → Bytes × State
  mutate base s = let (k, s₁) = randrange rng 1 5 s in mutate_rounds k base s₁

  -- An input of the second loop of `main`. The bounds 0.30 and 0.55 are those of the doubles.
  unfoldable pub generate : List Bytes → State → Bytes × State
  generate bases s =
      let (r, s₁) = rng.random s in
      if ltb r 2702159776422298
      then (let (n, s₂) = randrange rng 0 200 s₁ in random_bytes n s₂)
      else if ltb r 4953959590107546
      then (let (selector, s₂) = randrange rng 0 256 s₁ in
          let (n, s₃) = randrange rng 0 120 s₂ in
          let (tail, s₄) = random_bytes n s₃ in (selector ∷ (codes "SCE4" ++ tail), s₄))
      else (let (selector, s₂) = randrange rng 0 256 s₁ in
          let (i, s₃) = rng.below (length bases) s₂ in
          let (tail, s₄) = mutate (choose bases i) s₃ in (selector ∷ tail, s₄))

-- The calls of `os.urandom` after `TestOneInput`: its round trip seals once, which draws twice if
-- the body passes the check of its length; the other arguments always pass the checks before.
unfoldable pub calls_after : ℕ → Bytes → ℕ
calls_after calls [] = calls
calls_after calls (d ∷ payload) =
    if d % entry_points == 5 && leb (length (drop 6 payload)) max_state then calls + 2 else calls

-- How a loop of `main` ends: after its last input, or at one that `TestOneInput` fails on.
pub data LoopEnd : Type 0 where
  passed : ℕ → LoopEnd
  failed_at : Bytes → LoopEnd

module _ (p : Primitives) (manifest : ModelManifest) where
  -- `seeds_for_generation`
  unfoldable pub seeds_for_generation : ℕ → Result (List Bytes × ℕ)
  seeds_for_generation calls = do
    let m = model_manifest manifest
    a ← seal_state p calls (bytes (codes "seed-state")) m master (int (pos 0)) (bytes []) Value.none
    b ← seal_state p a.1 (bytes []) m master (int (pos 7)) (bytes (codes "ctx")) Value.none
    c ←
        seal_state_chunked p b.1 (bytes (replicate 40 65)) m master (int (pos 0)) (bytes [])
          (int (pos 8))
    ok (a.0 ∷ b.0 ∷ c.0 ∷ [], c.1)

  -- The first loop of `main`.
  unfoldable pub replay_corpus : ℕ → List Bytes → LoopEnd
  replay_corpus calls [] = passed calls
  replay_corpus calls (blob ∷ rest) = elim (test_one_input p manifest calls blob) [
    | returned ↦ replay_corpus (calls_after calls blob) rest
    | _ ↦ failed_at blob
  ]

  -- The second loop of `main`.
  unfoldable pub fuzz_runs : {State : Type 0} → Random State → List Bytes → ℕ → ℕ → State → LoopEnd
  fuzz_runs rng bases zero calls s = passed calls
  fuzz_runs rng bases (suc runs) calls s =
      let (blob, next) = generate rng bases s in
      elim (test_one_input p manifest calls blob) [
        | returned ↦ fuzz_runs rng bases runs (calls_after calls blob) next
        | _ ↦ failed_at blob
      ]

-- `range(args.runs)` has no element for a negative number.
unfoldable pub runs_of : ℤ → ℕ
runs_of (pos n) = n
runs_of (negsuc n) = 0

-- `main` with its arguments, the file of the corpus, and the count of the calls of `os.urandom`: the
-- exit code.
unfoldable pub main :
    {State : Type 0} → Primitives → Random State → ℤ → ℤ → CorpusFile → ℕ → Result ℕ
main p rng runs seed file calls = do
  m ← target_manifest p
  corpus ← load_corpus file
  elim (replay_corpus p m calls corpus) [
    | failed_at blob ↦ ok 1
    | passed n ↦ (do
      bases ← seeds_for_generation p m n
      elim (fuzz_runs p m rng bases.0 (runs_of runs) bases.1 (rng.seeded seed)) [
        | failed_at blob ↦ ok 1
        | passed n ↦ ok 0
      ])
  ]
