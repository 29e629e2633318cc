-- ===== src/Manifest/Equality/Hash.antt =====
-- Equal manifests of sce/core.py, their fingerprints and their hashes.
use mathlib.Core.List.{Permᴰ}
use mathlib.Core.List.Permᴰ
use mathlib.Core.Path.{subst}
use sce.Base.{
  ◌≡◌, ◌≢◌, refl, sym, ◌∙◌, ap, true, false, inl, inr, ◌&&◌, Bool, Bool-cases, Option, some, List,
  [], ◌∷◌, ◌++◌, arith, All, length, list_eq, list_eq→eq, ◌==◌, ==→eq, length-append,
}
use sce.Error.{ok}
use sce.Value.{Bytes, Text, ModelManifest}
use sce.Library.{Primitives, Documented}
use sce.Manifest.{mem_text, check_keys}
use sce.Manifest.Keys.{mem_text-cons, mem_text_self, check_keys-cons}
use sce.Manifest.Normal.{normal_entry}
use sce.Manifest.Environment.{SameEnvironment}
use sce.Manifest.Construct.{IsManifest, memh-SameEnvironment}
use sce.Manifest.Equality.{get, has_value, items_in, mapping_eq, manifest_eq, manifest_hash}

abbrev Entries : Type 0
Entries = List (Text × Text)

-- A key that is not among those of a mapping, and a mapping whose keys differ.
abbrev IsFresh : Text → Entries → Type 0
IsFresh k = All (λ (y : Text × Text). k ≢ y.0)

abbrev DistinctKeys : Entries → Type 0
DistinctKeys [] = Unit
DistinctKeys ((k, v) ∷ l) = IsFresh k l × DistinctKeys l

and-true : (a b : Bool) → (a && b) ≡ true → (a ≡ true) × (b ≡ true)
and-true true b h = (refl, h)
and-true false b h = cc

get-split :
    (k v : Text) (b : Entries)
    → get k b ≡ some v
    → (l : Entries) × (r : Entries) × (b ≡ l ++ (k, v) ∷ r)
unfolding get
get-split k v [] h = cc
get-split k v ((j, w) ∷ b) h = elim (Bool-cases (list_eq k j)) [
  | inl e ↦
      let same : k ≡ j = list_eq→eq k j e in
      let value : ◌≡◌ {A = Option Text} (some w) (some v) = rw e at h in ([], b, cc)
  | inr e ↦ let (l, r, eq) = get-split k v b (rw e at h) in ((j, w) ∷ l, r, ap (λ x. (j, w) ∷ x) eq)
]

get-skip : (j k v : Text) (l r : Entries) → j ≢ k → get j (l ++ (k, v) ∷ r) ≡ get j (l ++ r)
unfolding get
get-skip j k v [] r ne = elim (Bool-cases (list_eq j k)) [
  | inl e ↦ absurd (ne (list_eq→eq j k e))
  | inr e ↦ rw e
]
get-skip j k v ((i, w) ∷ l) r ne = rw (get-skip j k v l r ne)

items_in-skip :
    (a : Entries) (k v : Text) (l r : Entries)
    → IsFresh k a
    → items_in a (l ++ (k, v) ∷ r) ≡ items_in a (l ++ r)
unfolding items_in
items_in-skip [] k v l r h = refl
items_in-skip ((j, w) ∷ a) k v l r h =
    rw (get-skip j k v l r (λ e. h.0 (sym e)), items_in-skip a k v l r h.1)

has_value-eq : (o : Option Text) (v : Text) → has_value o v ≡ true → o ≡ some v
unfolding has_value
has_value-eq (some w) v h = ap some (sym (list_eq→eq v w h))
has_value-eq Option.none v h = cc

-- A mapping whose items are all in another of the same size is the other, up to order.
items_in-perm :
    (a b : Entries) → DistinctKeys a → length a ≡ length b → items_in a b ≡ true → Permᴰ a b
unfolding items_in
items_in-perm [] [] h n e = Permᴰ.nil
items_in-perm [] (x ∷ b) h n e = absurd (omega arith)
items_in-perm ((k, v) ∷ a) b h n e =
    let (here, there) = and-true (has_value (get k b) v) (items_in a b) e in
    let (l, r, eq) = get-split k v b (has_value-eq (get k b) v here) in
    let rest =
      items_in-perm a (l ++ r) h.1
        (omega (arith, n, ap length eq, length-append l ((k, v) ∷ r), length-append l r))
        (sym (items_in-skip a k v l r h.0) ∙ ap (items_in a) (sym eq) ∙ there) in
    subst (Permᴰ ((k, v) ∷ a)) (sym eq)
      (Permᴰ.trans (Permᴰ.cons refl rest) (Permᴰ.symm (Permᴰ.middle (k, v) l r)))

module _ (p : Primitives) where
  -- The keys after one that was seen differ from it.
  check_keys-IsFresh :
      (seen : List Text) (k : Text) (l : Entries)
      → mem_text (p.nfc k) seen ≡ true
      → check_keys p seen l ≡ ok tt
      → IsFresh k l
  check_keys-IsFresh seen k [] h e = tt
  check_keys-IsFresh seen k ((j, w) ∷ l) h e =
      let (new, rest) = check_keys-cons p seen j w l e in
      (
        λ same. cc (new, h, ap (λ t. mem_text (p.nfc t) seen) same),
        check_keys-IsFresh (p.nfc j ∷ seen) k l (mem_text-cons (p.nfc k) (p.nfc j) seen h) rest,
      )

  check_keys-DistinctKeys :
      (seen : List Text) (l : Entries) → check_keys p seen l ≡ ok tt → DistinctKeys l
  check_keys-DistinctKeys seen [] e = tt
  check_keys-DistinctKeys seen ((k, v) ∷ l) e =
      let (new, rest) = check_keys-cons p seen k v l e in
      (
        check_keys-IsFresh (p.nfc k ∷ seen) k l (mem_text_self (p.nfc k) seen) rest,
        check_keys-DistinctKeys (p.nfc k ∷ seen) l rest,
      )

  mapping_eq-perm : (a b : Entries) → check_keys p [] a ≡ ok tt → mapping_eq a b ≡ true → Permᴰ a b
  unfolding mapping_eq
  mapping_eq-perm a b h e =
      let (size, items) = and-true (length a == length b) (items_in a b) e in
      items_in-perm a b (check_keys-DistinctKeys [] a h) (==→eq (length a) (length b) size) items

  manifest_eq-SameEnvironment :
      (m n : ModelManifest)
      → check_keys p [] m.extra ≡ ok tt
      → manifest_eq m n ≡ true
      → SameEnvironment p m.fields n.fields
  unfolding manifest_eq
  manifest_eq-SameEnvironment m n h e =
      let (w, e₁) = and-true (list_eq m.weights_hash n.weights_hash) _ e in
      let (q, e₂) = and-true (list_eq m.quantization n.quantization) _ e₁ in
      let (k, e₃) = and-true (list_eq m.kernel_build_id n.kernel_build_id) _ e₂ in
      let (t, e₄) = and-true (list_eq m.tensor_parallel n.tensor_parallel) _ e₃ in
      let (r, x) = and-true (list_eq m.numerics_mode n.numerics_mode) _ e₄ in
      record {
        weights_hash = ap p.nfc (list_eq→eq m.weights_hash n.weights_hash w);
        quantization = ap p.nfc (list_eq→eq m.quantization n.quantization q);
        kernel_build_id = ap p.nfc (list_eq→eq m.kernel_build_id n.kernel_build_id k);
        tensor_parallel = ap p.nfc (list_eq→eq m.tensor_parallel n.tensor_parallel t);
        numerics_mode = ap p.nfc (list_eq→eq m.numerics_mode n.numerics_mode r);
        extra = Permᴰ.map (normal_entry p) (mapping_eq-perm m.extra n.extra h x);
      }

  -- Constructed manifests that compare equal, whatever the order of their `extra`, have the same
  -- fingerprint, and so the same hash for every hash of bytes, if the normal form is idempotent as
  -- documented.
  pub manifest_eq-manifest_hash :
      {H : Type 0}
      → Documented p
      → (hash : Bytes → H) (m n : ModelManifest) → IsManifest p m
      → IsManifest p n
      → manifest_eq m n ≡ true
      → (m.memh ≡ n.memh) × (manifest_hash hash m ≡ manifest_hash hash n)
  unfolding manifest_hash
  manifest_eq-manifest_hash d hash m n vm vn e =
      let same = memh-SameEnvironment p d m n vm vn (manifest_eq-SameEnvironment m n vm.keys e) in
      (same, ap hash same)
