-- ===== src/Manifest/Sort.antt =====
-- The sort of the `extra` entries in `canonical_bytes` of sce/core.py.
use mathlib.Core.Path.{subst}
use mathlib.Core.List.{Permᴰ}
use sce.Base.{All, ◌≡◌, ◌≢◌, refl, sym, ◌∙◌, true, false, List, [], ◌∷◌, arith}
use sce.Value.{Bytes}
use sce.Manifest.{Keyed, bytes_ltb, insert_entry, sort_entries}

-- The order is strict, total and transitive.
bytes_ltb-asymm : (a b : Bytes) → bytes_ltb a b ≡ true → bytes_ltb b a ≡ false
unfolding bytes_ltb
bytes_ltb-asymm [] [] h = refl
bytes_ltb-asymm [] (y ∷ b) h = refl
bytes_ltb-asymm (x ∷ a) [] h = cc
bytes_ltb-asymm (x ∷ a) (y ∷ b) h = ground (arith, bytes_ltb-asymm a b)

bytes_ltb-total : (a b : Bytes) → a ≢ b → bytes_ltb a b ≡ false → bytes_ltb b a ≡ true
unfolding bytes_ltb
bytes_ltb-total [] [] n h = absurd (n refl)
bytes_ltb-total [] (y ∷ b) n h = cc
bytes_ltb-total (x ∷ a) [] n h = refl
bytes_ltb-total (x ∷ a) (y ∷ b) n h = ground (arith, bytes_ltb-total a b)

bytes_ltb_trans :
    (a b c : Bytes) → bytes_ltb a b ≡ true → bytes_ltb b c ≡ true → bytes_ltb a c ≡ true
unfolding bytes_ltb
bytes_ltb_trans [] (y ∷ b) (z ∷ c) g h = refl
bytes_ltb_trans [] (y ∷ b) [] g h = cc
bytes_ltb_trans [] [] c g h = cc
bytes_ltb_trans (x ∷ a) [] c g h = cc
bytes_ltb_trans (x ∷ a) (y ∷ b) [] g h = cc
bytes_ltb_trans (x ∷ a) (y ∷ b) (z ∷ c) g h = ground (arith, bytes_ltb_trans a b c)

-- Two entries with distinct keys can be inserted in either order.
insert_entry_comm :
    (x y : Keyed) (l : List Keyed)
    → x.0 ≢ y.0
    → insert_entry x (insert_entry y l) ≡ insert_entry y (insert_entry x l)
unfolding insert_entry
insert_entry_comm x y [] n = ground (arith, bytes_ltb-asymm x.0 y.0, bytes_ltb-total x.0 y.0 n)
insert_entry_comm x y (z ∷ l) n = ground (
  arith,
  bytes_ltb-asymm x.0 y.0,
  bytes_ltb-asymm x.0 z.0,
  bytes_ltb-asymm y.0 z.0,
  bytes_ltb-asymm z.0 x.0,
  bytes_ltb-asymm z.0 y.0,
  bytes_ltb-total x.0 y.0 n,
  bytes_ltb_trans z.0 x.0 y.0,
  bytes_ltb_trans z.0 y.0 x.0,
  insert_entry_comm x y l n,
)

-- No two entries have the same key.
abbrev pub Distinct : List Keyed → Type 0
Distinct [] = Unit
Distinct (x ∷ l) = All (λ (y : Keyed). x.0 ≢ y.0) l × Distinct l

pub All-perm {ℓ κ} : {A : Type ℓ} (P : A → Type κ) {l m : List A} → Permᴰ l m → All P l → All P m
All-perm P Permᴰ.nil h = h
All-perm P (Permᴰ.cons e q) h = (subst P e h.0, All-perm P q h.1)
All-perm P (Permᴰ.swap e f) h = (subst P f h.1.0, (subst P e h.0, h.1.1))
All-perm P (Permᴰ.trans q r) h = All-perm P r (All-perm P q h)

Distinct-perm : {l m : List Keyed} → Permᴰ l m → Distinct l → Distinct m
Distinct-perm Permᴰ.nil h = h
Distinct-perm (Permᴰ.cons {a = a} e q) h =
    rw (← e) (All-perm (λ y. a.0 ≢ y.0) q h.0, Distinct-perm q h.1)
Distinct-perm (Permᴰ.swap {l = l} e f) h = (
  (rw (← e, ← f) (λ q. h.0.0 (sym q)), subst (λ z. All (λ y. z.0 ≢ y.0) l) f h.1.0),
  (subst (λ z. All (λ y. z.0 ≢ y.0) l) e h.0.1, h.1.1),
)
Distinct-perm (Permᴰ.trans q r) h = Distinct-perm r (Distinct-perm q h)

-- Entries with distinct keys sort to one list, in whatever order they come.
pub sort_entries-perm :
    {l m : List Keyed} → Permᴰ l m → Distinct l → sort_entries l ≡ sort_entries m
unfolding sort_entries
sort_entries-perm Permᴰ.nil h = refl
sort_entries-perm (Permᴰ.cons e q) h = rw (← e, sort_entries-perm q h.1)
sort_entries-perm (Permᴰ.swap {a = a} {b = b} {l = l} e f) h =
    rw (← e, ← f) (insert_entry_comm a b (sort_entries l) h.0.0)
sort_entries-perm (Permᴰ.trans q r) h =
    sort_entries-perm q h ∙ sort_entries-perm r (Distinct-perm q h)
