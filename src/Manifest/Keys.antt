-- ===== src/Manifest/Keys.antt =====
-- The keys of `extra`: the collision check of `__post_init__` and the sort keys of
-- `canonical_bytes` in sce/core.py.
use mathlib.Core.List.{Permᴰ}
use mathlib.Core.List.Permᴰ
use mathlib.Core.Path.{subst}
use sce.Base.{All, ◌≡◌, ◌≢◌, refl, sym, ◌∙◌, ap, true, false, List, [], ◌∷◌, arith, list_eq_refl}
use sce.Error.{ok, ◌>>=◌, >>=-eq-ok}
use sce.Value.{Bytes, Text}
use sce.Utf8.{utf8, utf8-injective}
use sce.Library.{Primitives}
use sce.Manifest.{Keyed, mem_text, check_keys, key_entries}
use sce.Manifest.Sort.{Distinct}

pub mem_text-cons :
    (t s : Text) (seen : List Text) → mem_text t seen ≡ true → mem_text t (s ∷ seen) ≡ true
unfolding mem_text
mem_text-cons t s seen h = ground arith

pub mem_text_self : (t : Text) (seen : List Text) → mem_text t (t ∷ seen) ≡ true
unfolding mem_text
mem_text_self t seen = ground (arith, list_eq_refl t)

module _ (p : Primitives) where
  open p use {nfc}

  -- A run over a first entry.
  pub key_entries-cons :
      (k v : Text) (l : List (Text × Text)) {r : List Keyed}
      → key_entries p ((k, v) ∷ l) ≡ ok r
      → (b : Bytes) × (m : List Keyed) × (utf8 (nfc k) ≡ ok b)
        × (key_entries p l ≡ ok m)
        × (r ≡ (b, (k, v)) ∷ m)
  unfolding key_entries
  key_entries-cons k v l h =
      let (b, hb, g) =
        >>=-eq-ok (utf8 (nfc k)) (λ b. key_entries p l >>= λ m. ok ((b, (k, v)) ∷ m)) h in
      let (m, hm, e) = >>=-eq-ok (key_entries p l) (λ m. ok ((b, (k, v)) ∷ m)) g in
      (b, m, hb, hm, cc)

  pub key_entries-ok :
      (k v : Text) (l : List (Text × Text)) {b : Bytes} {m : List Keyed}
      → utf8 (nfc k) ≡ ok b
      → key_entries p l ≡ ok m
      → key_entries p ((k, v) ∷ l) ≡ ok ((b, (k, v)) ∷ m)
  unfolding key_entries
  key_entries-ok k v l hb hm = rw (hb, hm)

  mem_text_ne :
      (t k : Text) (seen : List Text) {c b : Bytes}
      → mem_text t seen ≡ true
      → mem_text k seen ≡ false
      → utf8 t ≡ ok c
      → utf8 k ≡ ok b
      → c ≢ b
  mem_text_ne t k seen ht hk hc hb e = let same : t ≡ k = utf8-injective t k (hc ∙ ap ok e) hb in cc

  pub check_keys-cons :
      (seen : List Text) (k v : Text) (l : List (Text × Text))
      → check_keys p seen ((k, v) ∷ l) ≡ ok tt
      → (mem_text (nfc k) seen ≡ false) × (check_keys p (nfc k ∷ seen) l ≡ ok tt)
  unfolding check_keys
  check_keys-cons seen k v l h = ground arith

  key_entries-nil : {m : List Keyed} → key_entries p [] ≡ ok m → [] ≡ m
  unfolding key_entries
  key_entries-nil h = cc

  -- No later key is one that was seen.
  check_keys-fresh :
      (seen : List Text) (l : List (Text × Text)) {m : List Keyed} (t : Text) {c : Bytes}
      → check_keys p seen l ≡ ok tt
      → key_entries p l ≡ ok m
      → mem_text t seen ≡ true
      → utf8 t ≡ ok c
      → All (λ (y : Keyed). c ≢ y.0) m
  check_keys-fresh seen [] t {c = c} hk hm ht hc =
      subst (All (λ (y : Keyed). c ≢ y.0)) (key_entries-nil hm) tt
  check_keys-fresh seen ((k, v) ∷ l) t {c = c} hk hm ht hc =
      let (fresh, more) = check_keys-cons seen k v l hk in
      let (b, r, hb, hr, e) = key_entries-cons k v l hm in
      let later =
        check_keys-fresh (nfc k ∷ seen) l t more hr (mem_text-cons t (nfc k) seen ht) hc in
      subst (All (λ (y : Keyed). c ≢ y.0)) (sym e)
        (mem_text_ne t (nfc k) seen ht fresh hc hb, later)

  -- What passes the check has distinct sort keys.
  pub check_keys-Distinct :
      (seen : List Text) (l : List (Text × Text)) {m : List Keyed}
      → check_keys p seen l ≡ ok tt
      → key_entries p l ≡ ok m
      → Distinct m
  check_keys-Distinct seen [] hk hm = subst Distinct (key_entries-nil hm) tt
  check_keys-Distinct seen ((k, v) ∷ l) hk hm =
      let (fresh, more) = check_keys-cons seen k v l hk in
      let (b, r, hb, hr, e) = key_entries-cons k v l hm in
      subst Distinct (sym e) (
        check_keys-fresh (nfc k ∷ seen) l (nfc k) more hr (mem_text_self (nfc k) seen) hb,
        check_keys-Distinct (nfc k ∷ seen) l more hr,
      )

  -- The same entries in another order have the same keyed entries in another order.
  pub key_entries-perm :
      {l m : List (Text × Text)} {r : List Keyed}
      → Permᴰ l m
      → key_entries p l ≡ ok r
      → (s : List Keyed) × (key_entries p m ≡ ok s) × Permᴰ r s
  key_entries-perm {r = r} Permᴰ.nil h = (r, h, Permᴰ.refl r)
  key_entries-perm (Permᴰ.cons {a = (k, v)} {l₁ = l} {l₂ = m} e q) h =
      let (b, r, hb, hr, d) = key_entries-cons k v l h in
      let (s, hs, t) = key_entries-perm q hr in
      rw (← e, d) ((b, (k, v)) ∷ s, key_entries-ok k v m hb hs, Permᴰ.cons refl t)
  key_entries-perm (Permᴰ.swap {a = (k, v)} {b = (j, w)} {l = l} e f) h =
      let (b, r, hb, hr, d) = key_entries-cons k v ((j, w) ∷ l) h in
      let (c, s, hc, hs, g) = key_entries-cons j w l hr in
      rw (← e, ← f, d, g)
        (
          (c, (j, w)) ∷ (b, (k, v)) ∷ s,
          key_entries-ok j w ((k, v) ∷ l) hc (key_entries-ok k v l hb hs),
          Permᴰ.swap refl refl,
        )
  key_entries-perm (Permᴰ.trans q r) h =
      let (s, hs, t) = key_entries-perm q h in
      let (u, hu, w) = key_entries-perm r hs in (u, hu, Permᴰ.trans t w)
