-- ===== src/Manifest/Canonical.antt =====
-- What `canonical_bytes` of sce/core.py determines of a manifest.
use mathlib.Core.List.{Permᴰ}
use mathlib.Core.List.Permᴰ
use mathlib.Core.Path.{subst}
use sce.Base.{
  ◌≤◌, ◌<◌, ◌^◌, ◌≡◌, refl, sym, ◌∙◌, ap, String, List, [], ◌∷◌, ◌++◌, arith, map, Bool-cases, inl,
  inr, length, append_assoc, append-cut,
}
use sce.Error.{ok, >>=-eq-ok}
use sce.Value.{Bytes, Text, str}
use sce.Bytes.{big_endian, to_bytes, max_lp_field}
use sce.Bytes.Laws.{prefix-cut, to_bytes-eq-ok, length-big_endian, big_endian-injective}
use sce.Utf8.{utf8, utf8-injective}
use sce.Library.{Primitives}
use sce.Manifest.{
  Keyed, bytes_ltb, insert_entry, sort_entries, enc_str, check_keys, key_entries, enc_entries,
  enc_keyed, enc_extra,
}
use sce.Manifest.Sort.{sort_entries-perm}
use sce.Manifest.Keys.{key_entries-cons, key_entries-perm, check_keys-Distinct}
use sce.Manifest.Normal.{normal_entry}

-- The sort only reorders.
insert_entry-Permᴰ : (x : Keyed) (l : List Keyed) → Permᴰ (insert_entry x l) (x ∷ l)
unfolding insert_entry
insert_entry-Permᴰ x [] = Permᴰ.refl (x ∷ [])
insert_entry-Permᴰ x (y ∷ l) = elim (Bool-cases (bytes_ltb y.0 x.0)) [
  | inl h ↦ rw h (Permᴰ.trans (Permᴰ.cons refl (insert_entry-Permᴰ x l)) (Permᴰ.swap refl refl))
  | inr h ↦ rw h (Permᴰ.refl (x ∷ y ∷ l))
]

sort_entries-Permᴰ : (l : List Keyed) → Permᴰ (sort_entries l) l
unfolding sort_entries
sort_entries-Permᴰ [] = Permᴰ.nil
sort_entries-Permᴰ (x ∷ l) =
    Permᴰ.trans (insert_entry-Permᴰ x (sort_entries l)) (Permᴰ.cons refl (sort_entries-Permᴰ l))

module _ (p : Primitives) where
  open p use {nfc}

  -- A text is encoded as a length-prefixed field of the UTF-8 code of its normal form.
  enc_str-eq-ok :
      (label : String) (s : Text) {r : Bytes}
      → enc_str p label (str s) ≡ ok r
      → (b : Bytes) × (utf8 (nfc s) ≡ ok b)
        × (length b ≤ max_lp_field)
        × (r ≡ big_endian 4 (length b) ++ b)
  unfolding enc_str to_bytes
  enc_str-eq-ok label s h =
      let (b, hb, g) = >>=-eq-ok (utf8 (nfc s)) _ h in (b, hb, ground arith, ground arith)

  -- An encoded text delimits itself and determines its normal form.
  pub enc_str-cut :
      (label name : String) (s t : Text) {a b r q : Bytes}
      → enc_str p label (str s) ≡ ok a
      → enc_str p name (str t) ≡ ok b
      → a ++ r ≡ b ++ q
      → (nfc s ≡ nfc t) × (r ≡ q)
  enc_str-cut label name s t ha hb e =
      let (x, hx, lx, ex) = enc_str-eq-ok label s ha in
      let (y, hy, ly, ey) = enc_str-eq-ok name t hb in
      let cut = prefix-cut x y lx ly (rw (ex, ey) at e) in
      (utf8-injective (nfc s) (nfc t) hx (hy ∙ ap ok (sym cut.0)), cut.1)

  enc_entries-cons :
      (k v : Text) (l : List (Text × Text)) {r : Bytes}
      → enc_entries p ((k, v) ∷ l) ≡ ok r
      → (a : Bytes) × (b : Bytes) × (c : Bytes) × (enc_str p "extra-key" (str k) ≡ ok a)
        × (enc_str p "extra-value" (str v) ≡ ok b)
        × (enc_entries p l ≡ ok c)
        × (r ≡ a ++ b ++ c)
  unfolding enc_entries
  enc_entries-cons k v l h =
      let (a, ha, f) = >>=-eq-ok (enc_str p "extra-key" (str k)) _ h in
      let (b, hb, g) = >>=-eq-ok (enc_str p "extra-value" (str v)) _ f in
      let (c, hc, e) = >>=-eq-ok (enc_entries p l) _ g in (a, b, c, ha, hb, hc, cc)

  -- As many entries with one encoding are the same up to NFC.
  enc_entries-cut :
      (l m : List (Text × Text)) {r : Bytes}
      → length l ≡ length m
      → enc_entries p l ≡ ok r
      → enc_entries p m ≡ ok r
      → map (normal_entry p) l ≡ map (normal_entry p) m
  enc_entries-cut [] [] n hl hm = refl
  enc_entries-cut [] (y ∷ m) n hl hm = ground arith
  enc_entries-cut (x ∷ l) [] n hl hm = ground arith
  enc_entries-cut ((k, v) ∷ l) ((j, w) ∷ m) n hl hm =
      let (a, b, c, ha, hb, hc, e) = enc_entries-cons k v l hl in
      let (a', b', c', ha', hb', hc', e') = enc_entries-cons j w m hm in
      let key =
        enc_str-cut "extra-key" "extra-key" k j {r = b ++ c} {q = b' ++ c'} ha ha'
          (simp append_assoc at (sym e ∙ e')) in
      let value = enc_str-cut "extra-value" "extra-value" v w {r = c} {q = c'} hb hb' key.1 in
      let rest = enc_entries-cut l m (omega arith) hc (hc' ∙ ap ok (sym value.1)) in
      λ i. (key.0 i, value.0 i) ∷ rest i

  payload :
      (l : List (Text × Text)) {r : List Keyed}
      → key_entries p l ≡ ok r
      → map (λ (x : Keyed). x.1) r ≡ l
  unfolding key_entries
  payload [] {r = r} h = let e : [] ≡ r = cc in rw (← e)
  payload ((k, v) ∷ l) {r = r} h =
      let (b, m, hb, hm, e) = key_entries-cons p k v l h in
      rw e (ap (λ t. (k, v) ∷ t) (payload l hm))

  enc_extra-eq-ok :
      (l : List (Text × Text)) {r : Bytes}
      → enc_extra p l ≡ ok r
      → (s : List Keyed) × (c : Bytes) × (key_entries p l ≡ ok s)
        × (length (map (λ (x : Keyed). x.1) (sort_entries s)) < 256 ^ 4)
        × (enc_entries p (map (λ (x : Keyed). x.1) (sort_entries s)) ≡ ok c)
        × (r ≡ big_endian 4 (length (map (λ (x : Keyed). x.1) (sort_entries s))) ++ c)
  unfolding enc_extra enc_keyed
  enc_extra-eq-ok l h =
      let (s, hs, g) = >>=-eq-ok (key_entries p l) _ h in
      let items = map (λ (x : Keyed). x.1) (sort_entries s) in
      let (n, hn, f) = >>=-eq-ok (to_bytes 4 (length items)) _ g in
      let (c, hc, e) = >>=-eq-ok (enc_entries p items) _ f in
      let (fits, en) = to_bytes-eq-ok 4 (length items) hn in (s, c, hs, fits, hc, cc)

  -- Two encodings of `extra` that agree hold the same entries, up to NFC and order.
  pub enc_extra-cut :
      (l m : List (Text × Text)) {r : Bytes}
      → enc_extra p l ≡ ok r
      → enc_extra p m ≡ ok r
      → Permᴰ (map (normal_entry p) l) (map (normal_entry p) m)
  enc_extra-cut l m hl hm =
      let (s, c, hs, ls, hc, es) = enc_extra-eq-ok l hl in
      let (t, d, ht, lt, hd, et) = enc_extra-eq-ok m hm in
      let a = map (λ (x : Keyed). x.1) (sort_entries s) in
      let b = map (λ (x : Keyed). x.1) (sort_entries t) in
      let cut =
        append-cut (big_endian 4 (length a)) (big_endian 4 (length b)) {r = c} {s = d}
          (length-big_endian 4 (length a) ∙ sym (length-big_endian 4 (length b))) (sym es ∙ et) in
      let same =
        enc_entries-cut a b (big_endian-injective 4 (length a) (length b) ls lt cut.0) hc
          (hd ∙ ap ok (sym cut.1)) in
      let left : Permᴰ a l =
        subst (Permᴰ a) (payload l hs) (Permᴰ.map (λ (x : Keyed). x.1) (sort_entries-Permᴰ s)) in
      let right : Permᴰ b m =
        subst (Permᴰ b) (payload m ht) (Permᴰ.map (λ (x : Keyed). x.1) (sort_entries-Permᴰ t)) in
      Permᴰ.trans (Permᴰ.symm (Permᴰ.map (normal_entry p) left)) (
        subst (λ z. Permᴰ z (map (normal_entry p) m)) (sym same) (Permᴰ.map (normal_entry p) right))

  -- Entries with keys that do not collide are encoded alike in every order.
  pub enc_extra-perm :
      (l m : List (Text × Text)) {r : Bytes}
      → Permᴰ l m
      → check_keys p [] l ≡ ok tt
      → enc_extra p l ≡ ok r
      → enc_extra p m ≡ ok r
  unfolding enc_extra enc_keyed
  enc_extra-perm l m q hk h =
      let (s, hs, g) = >>=-eq-ok (key_entries p l) _ h in
      let (t, ht, w) = key_entries-perm p q hs in
      rw ht (rw (← sort_entries-perm w (check_keys-Distinct p [] l hk hs)) g)
