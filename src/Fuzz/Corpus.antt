-- ===== src/Fuzz/Corpus.antt =====
-- The corpus of fuzz/fuzz_envelope.py: `load_corpus`, and `record_finding`, which prints what is to
-- be added to it. The file's JSON is taken as parsed.
use sce.Base.{◌≡◌, refl, ap, ◌∙◌, Option, none, some, List, [], ◌∷◌, ◌++◌, map, All, arith, take}
use mathlib.Core.Path.{subst}
use sce.Error.{Result, ok, ◌>>=◌, >>=-eq-ok, ok-injective}
use sce.Value.{Bytes, Text}
use sce.Bytes.{IsBytes}
use sce.Texts.{hex, from_hex}
use sce.Texts.Hex.{from_hex-hex, from_hex-IsBytes}
use sce.Library.{Primitives}

-- fuzz/corpus.json: missing, or an object with the strings under "seeds", if it has the key.
pub data CorpusFile : Type 0 where
  no_file : CorpusFile
  document : Option (List Text) → CorpusFile

-- `[bytes.fromhex(h) for h in …]`
unfoldable pub read_seeds : List Text → Result (List Bytes)
read_seeds [] = ok []
read_seeds (h ∷ hs) = do b ← from_hex none h; rest ← read_seeds hs; ok (b ∷ rest)

-- `load_corpus`
unfoldable pub load_corpus : CorpusFile → Result (List Bytes)
unfolding read_seeds
load_corpus no_file = ok []
load_corpus (document none) = ok []
load_corpus (document (some hs)) = read_seeds hs

-- What `record_finding` prints: the digest, which it returns, and the seed.
pub record Finding : Type 0 where
  pub digest : Text
  pub seed : Text

-- `record_finding`
unfoldable pub record_finding : Primitives → Bytes → Finding
record_finding p blob = record { digest = take 12 (hex (p.sha3_256 blob)); seed = hex blob }

read_seeds-append :
    (hs gs : List Text) {b c : List Bytes}
    → read_seeds hs ≡ ok b
    → read_seeds gs ≡ ok c
    → read_seeds (hs ++ gs) ≡ ok (b ++ c)
unfolding read_seeds
read_seeds-append [] gs {c = c} h k = k ∙ ap (λ b. ok (b ++ c)) (ok-injective h)
read_seeds-append (x ∷ hs) gs {c = c} h k =
    let (b, hb, h₁) = >>=-eq-ok (from_hex none x) _ h in
    let (bs, hs₁, e) = >>=-eq-ok (read_seeds hs) _ h₁ in
    rw (hb, read_seeds-append hs gs hs₁ k) (ap (λ r. ok (r ++ c)) (ok-injective e))

read_seeds-recorded :
    (p : Primitives) (blobs : List Bytes)
    → All IsBytes blobs
    → read_seeds (map (λ b. (record_finding p b).seed) blobs) ≡ ok blobs
unfolding read_seeds record_finding
read_seeds-recorded p [] h = refl
read_seeds-recorded p (b ∷ bs) h = rw (from_hex-hex b h.0, read_seeds-recorded p bs h.1)

-- Findings that are added to a corpus which loads, as they are printed, are loaded after it.
pub load_corpus-record_finding :
    (p : Primitives) (seeds : List Text) (blobs : List Bytes) {corpus : List Bytes}
    → All IsBytes blobs
    → load_corpus (document (some seeds)) ≡ ok corpus
    → load_corpus (document (some (seeds ++ map (λ b. (record_finding p b).seed) blobs)))
      ≡ ok (corpus ++ blobs)
unfolding load_corpus
load_corpus-record_finding p seeds blobs h e =
    read_seeds-append seeds _ e (read_seeds-recorded p blobs h)

read_seeds-IsBytes : (hs : List Text) {b : List Bytes} → read_seeds hs ≡ ok b → All IsBytes b
unfolding read_seeds
read_seeds-IsBytes [] h = subst (All IsBytes) (ok-injective h) tt
read_seeds-IsBytes (x ∷ hs) h =
    let (b, hb, k) = >>=-eq-ok (from_hex none x) _ h in
    let (bs, hs₁, e) = >>=-eq-ok (read_seeds hs) _ k in
    subst (All IsBytes) (ok-injective e)
      (from_hex-IsBytes none x (λ n e. absurd (ground arith)) hb, read_seeds-IsBytes hs hs₁)

pub load_corpus-IsBytes : (f : CorpusFile) {b : List Bytes} → load_corpus f ≡ ok b → All IsBytes b
unfolding load_corpus
load_corpus-IsBytes no_file h = subst (All IsBytes) (ok-injective h) tt
load_corpus-IsBytes (document none) h = subst (All IsBytes) (ok-injective h) tt
load_corpus-IsBytes (document (some hs)) h = read_seeds-IsBytes hs h
