-- ===== src/Image/Tag/Laws.antt =====
-- What imageTag returns: exactly the tag that was written after the repository.
use Prim.Native.String.{◌++◌}
use Prim.Native.String.compare.{cons-nil}
use mathlib.Core.Path.{subst}
use text.Mathlib.Text.{is_eq}
use text.Mathlib.TextEquality.{Char-path}
use text.Mathlib.TextLemmas.{nil-append, cons-append}
use pulse_operator.Prelude.{
  ℕ, suc, String, Char, code, false, none, some, ◌==◌, ◌≡◌, ◌≢◌, refl, sym, ap, ◌∙◌, zero, arith,
  Option-cases, inl, inr,
}
use pulse_operator.Image.Tag.{contains, last_index, drop, length, le_position, image_tag}

-- The text holds no character `c`.
abbrev pub Lacks : ℕ → String → Type 0
Lacks c s = contains c s ≡ false

pub contains-append : (c : ℕ) (s t : String) → Lacks c s → Lacks c t → Lacks c (s ++ t)
unfolding contains
contains-append c String.[] t h k = rw nil-append k
contains-append c (String.◌∷◌ d s) t h k = rw cons-append (ground (arith, contains-append c s t))

last_index_of_Lacks : (c : ℕ) (s : String) → Lacks c s → last_index c s ≡ none
unfolding contains last_index
last_index_of_Lacks c String.[] h = refl
last_index_of_Lacks c (String.◌∷◌ d s) h = ground (arith, last_index_of_Lacks c s)

-- The last occurrence lies at the end of `s` when the rest behind it has none.
last_index_at :
    (c : ℕ) (s t : String) (d : Char)
    → code d ≡ c
    → Lacks c t
    → last_index c (s ++ String.◌∷◌ d t) ≡ some (length s)
unfolding contains last_index length
last_index_at c String.[] t d e h = rw nil-append (ground (arith, last_index_of_Lacks c t h))
last_index_at c (String.◌∷◌ x s) t d e h =
    rw cons-append (rw (last_index_at c s t d e h, last_index))

-- A character that the rest does not hold occurs only before the end of `s`.
last_index_before :
    (c : ℕ) (s t : String) (d : Char)
    → code d ≢ c
    → Lacks c t
    → le_position (some (length s)) (last_index c (s ++ String.◌∷◌ d t)) ≡ false
unfolding contains last_index length le_position
last_index_before c String.[] t d e h = rw nil-append (ground (arith, last_index_of_Lacks c t h))
last_index_before c (String.◌∷◌ x s) t d e h =
    rw cons-append (ground (arith, last_index_before c s t d e h))

drop-append : (s t : String) (d : Char) → drop (suc (length s)) (s ++ String.◌∷◌ d t) ≡ t
unfolding drop length
drop-append String.[] t d = rw nil-append
drop-append (String.◌∷◌ x s) t d = rw cons-append (drop-append s t d)

cons-eq-nil : (s t : String) (d : Char) → ((s ++ String.◌∷◌ d t) == "") ≡ false
cons-eq-nil String.[] t d = rw nil-append (λ i. is_eq (cons-nil d t i))
cons-eq-nil (String.◌∷◌ x s) t d = rw cons-append (λ i. is_eq (cons-nil x (s ++ String.◌∷◌ d t) i))

-- The tag of `repository:tag` is `tag`, whatever colons the repository holds (a registry's port),
-- for a reference with no digest and a tag with no slash and no colon.
pub image_tag_of_tagged :
    (repository tag : String)
    → Lacks b'@' repository
    → Lacks b'@' tag
    → Lacks b'/' tag
    → Lacks b':' tag
    → image_tag (repository ++ String.◌∷◌ ":" tag) ≡ tag
unfolding image_tag
image_tag_of_tagged repository tag ra ta ts tc = rw (cons-eq-nil repository tag ":") (
    rw (contains-append b'@' repository (String.◌∷◌ ":" tag) ra (unfold contains in ta)) (
      rw (last_index_at b':' repository tag ":" refl tc) (
        rw (last_index_before b'/' repository tag ":" (omega arith) ts)
          (drop-append repository tag ":"))))

Lacks-of_none : (c : ℕ) (s : String) → last_index c s ≡ none → Lacks c s
unfolding contains last_index
Lacks-of_none c String.[] h = refl
Lacks-of_none c (String.◌∷◌ x s) h = ground (arith, Lacks-of_none c s)

-- A text split at the last `c`, which stands before position `i`'s end.
abbrev SplitsAt : ℕ → String → ℕ → Type 0
SplitsAt c s i =
    (before : String) × (d : Char) × (s ≡ before ++ String.◌∷◌ d (drop (suc i) s))
    × (code d ≡ c)
    × Lacks c (drop (suc i) s)
    × (length before ≡ i)

last_index_first :
    (c : ℕ) (x : Char) (s : String) {i : ℕ}
    → last_index c s ≡ none
    → last_index c (String.◌∷◌ x s) ≡ some i
    → SplitsAt c (String.◌∷◌ x s) i
unfolding last_index drop length
last_index_first c x s {i} n h =
    let at_start : i ≡ 0 = ground arith in
    rw at_start ("", x, sym (nil-append _), ground arith, Lacks-of_none c s n, refl)

last_index_later :
    (c : ℕ) (x : Char) (s : String) {i j : ℕ}
    → last_index c s ≡ some j
    → last_index c (String.◌∷◌ x s) ≡ some i
    → SplitsAt c s j
    → SplitsAt c (String.◌∷◌ x s) i
unfolding last_index drop length
last_index_later c x s {i} {j} found h (before, d, split, same, lacks, size) =
    let later : i ≡ suc j = ground arith in
    rw later (
      String.◌∷◌ x before,
      d,
      ap (String.◌∷◌ x) split ∙ sym (cons-append x before _),
      same,
      lacks,
      ap suc size,
    )

last_index_splits : (c : ℕ) (s : String) {i : ℕ} → last_index c s ≡ some i → SplitsAt c s i
unfolding last_index
last_index_splits c String.[] h = cc
last_index_splits c (String.◌∷◌ x s) {i} h = elim (Option-cases (last_index c s)) [
  | inl n ↦ last_index_first c x s n h
  | inr (j, found) ↦ last_index_later c x s found h (last_index_splits c s found)
]

-- With the last slash before position `i`, the text behind `i` holds none.
drop-Lacks :
    (c : ℕ) (s : String) (i : ℕ)
    → le_position (some i) (last_index c s) ≡ false
    → Lacks c (drop (suc i) s)
unfolding drop contains last_index le_position
drop-Lacks c String.[] i h = refl
drop-Lacks c (String.◌∷◌ x s) zero h = Lacks-of_none c s (ground arith)
drop-Lacks c (String.◌∷◌ x s) (suc i) h = drop-Lacks c s i (ground arith)

image_tag-cases :
    (image : String)
    → image_tag image ≢ ""
    → (i : ℕ) × (contains b'@' image ≡ false)
      × (last_index b':' image ≡ some i)
      × (le_position (some i) (last_index b'/' image) ≡ false)
      × (image_tag image ≡ drop (suc i) image)
unfolding image_tag
image_tag-cases image h = elim (Option-cases (last_index b':' image)) [
  | inl n ↦ absurd (h (ground arith))
  | inr (i, found) ↦ (i, ground arith, found, ground arith, ground arith)
]

-- A reference has a tag only as a last part `:tag` behind its last slash, and has no digest then.
pub image_tag_sound :
    (image : String)
    → image_tag image ≢ ""
    → (repository : String) × (image ≡ repository ++ String.◌∷◌ ":" (image_tag image))
      × Lacks b'@' image
      × Lacks b':' (image_tag image)
      × Lacks b'/' (image_tag image)
image_tag_sound image h =
    let (i, no_digest, found, no_slash, tag) = image_tag-cases image h in
    let (repository, d, split, colon, lacks, _) = last_index_splits b':' image found in
    (
      repository,
      split
          ∙ ap (λ c. repository ++ String.◌∷◌ c (drop (suc i) image)) (Char-path d ":" colon)
          ∙ ap (λ t. repository ++ String.◌∷◌ ":" t) (sym tag),
      no_digest,
      subst (λ t. Lacks b':' t) (sym tag) lacks,
      subst (λ t. Lacks b'/' t) (sym tag) (drop-Lacks b'/' image i no_slash),
    )
