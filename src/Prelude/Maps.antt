-- ===== src/Prelude/Maps.antt =====
-- A Go map with text keys, as an association list. Order is that of insertion; nothing that the
-- model computes from a map depends on it except where the source sorts the keys first.
use Prim.Native.String.{String}
use mathlib.Core.Path.{◌≡◌, refl}
use mathlib.Core.Option.{Option, none, some}
use mathlib.Core.List.{List, [], ◌∷◌}
use native.Mathlib.Omega.{arith}
use text.Mathlib.Text.{◌==◌}
use text.Mathlib.TextEquality.{eq_iff}
use text.Mathlib.TextPositions.{eq_refl}
use pulse_operator.Prelude.Tests.{if◌then◌else◌}

abbrev pub Dict {ℓ} : Type ℓ → Type ℓ
Dict V = List (String × V)

module _ {ℓ} {V : Type ℓ} where
  -- `value, ok := dict[key]`
  unfoldable pub lookup : String → Dict V → Option V
  lookup key [] = none
  lookup key ((first, value) ∷ rest) = if first == key then some value else lookup key rest

  -- `delete(dict, key)`
  unfoldable pub remove : String → Dict V → Dict V
  remove key [] = []
  remove key ((first, value) ∷ rest) =
      if first == key then remove key rest else (first, value) ∷ remove key rest

  -- A deleted key is gone, and the others keep their values.
  pub lookup-remove :
      (gone key : String) (dict : Dict V)
      → lookup key (remove gone dict) ≡ (if gone == key then none else lookup key dict)
  unfolding lookup remove
  lookup-remove gone key [] = ground arith
  lookup-remove gone key ((first, value) ∷ rest) =
      ground
        (arith, eq_iff first key, eq_iff first gone, eq_iff gone key, lookup-remove gone key rest)

  -- `dict[key] = value`
  unfoldable pub insert : String → V → Dict V → Dict V
  insert key value [] = (key, value) ∷ []
  insert key value ((first, old) ∷ rest) =
      if first == key then (key, value) ∷ rest else (first, old) ∷ insert key value rest

  -- An assigned key has the new value, and the others keep theirs.
  pub lookup-insert :
      (set key : String) (value : V) (dict : Dict V)
      → lookup key (insert set value dict) ≡ (if set == key then some value else lookup key dict)
  unfolding lookup insert
  lookup-insert set key value [] = refl
  lookup-insert set key value ((first, old) ∷ rest) =
      ground (
        arith,
        eq_iff first key,
        eq_iff first set,
        eq_iff set key,
        lookup-insert set key value rest,
      )

-- Assigning the same value again changes nothing.
pub insert-insert {ℓ} :
    {V : Type ℓ} (key : String) (value : V) (dict : Dict V)
    → insert key value (insert key value dict) ≡ insert key value dict
unfolding insert
insert-insert key value [] = rw (eq_refl key) refl
insert-insert key value ((first, old) ∷ rest) =
    ground (arith, eq_iff first key, eq_iff key key, insert-insert key value rest)

-- `m[k]` of a map of texts: the empty text when the key is missing.
unfoldable pub text_at : String → Dict String → String
text_at k m = elim (lookup k m) [ none ↦ "" | some v ↦ v ]
