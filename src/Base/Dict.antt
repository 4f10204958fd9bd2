-- ===== src/Base/Dict.antt =====
-- A Go map with text keys, as an association list: reads, writes and deletes by key.
use Prim.Native.String.{String}
use mathlib.Core.List.{List, [], ◌∷◌}
use mathlib.Core.Option.{Option, none, some}
use mathlib.Core.Path.{◌≡◌, refl}
use native.Mathlib.Omega.{arith}
use zhangyu.Base.Tests.{if◌then◌else◌}
use text.Mathlib.TextEquality.{eq_iff}
use text.Mathlib.TextPositions.{eq_refl}
use text.Mathlib.Text.{◌==◌}

abbrev pub Entries {ℓ} : Type ℓ → Type ℓ
Entries Value = List (String × Value)

module _ {ℓ} {Value : Type ℓ} where
  -- `delete(m, key)`.
  unfoldable pub delete : String → Entries Value → Entries Value
  delete key [] = []
  delete key ((other, value) ∷ entries) =
      let kept = delete key entries in if other == key then kept else (other, value) ∷ kept

  -- `m[key]`.
  unfoldable pub lookup : String → Entries Value → Option Value
  lookup key [] = none
  lookup key ((other, value) ∷ entries) =
      let later = lookup key entries in if other == key then some value else later

  -- `m[key] = value`.
  unfoldable pub insert : String → Value → Entries Value → Entries Value
  insert key value [] = (key, value) ∷ []
  insert key value ((other, old) ∷ entries) =
      let changed = insert key value entries in
      if other == key then (other, value) ∷ entries else (other, old) ∷ changed

  -- A read after a delete.
  pub lookup-delete :
      (key read : String) (entries : Entries Value)
      → lookup read (delete key entries) ≡ (if key == read then none else lookup read entries)
  unfolding delete lookup
  lookup-delete key read [] = ground arith
  lookup-delete key read ((other, value) ∷ entries) =
      ground (
        arith,
        lookup-delete key read entries,
        eq_iff other key,
        eq_iff other read,
        eq_iff key read,
      )

  -- A read after a write.
  pub lookup-insert :
      (key read : String) (value : Value) (entries : Entries Value)
      → lookup read (insert key value entries)
        ≡ (if key == read then some value else lookup read entries)
  unfolding insert lookup
  lookup-insert key read value [] = refl
  lookup-insert key read value ((other, old) ∷ entries) = ground (
    arith,
    lookup-insert key read value entries,
    eq_iff other key,
    eq_iff other read,
    eq_iff key read,
  )

  -- A write a second time changes nothing.
  pub insert_twice :
      (key : String) (value : Value) (entries : Entries Value)
      → insert key value (insert key value entries) ≡ insert key value entries
  unfolding insert
  insert_twice key value [] = ground (arith, eq_refl key)
  insert_twice key value ((other, old) ∷ entries) = ground (arith, insert_twice key value entries)
