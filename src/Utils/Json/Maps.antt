-- ===== src/Utils/Json/Maps.antt =====
-- utils/json.go, over `encoding/json`: Go maps with text keys as JSON objects, and back.
use Prim.Native.Nat.{Ordering}
use Prim.Native.String.{compare}
use zhangyu.Base.{
  ℕ, String, ◌≡◌, refl, ◌∙◌, ap, Bool, true, false, Option, none, some, List, [], ◌∷◌, ◌&&◌, ◌==◌,
  if◌then◌else◌, arith, eq_iff, eq_refl,
}
use zhangyu.Base.Dict
use zhangyu.Base.Dict.{lookup-insert}
use zhangyu.Utils.Json.{
  Json, null, num, stamp, str, arr, obj, Items, nil, cons, Fields, end, field, set_string,
}

-- Whether a key comes before another in the text of a map.
unfoldable pub before : String → String → Bool
before j k = elim (compare j k) [ Ordering.lt ↦ true | Ordering.eq ↦ false | Ordering.gt ↦ false ]

-- An object without a key, and with one more where it belongs.
unfoldable remove : String → Fields → Fields
remove key end = end
remove key (field other v fs) =
    let kept = remove key fs in if other == key then kept else field other v kept

unfoldable pub place : String → Json → Fields → Fields
unfolding before
place key v end = field key v end
place key v (field other w fs) =
    let later = place key v fs in
    if before key other then field key v (field other w fs) else field other w later

-- `m[key] = v`, on a map that is kept as the object it is marshalled to.
unfoldable pub put : String → Json → Fields → Fields
unfolding remove place
put key v fs = place key v (remove key fs)

-- The value of a key, the last one if there are several.
unfoldable pub value_of : String → Fields → Option Json
value_of key end = none
value_of key (field other v fs) =
    let here = if other == key then some v else none in
    elim (value_of key fs) [ none ↦ here | some w ↦ some w ]

-- A `map[string]string` as an object.
unfoldable pub map_fields : List (String × String) → Fields
unfolding put
map_fields [] = end
map_fields ((key, v) ∷ entries) = put key (str v) (map_fields entries)

-- An object into a `map[string]string`: a value of another type is an error, and its entry is empty.
unfoldable pub fill_map : Fields → List (String × String) → List (String × String) × Bool
fill_map end m = (m, true)
fill_map (field key v fs) m =
    let set = set_string v "" in
    let later = fill_map fs (Dict.insert key set.0 m) in (later.0, set.1 && later.1)

-- A document into an `any`, as the document that this is marshalled to. A number becomes a `float64`,
-- whose text `float` gives.
module _ (float : ℕ → ℕ) where
  unfoldable mutual
    unfolding put remove place before

    generic : Json → Json
    generic null = null
    generic (num n) = num (float n)
    generic (stamp n) = stamp n
    generic (str s) = str s
    generic (arr vs) = arr (generic_items vs)
    generic (obj fs) = obj (generic_map fs end)

    generic_items : Items → Items
    generic_items nil = nil
    generic_items (cons v vs) = cons (generic v) (generic_items vs)

    -- The entries of an object into a `map[string]any`.
    pub generic_map : Fields → Fields → Fields
    generic_map end m = m
    generic_map (field key v fs) m = generic_map fs (put key (generic v) m)

value_of-remove :
    (key read : String) (fs : Fields)
    → value_of read (remove key fs) ≡ (if key == read then none else value_of read fs)
unfolding value_of remove
value_of-remove key read end = ground arith
value_of-remove key read (field other v fs) =
    ground
      (arith, value_of-remove key read fs, eq_iff other key, eq_iff other read, eq_iff key read)

value_of-place :
    (key read : String) (v : Json) (fs : Fields)
    → value_of key fs ≡ none
    → value_of read (place key v fs) ≡ (if key == read then some v else value_of read fs)
unfolding value_of place
value_of-place key read v end e = ground arith
value_of-place key read v (field other w fs) e =
    ground
      (arith, value_of-place key read v fs, eq_iff other key, eq_iff other read, eq_iff key read)

value_of-put :
    (key read : String) (v : Json) (fs : Fields)
    → value_of read (put key v fs) ≡ (if key == read then some v else value_of read fs)
unfolding put
value_of-put key read v fs =
    value_of-place key read v (remove key fs) (value_of-remove key key fs ∙ rw (eq_refl key))
    ∙ ground (arith, value_of-remove key read fs)

-- What a map has under a key, as a document.
abbrev entry_value : Option String → Option Json
entry_value none = none
entry_value (some v) = some (str v)

value_of-map_fields :
    (key : String) (entries : List (String × String))
    → value_of key (map_fields entries) ≡ entry_value (Dict.lookup key entries)
unfolding value_of map_fields Dict.lookup
value_of-map_fields key [] = refl
value_of-map_fields key ((other, v) ∷ entries) =
    value_of-put other key (str v) (map_fields entries)
    ∙ ground (arith, value_of-map_fields key entries)

module _ (float : ℕ → ℕ) where
  abbrev later_value : Option Json → Option Json → Option Json
  later_value none o = o
  later_value (some v) o = some (generic float v)

  value_of-generic_map :
      (key : String) (fs m : Fields)
      → value_of key (generic_map float fs m) ≡ later_value (value_of key fs) (value_of key m)
  unfolding value_of generic_map
  value_of-generic_map key end m = refl
  value_of-generic_map key (field other v fs) m =
      value_of-generic_map key fs (put other (generic float v) m)
      ∙ ground (arith, value_of-put other key (generic float v) m)

abbrev filled : Option Json → Option String → Option String
filled none o = o
filled (some v) o = some (set_string v "").0

lookup-fill_map :
    (key : String) (fs : Fields) (m : List (String × String))
    → Dict.lookup key (fill_map fs m).0 ≡ filled (value_of key fs) (Dict.lookup key m)
unfolding value_of fill_map
lookup-fill_map key end m = refl
lookup-fill_map key (field other v fs) m =
    lookup-fill_map key fs (Dict.insert other (set_string v "").0 m)
    ∙ ground (arith, lookup-insert other key (set_string v "").0 m)

entry-filled :
    (float : ℕ → ℕ) (o : Option String) → filled (later_value float (entry_value o) none) none ≡ o
unfolding generic
entry-filled float none = refl
entry-filled float (some v) = refl

-- A map that was marshalled, read as an `any`, marshalled again and read as a map.
pub lookup-map_trip :
    (float : ℕ → ℕ) (key : String) (entries : List (String × String))
    → Dict.lookup key (fill_map (generic_map float (map_fields entries) end) []).0
      ≡ Dict.lookup key entries
unfolding Dict.lookup value_of
lookup-map_trip float key entries =
    lookup-fill_map key (generic_map float (map_fields entries) end) []
    ∙ ap (λ (o : Option Json). filled o none)
        (value_of-generic_map float key (map_fields entries) end
          ∙ ap (λ (o : Option Json). later_value float o none) (value_of-map_fields key entries))
    ∙ entry-filled float (Dict.lookup key entries)
