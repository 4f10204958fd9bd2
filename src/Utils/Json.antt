-- ===== src/Utils/Json.antt =====
-- utils/json.go, over `encoding/json`: a Go struct as a JSON object, and back by filling its fields.
-- Which text stands for which document is the standard library's: an interface with its promise.
pub mod Arrays
pub mod Maps
pub mod Values
use Prim.Native.Char.{Char, code}
use zhangyu.Base.{
  ℕ, String, ◌≡◌, Bool, true, false, Option, none, some, ◌&&◌, leb, nat_eq, if◌then◌else◌, ◌+◌,
}

mutual
  pub data Json : Type 0 where
    null : Json
    num : ℕ → Json
    -- The string of an instant in RFC 3339, for a `time.Time`.
    stamp : ℕ → Json
    str : String → Json
    arr : Items → Json
    obj : Fields → Json

  pub data Items : Type 0 where
    nil : Items
    cons : Json → Items → Items

  pub data Fields : Type 0 where
    end : Fields
    field : String → Json → Fields → Fields

-- `json.Marshal` and `json.Unmarshal` on documents.
pub record JsonText : Type 0 where
  pub to_text : Json → String
  pub of_text : String → Option Json
  pub of_text-to_text : (j : Json) → of_text (to_text j) ≡ some j
  pub of_text-empty : of_text "" ≡ none

-- The folding under which `encoding/json` matches the names of fields: ASCII letters in either case,
-- the long s and the Kelvin sign.
unfoldable fold_char : Char → ℕ
fold_char c =
    if leb b'A' (code c) && leb (code c) b'Z'
    then code c + 32
    else if nat_eq (code c) 0x17F
    then b's'
    else if nat_eq (code c) 0x212A
    then b'k'
    else code c

unfoldable equal_fold : String → String → Bool
unfolding fold_char
equal_fold String.[] String.[] = true
equal_fold String.[] (String.◌∷◌ d t) = false
equal_fold (String.◌∷◌ c s) String.[] = false
equal_fold (String.◌∷◌ c s) (String.◌∷◌ d t) = nat_eq (fold_char c) (fold_char d) && equal_fold s t

-- What a value does to a field of type `string`: `null` leaves it, another type is an error.
abbrev pub set_string : Json → String → String × Bool
set_string (str s) cur = (s, true)
set_string null cur = (cur, true)
set_string _ cur = (cur, false)

abbrev pub set_number : Json → ℕ → ℕ × Bool
set_number (num n) cur = (n, true)
set_number null cur = (cur, true)
set_number _ cur = (cur, false)

abbrev pub set_time : Json → ℕ → ℕ × Bool
set_time (stamp n) cur = (n, true)
set_time null cur = (cur, true)
set_time _ cur = (cur, false)

-- All values under the name of a field, in their order.
unfoldable pub fill {ℓ} : {A : Type ℓ} → (Json → A → A × Bool) → String → Fields → A → A × Bool
unfolding equal_fold
fill set name end cur = (cur, true)
fill set name (field key v rest) cur =
    let here = if equal_fold key name then set v cur else (cur, true) in
    let later = fill set name rest here.0 in (later.0, here.1 && later.1)

-- A struct type: its zero value, its object, and the filling of its fields from an object.
pub record Struct (A : Type 0) : Type 0 where
  pub zero_value : A
  pub marshal : A → Fields
  pub unmarshal : Fields → A → A × Bool
  pub unmarshal-marshal : (a : A) → unmarshal (marshal a) zero_value ≡ (a, true)

module _ (codec : JsonText) {A : Type 0} ⦃struct : Struct A⦄ where
  -- `GetJsonString`.
  unfoldable pub get_json_string : A → String
  get_json_string a = codec.to_text (obj (struct.marshal a))

  -- A document into a struct.
  unfoldable pub unmarshal_json : Json → A → A × Bool
  unmarshal_json (obj fields) cur = struct.unmarshal fields cur
  unmarshal_json null cur = (cur, true)
  unmarshal_json _ cur = (cur, false)

  -- `GetJsonValue`: the struct as it is afterwards, and whether there was no error.
  unfoldable pub get_json_value : A → String → A × Bool
  unfolding unmarshal_json
  get_json_value cur text = elim (codec.of_text text) [
    | none ↦ (cur, false)
    | some j ↦ unmarshal_json j cur
  ]

  -- A struct that is read back from its own text, into its zero value, is the struct, without an
  -- error.
  pub get_json_value-get_json_string :
      (a : A) → get_json_value struct.zero_value (get_json_string a) ≡ (a, true)
  unfolding get_json_value get_json_string
  get_json_value-get_json_string a =
      rw (codec.of_text-to_text (obj (struct.marshal a)), get_json_value)
        (struct.unmarshal-marshal a)

  -- A text that is no document, such as the empty one, is an error and changes nothing.
  pub get_json_value_empty : (a : A) → get_json_value a "" ≡ (a, false)
  unfolding get_json_value
  get_json_value_empty a = rw (codec.of_text-empty, get_json_value)
