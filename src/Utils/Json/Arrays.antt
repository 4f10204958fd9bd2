-- ===== src/Utils/Json/Arrays.antt =====
-- utils/json.go: a slice of structs as a JSON array, and back.
use zhangyu.Base.{String, ◌≡◌, refl, Bool, true, false, none, some, List, [], ◌∷◌, ◌&&◌}
use zhangyu.Utils.Json.{Json, null, arr, obj, Items, nil, cons, JsonText, Struct, unmarshal_json}

module _ (codec : JsonText) {A : Type 0} ⦃struct : Struct A⦄ where
  unfoldable pub marshal_items : List A → Items
  marshal_items [] = nil
  marshal_items (a ∷ as') = cons (obj (struct.marshal a)) (marshal_items as')

  -- `GetJsonString` of a slice that is not nil.
  unfoldable pub get_json_list_string : List A → String
  unfolding marshal_items
  get_json_list_string l = codec.to_text (arr (marshal_items l))

  -- Every element is decoded, also after an error.
  unfoldable unmarshal_items : Items → List A × Bool
  unmarshal_items nil = ([], true)
  unmarshal_items (cons j items) =
      let first = unmarshal_json codec j struct.zero_value in
      let rest = unmarshal_items items in (first.0 ∷ rest.0, first.1 && rest.1)

  unfoldable unmarshal_list : Json → List A × Bool
  unfolding unmarshal_items
  unmarshal_list (arr items) = unmarshal_items items
  unmarshal_list null = ([], true)
  unmarshal_list _ = ([], false)

  -- `GetJsonValue` of a pointer to a nil slice.
  unfoldable pub get_json_list : String → List A × Bool
  unfolding unmarshal_list
  get_json_list text = elim (codec.of_text text) [ none ↦ ([], false) | some j ↦ unmarshal_list j ]

  unmarshal-marshal_items : (l : List A) → unmarshal_items (marshal_items l) ≡ (l, true)
  unfolding unmarshal_items marshal_items unmarshal_json
  unmarshal-marshal_items [] = refl
  unmarshal-marshal_items (a ∷ l) = rw (struct.unmarshal-marshal a, unmarshal-marshal_items l)

  pub get_json_list_lem : (l : List A) → get_json_list (get_json_list_string l) ≡ (l, true)
  unfolding get_json_list get_json_list_string
  get_json_list_lem l =
      rw (codec.of_text-to_text (arr (marshal_items l)), get_json_list) (unmarshal-marshal_items l)
