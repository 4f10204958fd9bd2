-- ===== src/Utils/Json/Values.antt =====
-- utils/json.go: `JsonValue`, and `GetJsonFromReader`.
use zhangyu.Base.{String, ◌≡◌, ap, Bool, false, Option, none, some}
use zhangyu.Utils.Json.{
  JsonText, Struct, get_json_string, get_json_value, get_json_value-get_json_string,
}

pub record JsonValue : Type 0 where
  pub value : String

module _ (codec : JsonText) {A : Type 0} ⦃struct : Struct A⦄ where
  -- `SetValue`, `GetValue`, whose error is dropped, and `String`.
  unfoldable pub set_value : JsonValue → A → JsonValue
  set_value s a = record s { value = get_json_string codec a }

  unfoldable pub get_value : JsonValue → A → A
  get_value s a = (get_json_value codec a s.value).0

  -- `GetJsonFromReader`, with what is read, if there is no error: whether it gives an error.
  unfoldable get_json_from_reader : Option String → A → A × Bool
  get_json_from_reader none a = (a, false)
  get_json_from_reader (some text) a = get_json_value codec a text

  get_value-set_value : (s : JsonValue) (a : A) → get_value (set_value s a) struct.zero_value ≡ a
  unfolding get_value set_value
  get_value-set_value s a = ap (λ (r : A × Bool). r.0) (get_json_value-get_json_string codec a)
