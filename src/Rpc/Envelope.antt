-- ===== src/Rpc/Envelope.antt =====
-- rpc/invoke.go, `WriteRequest`, `WriteResponse` and `ReadInvoke`: a message as the text of a document,
-- with its type, and back. The length before the text is that of `Rpc.Frame`.
pub mod Laws
use zhangyu.Base.{
  ℕ, String, Bool, true, false, Option, none, some, List, [], ◌&&◌, ◌||◌, ◌==◌, not, Run, returns,
  panics, if◌then◌else◌,
}
use zhangyu.Base.Strings.{join}
use zhangyu.Utils.Json.{
  Json, null, num, str, obj, Fields, end, field, JsonText, fill, set_string, set_number,
}
use zhangyu.Utils.Json.Maps.{map_fields, fill_map, generic_map, value_of}
use zhangyu.Rpc.Models.{Header, InvokeRequest, InvokeResponse}

-- The objects of a request and a response; the fields of the embedded `InvokeData` come first.
abbrev marshal_request : InvokeRequest → Fields
marshal_request r = field "RequestId" (str r.request_id) (
    field "Header" (obj (map_fields r.header))
      (field "JsonBody" (str r.json_body) (field "Path" (str r.path) end)))

abbrev pub marshal_response : InvokeResponse → Fields
marshal_response r = field "RequestId" (str r.request_id) (
    field "Header" (obj (map_fields r.header)) (
      field "JsonBody" (str r.json_body) (
        field "ResultCode" (num r.result_code) (field "ResultMessage" (str r.result_message) end))))

-- What a value does to a header: `null` makes it nil.
abbrev set_header : Json → Header → Header × Bool
set_header (obj fs) h = fill_map fs h
set_header null h = ([], true)
set_header _ h = (h, false)

-- An object into an empty request or response.
abbrev unmarshal_request : Fields → InvokeRequest
unmarshal_request fs = record {
  request_id = (fill set_string "RequestId" fs "").0;
  header = (fill set_header "Header" fs []).0;
  json_body = (fill set_string "JsonBody" fs "").0;
  path = (fill set_string "Path" fs "").0;
}

abbrev unmarshal_response : Fields → InvokeResponse
unmarshal_response fs = record {
  request_id = (fill set_string "RequestId" fs "").0;
  header = (fill set_header "Header" fs []).0;
  json_body = (fill set_string "JsonBody" fs "").0;
  result_code = (fill set_number "ResultCode" fs 0).0;
  result_message = (fill set_string "ResultMessage" fs "").0;
}

-- What `ReadInvoke` gives.
pub data Invoked : Type 0 where
  request : InvokeRequest → Invoked
  response : InvokeResponse → Invoked
  failed : String → Invoked

abbrev invalid_type_message : String → String
invalid_type_message inv_type = join "读取到的invoke类型无效：" inv_type

-- `GetJsonValue` into an `any` map and its entries: a text that is no object leaves it empty.
abbrev pub object_of : (ℕ → ℕ) → Option Json → Fields
object_of float (some (obj fs)) = generic_map float fs end
object_of float _ = end

-- The object behind a document, empty where there is none.
abbrev fields_of : Option Json → Fields
fields_of (some (obj fs)) = fs
fields_of _ = end

module _ (codec : JsonText) (float : ℕ → ℕ) where
  -- `writeInvokeData`, up to the bytes: the keys of a map are sorted.
  unfoldable pub write_invoke_data : String → Fields → String
  write_invoke_data inv_type fs =
      codec.to_text (obj (field "data" (obj fs) (field "type" (str inv_type) end)))

  unfoldable pub write_request : InvokeRequest → String
  unfolding write_invoke_data
  write_request r = write_invoke_data "1" (marshal_request r)

  unfoldable pub write_response : InvokeResponse → String
  unfolding write_invoke_data
  write_response r = write_invoke_data "2" (marshal_response r)

  -- The message of a type, from the text of its data.
  abbrev read_data : String → String → Invoked
  read_data inv_type data_text =
      if inv_type == "1"
      then request (unmarshal_request (fields_of (codec.of_text data_text)))
      else response (unmarshal_response (fields_of (codec.of_text data_text)))

  -- The assertion that the data are an object.
  abbrev assert_data : String → Option Json → Run Invoked
  assert_data inv_type (some (obj fs)) = returns (read_data inv_type (codec.to_text (obj fs)))
  assert_data inv_type _ = panics

  -- The assertion that the type is a text, and its check.
  abbrev assert_type : Option Json → Option Json → Run Invoked
  assert_type (some (str inv_type)) body =
      if not (inv_type == "1") && not (inv_type == "2")
      then returns (failed (invalid_type_message inv_type))
      else assert_data inv_type body
  assert_type _ body = panics

  -- `ReadInvoke`, from the text on.
  unfoldable pub read_invoke : String → Run Invoked
  read_invoke text =
      let v = object_of float (codec.of_text text) in
      assert_type (value_of "type" v) (value_of "data" v)
