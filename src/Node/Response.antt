-- ===== src/Node/Response.antt =====
-- utils/response.go, app/node/node.go: the JSON that a node answers over HTTP.
use zhangyu.Base.{String, Option, none, some, List, Bool}
use zhangyu.Utils.Json.{get_json_value, Struct, Json, str, arr, obj, Fields, end, field, JsonText}
use zhangyu.Utils.Json.Arrays.{marshal_items}
use zhangyu.Etcd.Directory.{Domain, domain_struct}
use zhangyu.Rpc.Records.{Listen}
use zhangyu.Rpc.Records.Listens.{marshal_listen}
use zhangyu.Rpc.Records.Requests.{field_nonempty}
use zhangyu.Node.Login.{Reply, success_response, err_response, bind_error}

-- `Response`, with what its data is as JSON; nil is `none`.
pub record Response : Type 0 where
  pub status : String
  pub message : String
  data_json : Option Json

-- `ErrResponse` and `SuccessResponse`.
abbrev pub error_of : String → Response
error_of message = record { status = "error"; message = message; data_json = none }

abbrev pub success_of : Json → Response
success_of j = record { status = "success"; message = ""; data_json = some j }

abbrev data_field : Option Json → Fields
data_field none = end
data_field (some j) = field "data" j end

unfoldable pub marshal_response : Response → Fields
marshal_response r =
    field "status" (str r.status) (field_nonempty "message" r.message (data_field r.data_json))

-- What a handler has written: a `Response`, nothing after a request that does not bind, or nothing.
pub data Answer : Type 0 where
  json : Response → Answer
  bind_failed : Answer
  empty : Answer

unfoldable pub answer_of {ℓ} : {A : Type ℓ} → (A → Json) → Reply A → Answer
answer_of to_json (success_response a) = json (success_of (to_json a))
answer_of to_json (err_response message) = json (error_of message)
answer_of to_json bind_error = bind_failed

-- The data of the handlers: a `LoginResponse`, a listen, a list of domains.
abbrev pub login_json : String → Json
login_json token = obj (field "tokenString" (str token) end)

abbrev pub listen_json : Listen → Json
listen_json l = obj (marshal_listen l)

abbrev pub domains_json : JsonText → List Domain → Json
domains_json codec l = arr (marshal_items codec {A = Domain} l)

-- The bodies of `successResponse` and `errorResponse`, which come with status 200.
unfoldable response_text : JsonText → Response → String
response_text codec r = codec.to_text (obj (marshal_response r))

unfoldable success_text : JsonText → Json → String
unfolding response_text
success_text codec j = response_text codec (success_of j)

unfoldable error_text : JsonText → String → String
unfolding response_text
error_text codec message = response_text codec (error_of message)

-- `getJsonValue`, with what is read of the body; the error of the read is dropped.
unfoldable get_body_value : {A : Type 0} → ⦃struct : Struct A⦄ → JsonText → A → String → A × Bool
get_body_value codec a body = get_json_value codec a body
