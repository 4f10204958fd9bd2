-- ===== src/Rpc/Models.antt =====
-- rpc/invoke.go, rpc/consts.go: requests, responses and the constants of the protocol.
use zhangyu.Base.{ℕ, String, List, []}

abbrev pub Header : Type 0
Header = List (String × String)

-- `InvokeRequest`, with its embedded `InvokeData`.
pub record InvokeRequest : Type 0 where
  pub request_id : String
  pub header : Header
  pub json_body : String
  pub path : String

-- `InvokeResponse`, with its embedded `InvokeData`.
pub record InvokeResponse : Type 0 where
  pub request_id : String
  pub header : Header
  pub json_body : String
  pub result_code : ℕ
  pub result_message : String

-- `InvokeResult_Success` and `InvokeResult_Error`.
abbrev pub result_success : ℕ
result_success = 200

abbrev pub result_error : ℕ
result_error = 400

-- `NewInvokeRequest`; the new identifier comes from `uuid.New`.
abbrev pub new_invoke_request : String → String → InvokeRequest
new_invoke_request uuid path = record {
  request_id = uuid;
  header = [];
  json_body = "";
  path = path;
}

-- `NewInvokeResponse`.
abbrev pub new_invoke_response : String → ℕ → String → InvokeResponse
new_invoke_response request_id code message = record {
  request_id = request_id;
  header = [];
  json_body = "";
  result_code = code;
  result_message = message;
}

-- `NewSuccessResponse` and `NewErrorResponse`.
abbrev pub new_success_response : String → String → InvokeResponse
new_success_response request_id message = new_invoke_response request_id result_success message

abbrev pub new_error_response : String → String → InvokeResponse
new_error_response request_id message = new_invoke_response request_id result_error message

-- `ConnectionType`.
pub data ConnectionType : Type 0 where
  command listen target : ConnectionType
  other : String → ConnectionType
