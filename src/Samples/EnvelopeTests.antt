-- ===== src/Samples/EnvelopeTests.antt =====
-- rpc/invoke.go: messages at concrete inputs.
use zhangyu.Base.{ℕ, String, ◌≡◌, [], ◌∷◌, returns}
use zhangyu.Base.Dict
use zhangyu.Rpc.Models.{Header, InvokeRequest}
use zhangyu.Rpc.Envelope.{request, read_invoke, write_request}
use zhangyu.Rpc.Envelope.Laws.{request_trip}
use zhangyu.Samples.Codec.{codec}

abbrev exact : ℕ → ℕ
exact n = n

abbrev a_request : InvokeRequest
a_request = record {
  request_id = "r1";
  header = ("TerminalId", "u") ∷ ("InvokerId", "i1") ∷ [];
  json_body = "{}";
  path = "/client/login";
}

request_trip_example :
    (h : Header) × (read_invoke codec exact (write_request codec exact a_request)
      ≡ returns (request (record a_request { header = h })))
    × ((key : String) → Dict.lookup key h ≡ Dict.lookup key a_request.header)
request_trip_example = request_trip codec exact a_request
