-- ===== src/Rpc/Envelope/Laws.antt =====
-- rpc/invoke.go: theorems about `WriteRequest`, `WriteResponse` and `ReadInvoke`.
use zhangyu.Base.{ℕ, String, ◌≡◌, refl, returns, []}
use zhangyu.Base.Dict
use zhangyu.Utils.Json.{JsonText, end, fill}
use zhangyu.Utils.Json.Maps.{map_fields, fill_map, generic_map, value_of, lookup-map_trip}
use zhangyu.Rpc.Models.{Header, InvokeRequest, InvokeResponse}
use zhangyu.Rpc.Envelope.{
  request, response, write_invoke_data, write_request, write_response, read_invoke, object_of,
}

module _ (codec : JsonText) (float : ℕ → ℕ) where
  -- A header after its way through an `any`.
  abbrev carried : Header → Header
  carried header = (fill_map (generic_map float (map_fields header) end) []).0

  read-write_request :
      (r : InvokeRequest)
      → read_invoke codec float (write_request codec float r)
        ≡ returns (request (record r { header = carried r.header }))
  unfolding read_invoke write_request write_invoke_data generic_map value_of fill
  read-write_request r = rw (codec.of_text-to_text _, object_of) (rw (codec.of_text-to_text _) refl)

  read-write_response :
      (r : InvokeResponse)
      → float r.result_code ≡ r.result_code
      → read_invoke codec float (write_response codec float r)
        ≡ returns (response (record r { header = carried r.header }))
  unfolding read_invoke write_response write_invoke_data generic_map value_of fill
  read-write_response r exact =
      rw (codec.of_text-to_text _, object_of) (rw (codec.of_text-to_text _) (rw exact refl))

  -- A request that is written is read back as the same request, without an error, with a header
  -- that has the same value, or none, under every key.
  pub request_trip :
      (r : InvokeRequest)
      → (h : Header) × (read_invoke codec float (write_request codec float r)
          ≡ returns (request (record r { header = h })))
        × ((key : String) → Dict.lookup key h ≡ Dict.lookup key r.header)
  request_trip r =
      (carried r.header, read-write_request r, λ key. lookup-map_trip float key r.header)

  response_trip :
      (r : InvokeResponse)
      → float r.result_code ≡ r.result_code
      → (h : Header) × (read_invoke codec float (write_response codec float r)
          ≡ returns (response (record r { header = h })))
        × ((key : String) → Dict.lookup key h ≡ Dict.lookup key r.header)
  response_trip r exact =
      (carried r.header, read-write_response r exact, λ key. lookup-map_trip float key r.header)
