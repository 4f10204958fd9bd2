-- ===== src/Rpc/Records/Requests.antt =====
-- rpc/models.go: `LoginRequest` and `ListenRequest` as JSON objects, under the names and options of
-- their tags.
use zhangyu.Base.{String, ◌≡◌, Bool, true, ◌&&◌, ◌==◌, if◌then◌else◌, arith, eq_iff}
use zhangyu.Utils.Json.{str, Fields, end, field, set_string, fill, Struct}
use zhangyu.Rpc.Records.{LoginRequest, ListenRequest}

-- A field with `omitempty`.
abbrev pub field_nonempty : String → String → Fields → Fields
field_nonempty name v rest = if v == "" then rest else field name (str v) rest

abbrev marshal_login_request : LoginRequest → Fields
marshal_login_request r = field_nonempty "clientId" r.client_id (
    field_nonempty "token" r.token
      (field_nonempty "appId" r.app_id (field_nonempty "secret" r.secret end)))

abbrev unmarshal_login_request : Fields → LoginRequest → LoginRequest × Bool
unmarshal_login_request fs r =
    let client_id = fill set_string "clientId" fs r.client_id in
    let token = fill set_string "token" fs r.token in
    let app_id = fill set_string "appId" fs r.app_id in
    let secret = fill set_string "secret" fs r.secret in
    (
      record { client_id = client_id.0; token = token.0; app_id = app_id.0; secret = secret.0 },
      client_id.1 && token.1 && app_id.1 && secret.1,
    )

abbrev pub no_login_request : LoginRequest
no_login_request = record { client_id = ""; token = ""; app_id = ""; secret = "" }

pub login_request_trip :
    (r : LoginRequest)
    → unmarshal_login_request (marshal_login_request r) no_login_request ≡ (r, true)
unfolding fill
login_request_trip r =
    ground (arith, eq_iff r.client_id "", eq_iff r.token "", eq_iff r.app_id "", eq_iff r.secret "")

instance abbrev pub login_request_struct : Struct LoginRequest
login_request_struct = record {
  zero_value = no_login_request;
  marshal = marshal_login_request;
  unmarshal = unmarshal_login_request;
  unmarshal-marshal = login_request_trip;
}

abbrev pub marshal_listen_request : ListenRequest → Fields
marshal_listen_request r = field "listenClientId" (str r.listen_client_id) (
    field "targetTunnelId" (str r.target_tunnel_id) (
      field "targetAuthCode" (str r.target_auth_code)
        (field "listenAddr" (str r.listen_addr) (field_nonempty "targetAddr" r.target_addr end))))

abbrev unmarshal_listen_request : Fields → ListenRequest → ListenRequest × Bool
unmarshal_listen_request fs r =
    let listen_client_id = fill set_string "listenClientId" fs r.listen_client_id in
    let target_tunnel_id = fill set_string "targetTunnelId" fs r.target_tunnel_id in
    let target_auth_code = fill set_string "targetAuthCode" fs r.target_auth_code in
    let listen_addr = fill set_string "listenAddr" fs r.listen_addr in
    let target_addr = fill set_string "targetAddr" fs r.target_addr in
    (
      record {
        listen_client_id = listen_client_id.0;
        target_tunnel_id = target_tunnel_id.0;
        target_auth_code = target_auth_code.0;
        listen_addr = listen_addr.0;
        target_addr = target_addr.0;
      },
      listen_client_id.1 && target_tunnel_id.1 && target_auth_code.1 && listen_addr.1
          && target_addr.1,
    )

abbrev no_listen_request : ListenRequest
no_listen_request = record {
  listen_client_id = "";
  target_tunnel_id = "";
  target_auth_code = "";
  listen_addr = "";
  target_addr = "";
}

pub listen_request_trip :
    (r : ListenRequest)
    → unmarshal_listen_request (marshal_listen_request r) no_listen_request ≡ (r, true)
unfolding fill
listen_request_trip r = ground (arith, eq_iff r.target_addr "")

instance abbrev pub listen_request_struct : Struct ListenRequest
listen_request_struct = record {
  zero_value = no_listen_request;
  marshal = marshal_listen_request;
  unmarshal = unmarshal_listen_request;
  unmarshal-marshal = listen_request_trip;
}
