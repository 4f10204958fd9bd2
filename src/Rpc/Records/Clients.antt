-- ===== src/Rpc/Records/Clients.antt =====
-- rpc/models.go: `ClientRec`, `Tunnel` and `OnlineClient` as JSON objects. Their fields have no tags, so each is named as in the source.
use zhangyu.Base.{◌≡◌, refl, Bool, true, ◌&&◌}
use zhangyu.Utils.Json.{
  num, stamp, str, Fields, end, field, set_string, set_number, set_time, fill, Struct,
}
use zhangyu.Rpc.Records.{ClientRec, Tunnel, OnlineClient}

abbrev marshal_client_rec : ClientRec → Fields
marshal_client_rec r = field "ClientId" (str r.client_id) (
    field "Token" (str r.token) (
      field "TunnelId" (str r.tunnel_id)
        (field "AuthCode" (str r.auth_code) (field "CreateTime" (stamp r.create_time) (end)))))

abbrev unmarshal_client_rec : Fields → ClientRec → ClientRec × Bool
unmarshal_client_rec fs r =
    let client_id = fill set_string "ClientId" fs r.client_id in
    let token = fill set_string "Token" fs r.token in
    let tunnel_id = fill set_string "TunnelId" fs r.tunnel_id in
    let auth_code = fill set_string "AuthCode" fs r.auth_code in
    let create_time = fill set_time "CreateTime" fs r.create_time in
    (
      record {
        client_id = client_id.0;
        token = token.0;
        tunnel_id = tunnel_id.0;
        auth_code = auth_code.0;
        create_time = create_time.0;
      },
      client_id.1 && token.1 && tunnel_id.1 && auth_code.1 && create_time.1,
    )

abbrev pub no_client_rec : ClientRec
no_client_rec = record {
  client_id = "";
  token = "";
  tunnel_id = "";
  auth_code = "";
  create_time = 0;
}

pub client_rec_trip :
    (r : ClientRec) → unmarshal_client_rec (marshal_client_rec r) no_client_rec ≡ (r, true)
unfolding fill
client_rec_trip r = refl

instance abbrev pub client_rec_struct : Struct ClientRec
client_rec_struct = record {
  zero_value = no_client_rec;
  marshal = marshal_client_rec;
  unmarshal = unmarshal_client_rec;
  unmarshal-marshal = client_rec_trip;
}

abbrev marshal_tunnel : Tunnel → Fields
marshal_tunnel r =
    field "TunnelId" (str r.tunnel_id)
      (field "TerminalId" (str r.terminal_id) (field "AuthCode" (str r.auth_code) (end)))

abbrev unmarshal_tunnel : Fields → Tunnel → Tunnel × Bool
unmarshal_tunnel fs r =
    let tunnel_id = fill set_string "TunnelId" fs r.tunnel_id in
    let terminal_id = fill set_string "TerminalId" fs r.terminal_id in
    let auth_code = fill set_string "AuthCode" fs r.auth_code in
    (
      record { tunnel_id = tunnel_id.0; terminal_id = terminal_id.0; auth_code = auth_code.0 },
      tunnel_id.1 && terminal_id.1 && auth_code.1,
    )

abbrev no_tunnel : Tunnel
no_tunnel = record { tunnel_id = ""; terminal_id = ""; auth_code = "" }

pub tunnel_trip : (r : Tunnel) → unmarshal_tunnel (marshal_tunnel r) no_tunnel ≡ (r, true)
unfolding fill
tunnel_trip r = refl

instance abbrev pub tunnel_struct : Struct Tunnel
tunnel_struct = record {
  zero_value = no_tunnel;
  marshal = marshal_tunnel;
  unmarshal = unmarshal_tunnel;
  unmarshal-marshal = tunnel_trip;
}

abbrev pub marshal_online_client : OnlineClient → Fields
marshal_online_client r = field "NodeId" (str r.node_id) (
    field "ClientId" (str r.client_id) (
      field "InvokerId" (str r.invoker_id) (
        field "ConnectTime" (stamp r.connect_time) (
          field "RemoteAddr" (str r.remote_addr) (
            field "ClientIP" (str r.client_ip) (
              field "SendBytes" (num r.send_bytes)
                (field "ReceiveBytes" (num r.receive_bytes) (end))))))))

abbrev unmarshal_online_client : Fields → OnlineClient → OnlineClient × Bool
unmarshal_online_client fs r =
    let node_id = fill set_string "NodeId" fs r.node_id in
    let client_id = fill set_string "ClientId" fs r.client_id in
    let invoker_id = fill set_string "InvokerId" fs r.invoker_id in
    let connect_time = fill set_time "ConnectTime" fs r.connect_time in
    let remote_addr = fill set_string "RemoteAddr" fs r.remote_addr in
    let client_ip = fill set_string "ClientIP" fs r.client_ip in
    let send_bytes = fill set_number "SendBytes" fs r.send_bytes in
    let receive_bytes = fill set_number "ReceiveBytes" fs r.receive_bytes in
    (
      record {
        node_id = node_id.0;
        client_id = client_id.0;
        invoker_id = invoker_id.0;
        connect_time = connect_time.0;
        remote_addr = remote_addr.0;
        client_ip = client_ip.0;
        send_bytes = send_bytes.0;
        receive_bytes = receive_bytes.0;
      },
      node_id.1 && client_id.1 && invoker_id.1 && connect_time.1 && remote_addr.1 && client_ip.1
          && send_bytes.1 && receive_bytes.1,
    )

abbrev pub no_online_client : OnlineClient
no_online_client = record {
  node_id = "";
  client_id = "";
  invoker_id = "";
  connect_time = 0;
  remote_addr = "";
  client_ip = "";
  send_bytes = 0;
  receive_bytes = 0;
}

pub online_client_trip :
    (r : OnlineClient)
    → unmarshal_online_client (marshal_online_client r) no_online_client ≡ (r, true)
unfolding fill
online_client_trip r = refl

instance abbrev pub online_client_struct : Struct OnlineClient
online_client_struct = record {
  zero_value = no_online_client;
  marshal = marshal_online_client;
  unmarshal = unmarshal_online_client;
  unmarshal-marshal = online_client_trip;
}
