-- ===== src/Rpc/Records/Listens.antt =====
-- rpc/models.go: `Listen` as JSON objects. Their fields have no tags, so each is named as in the source.
use zhangyu.Base.{◌≡◌, refl, Bool, true, ◌&&◌}
use zhangyu.Utils.Json.{stamp, str, Fields, end, field, set_string, set_time, fill, Struct}
use zhangyu.Rpc.Records.{Listen}

abbrev pub marshal_listen : Listen → Fields
marshal_listen r = field "ListenClientId" (str r.listen_client_id) (
    field "ListenTunnelId" (str r.listen_tunnel_id) (
      field "TargetClientId" (str r.target_client_id) (
        field "TargetTunnelId" (str r.target_tunnel_id) (
          field "ListenAddr" (str r.listen_addr) (
            field "TargetAddr" (str r.target_addr)
              (field "CreateTime" (stamp r.create_time) (end)))))))

abbrev pub unmarshal_listen : Fields → Listen → Listen × Bool
unmarshal_listen fs r =
    let listen_client_id = fill set_string "ListenClientId" fs r.listen_client_id in
    let listen_tunnel_id = fill set_string "ListenTunnelId" fs r.listen_tunnel_id in
    let target_client_id = fill set_string "TargetClientId" fs r.target_client_id in
    let target_tunnel_id = fill set_string "TargetTunnelId" fs r.target_tunnel_id in
    let listen_addr = fill set_string "ListenAddr" fs r.listen_addr in
    let target_addr = fill set_string "TargetAddr" fs r.target_addr in
    let create_time = fill set_time "CreateTime" fs r.create_time in
    (
      record {
        listen_client_id = listen_client_id.0;
        listen_tunnel_id = listen_tunnel_id.0;
        target_client_id = target_client_id.0;
        target_tunnel_id = target_tunnel_id.0;
        listen_addr = listen_addr.0;
        target_addr = target_addr.0;
        create_time = create_time.0;
      },
      listen_client_id.1 && listen_tunnel_id.1 && target_client_id.1 && target_tunnel_id.1
          && listen_addr.1 && target_addr.1 && create_time.1,
    )

abbrev pub no_listen : Listen
no_listen = record {
  listen_client_id = "";
  listen_tunnel_id = "";
  target_client_id = "";
  target_tunnel_id = "";
  listen_addr = "";
  target_addr = "";
  create_time = 0;
}

pub listen_trip : (r : Listen) → unmarshal_listen (marshal_listen r) no_listen ≡ (r, true)
unfolding fill
listen_trip r = refl

instance abbrev pub listen_struct : Struct Listen
listen_struct = record {
  zero_value = no_listen;
  marshal = marshal_listen;
  unmarshal = unmarshal_listen;
  unmarshal-marshal = listen_trip;
}
