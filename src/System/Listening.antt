-- ===== src/System/Listening.antt =====
-- app/node/node.go, app/client/client.go: how a listening client learns of its listens.
use zhangyu.Base.{String, ◌≡◌, ◌∙◌, true, Option, some, [], ◌∷◌, returns, arith, eq_iff}
use zhangyu.Utils.Json.{JsonText, get_json_value, get_json_string, unmarshal_json, fill, obj}
use zhangyu.Utils.Json.Arrays.{get_json_list_lem}
use zhangyu.Etcd.Server.{Server}
use zhangyu.Etcd.Listens.{Url, get_transfer_list}
use zhangyu.Rpc.Models.{InvokeRequest}
use zhangyu.Rpc.Records.{Listen, ListenRequest}
use zhangyu.Rpc.Records.Listens.{listen_struct, no_listen, unmarshal_listen}
use zhangyu.Rpc.Records.Requests.{listen_request_struct, marshal_listen_request}
use zhangyu.Node.Peers.{Peer}
use zhangyu.Node.ListenAdd.{listen_notice}
use zhangyu.Node.Transfer.{on_invoker_transfer_list}
use zhangyu.Client.{opens_listener}
use zhangyu.Client.Listens.{
  tcp_listen, add_listen, add_listens, on_transfer_list, on_invoker_listen_add,
}

-- The listen that a client reads from the notice of a request to listen.
abbrev noticed : ListenRequest → String → String → Listen
noticed req client_id addr = record no_listen {
  listen_client_id = client_id;
  target_tunnel_id = req.target_tunnel_id;
  listen_addr = addr;
  target_addr = req.target_addr;
}

request-fills :
    (r : ListenRequest)
    → unmarshal_listen (marshal_listen_request r) no_listen ≡ (
      record no_listen {
        listen_client_id = r.listen_client_id;
        target_tunnel_id = r.target_tunnel_id;
        listen_addr = r.listen_addr;
        target_addr = r.target_addr;
      },
      true,
    )
unfolding fill
request-fills r = ground (arith, eq_iff r.target_addr "")

module _ (srv : Server) (codec : JsonText) where
  request-as-listen :
      (r : ListenRequest)
      → get_json_value codec no_listen (get_json_string codec r) ≡ (
        record no_listen {
          listen_client_id = r.listen_client_id;
          target_tunnel_id = r.target_tunnel_id;
          listen_addr = r.listen_addr;
          target_addr = r.target_addr;
        },
        true,
      )
  unfolding get_json_value get_json_string unmarshal_json
  request-as-listen r =
      rw (codec.of_text-to_text (obj (marshal_listen_request r)), get_json_value) (request-fills r)

  module _ (parse : String → Option Url) where
    notice-known :
        (uuid : String) (req : ListenRequest) (client_id addr : String)
        → on_invoker_listen_add codec parse (listen_notice srv codec uuid req client_id addr)
          ≡ add_listen codec parse (noticed req client_id addr)
    unfolding on_invoker_listen_add
    notice-known uuid req client_id addr =
        rw (request-as-listen (record req { listen_client_id = client_id; listen_addr = addr }))

    add_listen-tcp :
        (l : Listen) (url : Url)
        → parse l.listen_addr ≡ some url
        → url.scheme ≡ "tcp"
        → add_listen codec parse l ≡ returns (opens_listener url.host l ∷ [])
    unfolding add_listen tcp_listen
    add_listen-tcp l url e tcp = rw (e, add_listen, tcp, tcp_listen, e)

    -- The notice of a listen whose address parses to a TCP URL makes the client that reads it open
    -- a listener on the URL's host, for the tunnel and the target of the request to listen.
    listen_notice_opens :
        (uuid : String) (req : ListenRequest) (client_id addr : String) (url : Url)
        → parse addr ≡ some url
        → url.scheme ≡ "tcp"
        → on_invoker_listen_add codec parse (listen_notice srv codec uuid req client_id addr)
          ≡ returns (opens_listener url.host (noticed req client_id addr) ∷ [])
    listen_notice_opens uuid req client_id addr url e tcp =
        notice-known uuid req client_id addr ∙ add_listen-tcp (noticed req client_id addr) url e tcp

    transfer_list_opens :
        (s : srv.State) (peer : Peer) (request : InvokeRequest)
        → on_transfer_list codec parse (some (on_invoker_transfer_list srv codec s peer request))
          ≡ add_listens codec parse (get_transfer_list srv codec s peer.terminal_id)
    unfolding on_transfer_list on_invoker_transfer_list
    transfer_list_opens s peer request =
        rw (get_json_list_lem codec (get_transfer_list srv codec s peer.terminal_id))
