-- ===== src/Samples/TransferTests.antt =====
-- A connection between two clients at concrete inputs.
use zhangyu.Base.{
  ℕ, String, ◌≡◌, refl, ◌∙◌, ◌==◌, Option, some, [], ◌∷◌, true, false, returns, eq_refl,
}
use zhangyu.Base.Dict
use zhangyu.Base.Text.{to_lower, trim_space}
use zhangyu.Utils.Json.{get_json_string}
use zhangyu.Utils.Cache
use zhangyu.Utils.Cache.{get_key}
use zhangyu.Utils.Cache.Valid.{IsValid, set_item-IsValid}
use zhangyu.Utils.Cache.Access.{get-set_item}
use zhangyu.Utils.Cache.Runs.{Reach-IsValid, start}
use zhangyu.Etcd.Keys.{online_client_key, tunnel_key}
use zhangyu.Etcd.Server.{forever}
use zhangyu.Etcd.Listens.{Url}
use zhangyu.Etcd.Store.{get_tunnel, get_online_client, put_online_client, put_value_keep_alive}
use zhangyu.Etcd.Store.Laws.{get_record-put, get_record-same}
use zhangyu.Node.Login.Laws.{online-put, get_invoker-online}
use zhangyu.Rpc.Records.{Listen, Tunnel}
use zhangyu.Rpc.Records.Clients.{client_rec_struct, online_client_struct, tunnel_struct}
use zhangyu.Rpc.Records.Requests.{login_request_struct}
use zhangyu.Rpc.Route.{InvokeRoute}
use zhangyu.Rpc.Route
use zhangyu.Node.Peers
use zhangyu.Node.Peers.{Peer, Node, get_invoker}
use zhangyu.Node.Transfer.{on_invoker_listen_in, on_invoker_transfer_go}
use zhangyu.Client
use zhangyu.Client.{dials}
use zhangyu.Client.Listens.{listen_in_request}
use zhangyu.Client.DialOut.{dial_host, dial_scheme, go_request, on_invoker_dial_out}
use zhangyu.System.Forward.{forwarded, connection_forwarded}
use zhangyu.Samples.Ascii.{ascii, ascii_lower, lower_letter}
use zhangyu.Samples.Codec.{codec}
use zhangyu.Samples.Memory.{memory, Entries}
use zhangyu.Samples.NodeTests.{alice_peer, second_route, second_invoker, a_node, newer}

-- The store of a client that is online, and with its tunnel.
abbrev newer_online : Entries
newer_online = put_online_client memory codec [] "alice" newer

abbrev alice_tunnel : Tunnel
alice_tunnel = record { tunnel_id = "10000001"; terminal_id = "alice"; auth_code = "c1" }

abbrev tunnel_store : Entries
tunnel_store =
    memory.put newer_online (tunnel_key "10000001") (get_json_string codec alice_tunnel) forever

tunnel_known : get_tunnel memory codec tunnel_store "10000001" ≡ some alice_tunnel
unfolding get_tunnel
tunnel_known = get_record-put memory codec newer_online (tunnel_key "10000001") alice_tunnel forever

still_online :
    memory.get tunnel_store (online_client_key "alice")
    ≡ memory.get newer_online (online_client_key "alice")
unfolding Dict.lookup Dict.insert online_client_key tunnel_key put_online_client
    put_value_keep_alive
still_online = refl

abbrev transfer_node : Node memory
transfer_node = record a_node { etcd = tunnel_store }

abbrev tcp_url : Url
tcp_url = record { scheme = "tcp"; host = "127.0.0.1:22"; hostname = "127.0.0.1"; port = "22" }

abbrev parse_tcp : String → Option Url
parse_tcp address = some tcp_url

abbrev ssh_listen : Listen
ssh_listen = record {
  listen_client_id = "bob";
  listen_tunnel_id = "10000002";
  target_client_id = "alice";
  target_tunnel_id = "10000001";
  listen_addr = "tcp://:90";
  target_addr = "tcp://127.0.0.1:22";
  create_time = 4;
}

abbrev bob_peer : Peer
bob_peer = record alice_peer { terminal_id = "bob"; invoker_id = "i7"; is_command_tunnel = false }

abbrev bob_route : InvokeRoute ℕ ℕ Peer
bob_route = record second_route {
  invokes = Cache.set_item ascii second_route.invokes "i7" bob_peer;
}

second-IsValid : IsValid ascii second_route.invokes
second-IsValid = set_item-IsValid ascii Cache.new_cache "i2" alice_peer (Reach-IsValid ascii start)

keys_differ : get_key ascii "i7" == get_key ascii "i2" ≡ false
unfolding get_key to_lower trim_space ascii_lower lower_letter
keys_differ = refl

bob_found : Route.get_invoker ascii bob_route "i7" ≡ some bob_peer
unfolding Route.get_invoker
bob_found =
    get-set_item ascii second_route.invokes second-IsValid "i7" bob_peer "i7"
    ∙ rw (eq_refl (get_key ascii "i7"))

alice_found : Route.get_invoker ascii bob_route "i2" ≡ some alice_peer
unfolding Route.get_invoker
alice_found =
    get-set_item ascii second_route.invokes second-IsValid "i7" bob_peer "i2"
    ∙ rw keys_differ second_invoker

target_online : get_invoker memory codec ascii bob_route tunnel_store "alice" ≡ some alice_peer
unfolding get_online_client
target_online =
    get_invoker-online memory codec ascii bob_route tunnel_store "alice" newer (
      get_record-same memory codec tunnel_store newer_online (online_client_key "alice")
        still_online
      ∙ online-put memory codec [] "alice" newer)
    ∙ alice_found

-- The connection that the target opens.
abbrev alice_dial : Peer
alice_dial = record alice_peer { invoker_id = "i8"; is_command_tunnel = false }

connection_forwarded_example :
    (on_invoker_listen_in memory codec ascii bob_route tunnel_store true bob_peer
        (listen_in_request codec parse_tcp "r" ssh_listen)
      ≡ returns (
          Peers.writes alice_peer (
            forwarded memory codec ascii parse_tcp bob_route transfer_node "r" ssh_listen bob_peer
              alice_peer)
          ∷ []))
    × (on_invoker_dial_out codec parse_tcp
          (forwarded memory codec ascii parse_tcp bob_route transfer_node "r" ssh_listen bob_peer
            alice_peer)
          true
          true
        ≡ returns (
            Client.writes (
              go_request (
                forwarded memory codec ascii parse_tcp bob_route transfer_node "r" ssh_listen
                  bob_peer alice_peer))
            ∷ dials "tcp" (dial_host tcp_url tcp_url)
            ∷ Client.copies
            ∷ []))
    × (on_invoker_transfer_go memory codec ascii bob_route transfer_node alice_dial (
          go_request (
            forwarded memory codec ascii parse_tcp bob_route transfer_node "r" ssh_listen bob_peer
              alice_peer))
        ≡ (transfer_node, Peers.copies alice_dial bob_peer ∷ []))
unfolding dial_scheme
connection_forwarded_example =
    connection_forwarded memory codec ascii parse_tcp bob_route transfer_node "r" ssh_listen
      bob_peer alice_peer alice_tunnel tcp_url tcp_url alice_dial tunnel_known target_online refl
      refl refl bob_found refl refl
