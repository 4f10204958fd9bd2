-- ===== src/Samples/SettingsTests.antt =====
-- app/node/node.go: starts of a node at concrete inputs.
use zhangyu.Base.{
  ℕ, String, ◌≡◌, refl, ap, true, false, Option, none, some, [], returns, ne_of_eq_false,
  if◌then◌else◌, ◌==◌,
}
use zhangyu.Base.Dict
use zhangyu.Utils.Settings.{Disk}
use zhangyu.Etcd.Keys.{node_key, tunnel_key}
use zhangyu.Etcd.Listens.{Url}
use zhangyu.Etcd.Server.{forever}
use zhangyu.Etcd.Store.{get_record, get_tunnel, put_value}
use zhangyu.Etcd.Store.Laws.{get_record-put}
use zhangyu.Etcd.Directory.{online_node_struct}
use zhangyu.Rpc.Records.{Tunnel, ListenRequest}
use zhangyu.Rpc.Records.Clients.{tunnel_struct}
use zhangyu.Node.Login.{err_response}
use zhangyu.Node.ListenAdd.{answered, listen_refusal, http_listen_add}
use zhangyu.Node.Setup.{NodeSetting, start_node, before_char, new_node}
use zhangyu.Node.Setup.Laws.{start_node_first, registered, online_node, node_restarts}
use zhangyu.System.FirstNode.{domain_message, default_domain_refuses}
use zhangyu.Samples.Ascii.{ascii}
use zhangyu.Samples.Codec.{codec}
use zhangyu.Samples.Lines.{lines}
use zhangyu.Samples.Memory.{memory, Entries}
use zhangyu.Rpc.Route.{InvokeRoute, new_invoke_route}
use zhangyu.Node.Peers.{Peer}

abbrev new_disk : Disk
new_disk = record { files = []; writable = true }

abbrev started : NodeSetting × Disk
started = start_node lines false new_disk "n1"

no_settings : Dict.lookup "node.json" new_disk.files ≡ none
unfolding Dict.lookup
no_settings = refl

abbrev local_end : String → Option String
local_end endpoint = if endpoint == "127.0.0.1:2379" then some "10.0.0.9:5000" else none

started_addr : before_char b',' started.0.etcd_addr ≡ "127.0.0.1:2379"
unfolding before_char
started_addr =
    ap (λ (n : NodeSetting). before_char b',' n.etcd_addr)
      (start_node_first lines false new_disk "n1" no_settings)

node_restarts_example :
    (new_node memory codec lines false local_end started.1 [] "n2" "c2" 8 ≡ (
      (
        started.0,
        returns (registered lines false memory codec [] started.0 "c2" "10.0.0.9:5000" 8),
      ),
      started.1,
    ))
    × (get_record memory codec
          (registered lines false memory codec [] started.0 "c2" "10.0.0.9:5000" 8)
          (node_key started.0.terminal_id)
        ≡ some (online_node lines false memory codec started.0 "c2" "10.0.0.9:5000" 8))
node_restarts_example =
    node_restarts lines false memory codec local_end new_disk [] "n1" "n2" "c2" "10.0.0.9:5000" 8
      refl (ap local_end started_addr)

abbrev a_tunnel : Tunnel
a_tunnel = record { tunnel_id = "10000001"; auth_code = "c1"; terminal_id = "alice" }

abbrev one_tunnel : Entries
one_tunnel = put_value memory codec [] (tunnel_key "10000001") a_tunnel

abbrev web_request : ListenRequest
web_request = record {
  listen_client_id = "bob";
  target_tunnel_id = "10000001";
  target_auth_code = "c1";
  listen_addr = "http://shop.example.org";
  target_addr = "http://127.0.0.1";
}

abbrev web_url : String → Url
web_url host = record { scheme = "http"; host = host; hostname = host; port = "" }

abbrev parse_web : String → Option Url
parse_web s =
    if s == "http://127.0.0.1"
    then some (web_url "127.0.0.1")
    else if s == "http://shop.example.org"
    then some (web_url "shop.example.org")
    else none

tunnel_known : get_tunnel memory codec one_tunnel "10000001" ≡ some a_tunnel
unfolding get_tunnel put_value
tunnel_known = get_record-put memory codec [] (tunnel_key "10000001") a_tunnel forever

request_fine : listen_refusal memory codec one_tunnel web_request "bob" ≡ none
unfolding listen_refusal
request_fine = rw tunnel_known refl

abbrev quiet : InvokeRoute ℕ ℕ Peer
quiet = new_invoke_route

default_domain_refuses_example :
    http_listen_add memory codec ascii quiet parse_web one_tunnel
      (some web_request)
      "bob"
      (start_node lines false new_disk "n1").0.domain
      []
      true
      "r"
      8
    ≡ answered
        (err_response (domain_message memory codec ascii quiet "shop.example.org"))
        one_tunnel
        []
default_domain_refuses_example =
    default_domain_refuses memory codec ascii quiet lines false new_disk "n1" parse_web one_tunnel
      web_request (web_url "127.0.0.1") "bob" "shop.example.org" [] true "r" 8 no_settings
      request_fine (ne_of_eq_false "http://127.0.0.1" "" refl) refl refl refl
      (ne_of_eq_false "shop.example.org" "" refl)
