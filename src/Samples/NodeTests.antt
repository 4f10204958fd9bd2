-- ===== src/Samples/NodeTests.antt =====
-- app/node/node.go: handlers at concrete inputs.
use zhangyu.Base.{◌∷◌, ◌∙◌, eq_refl}
use zhangyu.Base.Dict
use zhangyu.Utils.Cache.{get_key}
use zhangyu.Utils.Cache.Runs.{Reach-IsValid, start}
use zhangyu.Utils.Cache.Access.{get-set_item}
use zhangyu.Rpc.Records.{Listen}
use zhangyu.Node.Peers.{writes, signals}
use zhangyu.Node.Login.Laws.{get_invoker-online}
use zhangyu.Node.Transfer.{on_invoker_transfer_go}
use zhangyu.Node.Transport.{
  begin_transport, end_transport, waits_for, serves, transport_key, transport_request,
}
use zhangyu.Node.Transport.Laws.{attached, transport_served}
use zhangyu.Base.{ℕ, String, ◌≡◌, refl, Option, none, some, [], true, ◌⊎◌, ◌≢◌, ◌==◌, if◌then◌else◌}
use zhangyu.Utils.Json.{get_json_string, get_json_value-get_json_string}
use zhangyu.Utils.Cache
use zhangyu.Etcd.Keys.{client_key}
use zhangyu.Etcd.Listens.{Url}
use zhangyu.Etcd.Store.{get_client_rec, get_online_client, put_online_client, get_jwt_sign_key}
use zhangyu.Etcd.Store.Laws.{get_record-put}
use zhangyu.Etcd.Server.{forever}
use zhangyu.Rpc.Models.{InvokeRequest, new_invoke_request}
use zhangyu.Rpc.Records.{ClientRec, OnlineClient, LoginRequest, ListenRequest}
use zhangyu.Rpc.Records.Clients.{client_rec_struct, online_client_struct}
use zhangyu.Rpc.Records.Requests.{login_request_struct}
use zhangyu.Rpc.Route.{InvokeRoute, new_invoke_route}
use zhangyu.Rpc.Route
use zhangyu.Node.Peers.{Peer, Node, get_invoker, on_close_client}
use zhangyu.Node.Peers.Laws.{on_close_client-online}
use zhangyu.Node.Login.{
  Claim, success_response, err_response, client_claim, on_invoker_client_login, http_login,
}
use zhangyu.Node.Login.Laws.{
  accepted, Proves, Refused, client_login-cases, client_login-get_invoker, http_login-cases,
  online-put,
}
use zhangyu.Node.ListenAdd.Laws.{IsRefused, IsUnanswered, IsAdded, result, http_listen_add-cases}
use zhangyu.Samples.Ascii.{ascii}
use zhangyu.Samples.Codec.{codec}
use zhangyu.Samples.Memory.{memory, Entries}

abbrev pub alice : ClientRec
alice = record {
  client_id = "alice";
  token = "t1";
  tunnel_id = "10000001";
  auth_code = "c1";
  create_time = 4;
}

abbrev pub alice_login : LoginRequest
alice_login = record { client_id = "alice"; token = "t1"; app_id = ""; secret = "" }

abbrev pub one_client : Entries
one_client = memory.put [] (client_key "alice") (get_json_string codec alice) forever

pub alice_known : get_client_rec memory codec one_client "alice" ≡ some alice
unfolding get_client_rec
alice_known = get_record-put memory codec [] (client_key "alice") alice forever

abbrev pub alice_peer : Peer
alice_peer = record {
  terminal_id = "alice";
  invoker_id = "i1";
  remote_addr = "10.0.0.1:5";
  client_ip = "10.0.0.1";
  is_command_tunnel = true;
  http_trans_key = none;
}

abbrev pub login_request : InvokeRequest
login_request = record (new_invoke_request "r1" "/client/login") {
  json_body = get_json_string codec alice_login;
}

pub alice-Proves : Proves memory codec one_client "node" alice_peer login_request 9 alice
alice-Proves = (alice_login, get_json_value-get_json_string codec alice_login, refl, refl)

client_login-cases_example :
    ((rec : ClientRec) × (get_client_rec memory codec one_client "alice" ≡ some rec)
      × Proves memory codec one_client "node" alice_peer login_request 9 rec
      × (on_invoker_client_login memory codec one_client "node" alice_peer login_request 9
          ≡ accepted memory codec one_client "node" alice_peer login_request 9 rec))
    ⊎ Refused memory codec one_client "node" alice_peer login_request 9
        (on_invoker_client_login memory codec one_client "node" alice_peer login_request 9)
client_login-cases_example =
    client_login-cases memory codec one_client "node" alice_peer login_request 9

abbrev one_route : InvokeRoute ℕ ℕ Peer
one_route = record new_invoke_route {
  invokes = Cache.set_item ascii Cache.new_cache "i1" alice_peer;
}

client_login-get_invoker_example :
    get_invoker memory codec ascii one_route
      (on_invoker_client_login memory codec one_client "node" alice_peer login_request 9).etcd
      "alice"
    ≡ Route.get_invoker ascii one_route "i1"
client_login-get_invoker_example =
    client_login-get_invoker memory codec one_client "node" alice_peer login_request 9 ascii
      one_route alice alice_known alice-Proves

abbrev plain_sign : Claim → String → String
plain_sign claim key = claim.client_id

http_login-cases_example :
    ((rec : ClientRec) × (get_client_rec memory codec one_client "alice" ≡ some rec)
      × (rec.token ≡ "t1")
      × (alice_login.client_id ≢ "")
      × (http_login memory codec plain_sign one_client (some alice_login) "k" 9 ≡ (
        success_response (
            plain_sign
              (client_claim memory codec "alice" 9)
              (get_jwt_sign_key memory codec one_client "k").0),
        (get_jwt_sign_key memory codec one_client "k").1,
      )))
    ⊎ (http_login memory codec plain_sign one_client (some alice_login) "k" 9
        ≡ (err_response "当前客户端身份认证失败", one_client))
http_login-cases_example = http_login-cases memory codec plain_sign one_client alice_login "k" 9

-- Another invoker of the same client has logged in since.
abbrev pub newer : OnlineClient
newer = record {
  node_id = "node";
  client_id = "alice";
  invoker_id = "i2";
  connect_time = 8;
  remote_addr = "10.0.0.1:6";
  client_ip = "10.0.0.1";
  send_bytes = 0;
  receive_bytes = 0;
}

abbrev pub a_node : Node memory
a_node = record {
  etcd = put_online_client memory codec one_client "alice" newer;
  transports = Cache.new_cache;
  made = [];
}

on_close_client-online_example :
    get_online_client memory codec
      (on_close_client memory codec ascii a_node alice_peer).0.etcd
      "alice"
    ≡ (if "i2" == "i1"
        then (if "alice" == "alice"
            then none
            else get_online_client memory codec a_node.etcd "alice")
        else get_online_client memory codec a_node.etcd "alice")
on_close_client-online_example =
    on_close_client-online memory codec ascii a_node alice_peer newer "alice" refl
      (online-put memory codec one_client "alice" newer)

abbrev parse_none : String → Option Url
parse_none s = none

abbrev a_request : ListenRequest
a_request = record {
  listen_client_id = "bob";
  target_tunnel_id = "10000001";
  target_auth_code = "c1";
  listen_addr = "tcp://:90";
  target_addr = "";
}

http_listen_add-cases_example :
    IsRefused memory codec parse_none "example.org" [] one_client a_request "bob" ascii one_route
      true "u" 9
      (result memory codec parse_none "example.org" [] one_client a_request "bob" ascii one_route
        true "u" 9)
    ⊎ (IsUnanswered memory codec parse_none "example.org" [] one_client a_request "bob" ascii
          one_route true "u" 9
          (result memory codec parse_none "example.org" [] one_client a_request "bob" ascii
            one_route true "u" 9)
        ⊎ IsAdded memory codec parse_none "example.org" [] one_client a_request "bob" ascii
            one_route true "u" 9
            (result memory codec parse_none "example.org" [] one_client a_request "bob" ascii
              one_route true "u" 9))
http_listen_add-cases_example =
    http_listen_add-cases memory codec parse_none "example.org" [] one_client a_request "bob" ascii
      one_route true "u" 9

abbrev pub a_listen : Listen
a_listen = record {
  listen_client_id = "bob";
  listen_tunnel_id = "10000002";
  target_client_id = "alice";
  target_tunnel_id = "10000001";
  listen_addr = "c1.example.org";
  target_addr = "http://127.0.0.1:80";
  create_time = 4;
}

abbrev pub second_route : InvokeRoute ℕ ℕ Peer
second_route = record new_invoke_route {
  invokes = Cache.set_item ascii Cache.new_cache "i2" alice_peer;
}

pub second_invoker : Route.get_invoker ascii second_route "i2" ≡ some alice_peer
unfolding Route.get_invoker
second_invoker =
    get-set_item ascii Cache.new_cache (Reach-IsValid ascii start) "i2" alice_peer "i2"
    ∙ rw (eq_refl (get_key ascii "i2"))

pub alice_online : get_invoker memory codec ascii second_route a_node.etcd "alice" ≡ some alice_peer
alice_online =
    get_invoker-online memory codec ascii second_route a_node.etcd "alice" newer
      (online-put memory codec one_client "alice" newer)
    ∙ second_invoker

abbrev transfer_go_request : InvokeRequest
transfer_go_request = record (new_invoke_request "r3" "/transfer/go") {
  header = ("HttpTransKey", "10000001|10.0.0.9:7") ∷ [];
}

transport_served_example :
    (p : ℕ) × (waiting after : Node memory) × (begin_transport memory codec ascii second_route
        a_node a_listen "10.0.0.9:7" true "u"
      ≡ waits_for p waiting
          (writes alice_peer (transport_request memory codec ascii "u" a_listen "10.0.0.9:7") ∷ []))
    × (on_invoker_transfer_go memory codec ascii one_route waiting alice_peer transfer_go_request
        ≡ (after, signals p ∷ []))
    × (end_transport memory codec ascii after p a_listen "10.0.0.9:7"
        ≡ serves p
            (attached memory codec ascii alice_peer (transport_key a_listen "10.0.0.9:7"))
            after)
unfolding Dict.lookup Cache.get Cache.find
transport_served_example =
    transport_served memory codec ascii second_route one_route a_node a_listen "10.0.0.9:7" "u"
      alice_peer alice_peer transfer_go_request (Reach-IsValid ascii start) refl alice_online refl
