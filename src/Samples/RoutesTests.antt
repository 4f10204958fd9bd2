-- ===== src/Samples/RoutesTests.antt =====
-- app/node/node.go: requests over HTTP at concrete inputs.
use mathlib.Core.List.{Mem}
use zhangyu.Base.{
  ℕ, String, ◌≡◌, ◌≢◌, ap, refl, ◌∙◌, true, Option, none, some, [], ne_of_eq_false, if◌then◌else◌,
  ◌==◌, ◌||◌, returns, true, arith,
}
use zhangyu.Base.Dict
use zhangyu.Utils.Cache
use zhangyu.Base.Strings.{has_suffix}
use zhangyu.Node.Login.{success_response}
use zhangyu.Node.HttpRoot.{transports_for, begin_root}
use zhangyu.Node.Transport.{begin_transport}
use zhangyu.System.Visit.{visitor_finds_listen}
use zhangyu.Etcd.Keys.{client_key, tunnel_key}
use zhangyu.Etcd.Listens.{Url, get_transfer_list}
use zhangyu.Etcd.Server.{forever}
use zhangyu.Etcd.Store.{get_client_rec, get_tunnel, get_jwt_sign_key, put_value}
use zhangyu.Etcd.Store.Laws.{get_record-put, get_record-same}
use zhangyu.Rpc.Records.{Tunnel, Listen, ListenRequest}
use zhangyu.Rpc.Records.Clients.{tunnel_struct, client_rec_struct}
use zhangyu.Node.ListenAdd.{answered, address, listen_refusal, listen_address, http_listen_add}
use zhangyu.Node.Response.{json, error_of, success_of, login_json, listen_json}
use zhangyu.Node.Token.{no_claim, missing_token_message}
use zhangyu.Node.Routes.{
  post, HttpRequest, HttpContext, answers, post_login, post_listen_add, post_listen_del, serve,
}
use zhangyu.Node.Routes.Forged.{node_key, forged_listen}
use zhangyu.Node.Login.{Claim}
use zhangyu.Base.Strings.{code_at}
use zhangyu.Node.Routes.Laws.{
  serve_unauthenticated, listen_of, listen_store, listen_effects, login_store, login_token,
  login_then_listen,
}
use zhangyu.Rpc.Route.{InvokeRoute, new_invoke_route}
use zhangyu.Node.Peers.{Peer, Node}
use zhangyu.Samples.Ascii.{ascii}
use zhangyu.Samples.Codec.{codec}
use zhangyu.Samples.Memory.{memory, Entries}
use zhangyu.Samples.TokenTests.{plain_jwt, alice, alice_login, alice_named}

abbrev bob_tunnel : Tunnel
bob_tunnel = record { tunnel_id = "10000002"; auth_code = "c2"; terminal_id = "bob" }

-- A store with the client that logs in and the tunnel that it asks for.
abbrev tunnels : Entries
tunnels = put_value memory codec [] (tunnel_key "10000002") bob_tunnel

abbrev two_records : Entries
two_records = put_value memory codec tunnels (client_key "alice") alice

abbrev asked : ListenRequest
asked = record {
  listen_client_id = "";
  target_tunnel_id = "10000002";
  target_auth_code = "c2";
  listen_addr = "tcp://:90";
  target_addr = "tcp://127.0.0.1:80";
}

abbrev tcp_url : String → Url
tcp_url host = record { scheme = "tcp"; host = host; hostname = ""; port = "90" }

abbrev parse_tcp : String → Option Url
parse_tcp s =
    if s == "tcp://:90"
    then some (tcp_url ":90")
    else if s == "tcp://127.0.0.1:80"
    then some (tcp_url "127.0.0.1:80")
    else none

abbrev at_time : ℕ → HttpContext
at_time unix = record {
  domain = "example.org";
  draws = [];
  drawn_key = "k";
  written = true;
  uuid = "r";
  now = 5;
  unix = unix;
}

abbrev bare : HttpRequest
bare = record {
  jwt_token = "";
  client_id = "mallory";
  param_client_id = "";
  login = none;
  listen = none;
}

abbrev quiet : InvokeRoute ℕ ℕ Peer
quiet = new_invoke_route

serve_unauthenticated_example :
    (serve memory codec plain_jwt ascii quiet parse_tcp
        (at_time 9)
        two_records
        post
        post_listen_add
        bare
      ≡ answers (json (error_of missing_token_message)) two_records [])
    × (serve memory codec plain_jwt ascii quiet parse_tcp
          (at_time 9)
          two_records
          post
          post_listen_del
          bare
        ≡ answers (json (error_of missing_token_message)) two_records [])
serve_unauthenticated_example =
    serve_unauthenticated memory codec plain_jwt ascii quiet parse_tcp (at_time 9) two_records bare
      refl

abbrev login_request : HttpRequest
login_request = record bare { login = some alice_login }

abbrev after_login : Entries
after_login =
    login_store memory codec plain_jwt ascii quiet parse_tcp two_records alice_login alice
      (at_time 9) (at_time 600) login_request bare asked (tcp_url "127.0.0.1:80") "tcp://:90" []

abbrev alice_token : String
alice_token =
    login_token memory codec plain_jwt ascii quiet parse_tcp two_records alice_login alice
      (at_time 9) (at_time 600) login_request bare asked (tcp_url "127.0.0.1:80") "tcp://:90" []

abbrev listen_request : HttpRequest
listen_request = record bare { jwt_token = alice_token; listen = some asked }

alice_known : get_client_rec memory codec two_records "alice" ≡ some alice
unfolding get_client_rec put_value
alice_known = get_record-put memory codec tunnels (client_key "alice") alice forever

bob_kept :
    memory.get after_login (tunnel_key "10000002") ≡ memory.get tunnels (tunnel_key "10000002")
unfolding get_jwt_sign_key put_value Dict.lookup Dict.insert tunnel_key client_key
bob_kept = refl

bob_known : get_tunnel memory codec after_login "10000002" ≡ some bob_tunnel
unfolding get_tunnel put_value
bob_known =
    get_record-same memory codec after_login tunnels (tunnel_key "10000002") bob_kept
    ∙ get_record-put memory codec [] (tunnel_key "10000002") bob_tunnel forever

asked_fine : listen_refusal memory codec after_login asked "alice" ≡ none
unfolding listen_refusal
asked_fine = rw bob_known refl

asked_address :
    listen_address memory codec parse_tcp "example.org" [] after_login asked
    ≡ address "tcp://:90" after_login
unfolding listen_address
asked_address = refl

login_then_listen_example :
    (serve memory codec plain_jwt ascii quiet parse_tcp
        (at_time 9)
        two_records
        post
        post_login
        login_request
      ≡ answers (json (success_of (login_json alice_token))) after_login [])
    × (serve memory codec plain_jwt ascii quiet parse_tcp
          (at_time 600)
          after_login
          post
          post_listen_add
          listen_request
        ≡ answers
            (json (
              success_of (
                listen_json (
                  listen_of memory codec plain_jwt ascii quiet parse_tcp
                    (at_time 600)
                    after_login
                    asked
                    "alice"
                    "tcp://:90"))))
            (listen_store memory codec plain_jwt ascii quiet parse_tcp
              (at_time 600)
              after_login
              asked
              (tcp_url "127.0.0.1:80")
              "alice"
              "tcp://:90")
            (listen_effects memory codec plain_jwt ascii quiet parse_tcp
              (at_time 600)
              after_login
              asked
              (tcp_url "127.0.0.1:80")
              "alice"
              "tcp://:90"))
    × Mem
        (listen_of memory codec plain_jwt ascii quiet parse_tcp
          (at_time 600)
          after_login
          asked
          "alice"
          "tcp://:90")
        (get_transfer_list memory codec
          (listen_store memory codec plain_jwt ascii quiet parse_tcp
            (at_time 600)
            after_login
            asked
            (tcp_url "127.0.0.1:80")
            "alice"
            "tcp://:90")
          "alice")
login_then_listen_example =
    login_then_listen memory codec plain_jwt ascii quiet parse_tcp two_records alice_login alice
      (at_time 9) (at_time 600) login_request listen_request asked (tcp_url "127.0.0.1:80")
      "tcp://:90" after_login refl alice_named alice_known refl refl refl (omega arith) asked_fine
      asked_address refl (ne_of_eq_false "tcp://127.0.0.1:80" "" refl)

-- A token that another key signed, from a client that calls itself alice.
abbrev forged_claim : Claim
forged_claim = record no_claim { client_id = "mallory"; expires_at = 3600 }

abbrev forged_token : String
forged_token = plain_jwt.create_token forged_claim "other"

abbrev forged_request : HttpRequest
forged_request = record bare { jwt_token = forged_token; client_id = "alice"; listen = some asked }

foreign_key :
    forged_token
    ≢ plain_jwt.create_token forged_claim (
        node_key memory codec plain_jwt ascii quiet parse_tcp
          (at_time 9)
          two_records
          after_login
          forged_request
          asked
          (tcp_url "127.0.0.1:80")
          "tcp://:90"
          forged_claim
          "other")
unfolding get_jwt_sign_key put_value Dict.lookup Dict.insert client_key tunnel_key
foreign_key e = let codes = ap (code_at 0) e in omega arith

forged_listen_example :
    (serve memory codec plain_jwt ascii quiet parse_tcp
        (at_time 9)
        two_records
        post
        post_listen_add
        forged_request
      ≡ answers
          (json (
            success_of (
              listen_json (
                listen_of memory codec plain_jwt ascii quiet parse_tcp
                  (at_time 9)
                  after_login
                  asked
                  "alice"
                  "tcp://:90"))))
          (listen_store memory codec plain_jwt ascii quiet parse_tcp
            (at_time 9)
            after_login
            asked
            (tcp_url "127.0.0.1:80")
            "alice"
            "tcp://:90")
          (listen_effects memory codec plain_jwt ascii quiet parse_tcp
            (at_time 9)
            after_login
            asked
            (tcp_url "127.0.0.1:80")
            "alice"
            "tcp://:90"))
    × Mem
        (listen_of memory codec plain_jwt ascii quiet parse_tcp
          (at_time 9)
          after_login
          asked
          "alice"
          "tcp://:90")
        (get_transfer_list memory codec
          (listen_store memory codec plain_jwt ascii quiet parse_tcp
            (at_time 9)
            after_login
            asked
            (tcp_url "127.0.0.1:80")
            "alice"
            "tcp://:90")
          "alice")
forged_listen_example =
    forged_listen memory codec plain_jwt ascii quiet parse_tcp (at_time 9) two_records after_login
      forged_request asked (tcp_url "127.0.0.1:80") "tcp://:90" forged_claim "other" refl
      foreign_key (omega arith) refl asked_fine asked_address refl
      (ne_of_eq_false "tcp://127.0.0.1:80" "" refl)

abbrev web_asked : ListenRequest
web_asked = record {
  listen_client_id = "";
  target_tunnel_id = "10000002";
  target_auth_code = "c2";
  listen_addr = "http://shop.example.net";
  target_addr = "http://127.0.0.1:80";
}

abbrev web_url : String → Url
web_url host = record { scheme = "http"; host = host; hostname = host; port = "" }

abbrev parse_web : String → Option Url
parse_web s =
    if s == "http://127.0.0.1:80"
    then some (web_url "127.0.0.1:80")
    else if s == "http://shop.example.net" || s == "https://shop.example.net"
    then some (web_url "shop.example.net")
    else none

web_fine : listen_refusal memory codec after_login web_asked "alice" ≡ none
unfolding listen_refusal
web_fine = rw bob_known refl

web_address :
    listen_address memory codec parse_web "example.org" [] after_login web_asked
    ≡ address "shop.example.net" after_login
unfolding listen_address has_suffix
web_address = refl

abbrev web_listen : Listen
web_listen =
    listen_of memory codec plain_jwt ascii quiet parse_web (at_time 9) after_login web_asked "alice"
      "shop.example.net"

abbrev web_node : Node memory
web_node = record {
  etcd =
      listen_store memory codec plain_jwt ascii quiet parse_web (at_time 9) after_login web_asked
        (web_url "127.0.0.1:80") "alice" "shop.example.net";
  transports = Cache.new_cache;
  made = [];
}

visitor_finds_listen_example :
    (http_listen_add memory codec ascii quiet parse_web after_login
        (some web_asked)
        "alice"
        "example.org"
        []
        true
        "r"
        5
      ≡ answered (success_response web_listen) web_node.etcd (
          listen_effects memory codec plain_jwt ascii quiet parse_web
            (at_time 9)
            after_login
            web_asked
            (web_url "127.0.0.1:80")
            "alice"
            "shop.example.net"))
    × (begin_root memory codec ascii parse_web quiet web_node "shop.example.net" "10.0.0.7:4" true
          "r2"
        ≡ returns (
            transports_for web_listen (
              begin_transport memory codec ascii quiet web_node web_listen "10.0.0.7:4" true "r2")))
visitor_finds_listen_example =
    visitor_finds_listen memory codec plain_jwt ascii quiet parse_web (at_time 9) after_login
      after_login web_asked (web_url "127.0.0.1:80") (web_url "shop.example.net") "alice"
      "shop.example.net" "10.0.0.7:4" web_node true "r2" web_fine web_address refl
      (ne_of_eq_false "http://127.0.0.1:80" "" refl) refl refl refl
