-- ===== src/Node/ListenAdd.antt =====
-- app/node/node.go, `httpHandler_ListenAdd`: a client asks to listen for another's tunnel.
pub mod Grounds
pub mod Laws
use zhangyu.Base.{
  ℕ, String, Bool, true, false, Option, none, some, List, [], ◌∷◌, ◌&&◌, ◌||◌, ◌==◌, not,
  if◌then◌else◌,
}
use zhangyu.Base.Strings.{join, has_suffix}
use zhangyu.Base.Text.{CaseTable}
use zhangyu.Utils.Json.{JsonText, get_json_string}
use zhangyu.Etcd.Server.{Server}
use zhangyu.Etcd.Store.{get_tunnel}
use zhangyu.Etcd.Register.{generate_domain_name}
use zhangyu.Etcd.Listens.{Url, is_http, add_listen_with_tunnel}
use zhangyu.Rpc.InvokePath.{transfer_listen_add}
use zhangyu.Rpc.Models.{InvokeRequest, new_invoke_request}
use zhangyu.Rpc.Records.{Tunnel, Listen, ListenRequest}
use zhangyu.Rpc.Records.Requests.{listen_request_struct}
use zhangyu.Rpc.Route.{InvokeRoute}
use zhangyu.Node.Login.{Reply, success_response, err_response, bind_error}
use zhangyu.Node.Peers.{Peer, Effect, writes, closes, get_invoker}

-- What becomes of the listening address: a refusal, an address with the store, a nil URL, or no free
-- domain name among the draws.
pub data Address (srv : Server) : Type 0 where
  refused : String → Address srv
  address : String → srv.State → Address srv
  nil_url : Address srv
  no_name : Address srv

-- What the handler does: it answers, with the store and the effects that it leaves, it meets a nil URL,
-- or it still draws names.
pub data Added (srv : Server) : Type 0 where
  answered : Reply Listen → srv.State → List Effect → Added srv
  crashes : Added srv
  still_draws : Added srv

-- The host of a listening address: empty for the empty address.
abbrev pub listen_host : (String → Option Url) → String → Option String
listen_host parse addr =
    if addr == "" then some "" else elim (parse addr) [ none ↦ none | some url ↦ some url.hostname ]

module _ (srv : Server) (codec : JsonText) where
  open srv use {State}

  -- The checks of the client, the tunnel and its code, in order.
  abbrev check_tunnel : ListenRequest → Option Tunnel → Option String
  check_tunnel req none = some (join "无效的客户端TunnelId:" req.target_tunnel_id)
  check_tunnel req (some tunnel) =
      if tunnel.auth_code == req.target_auth_code then none else some "AuthCode验证失败"

  unfoldable pub listen_refusal : State → ListenRequest → String → Option String
  listen_refusal s req client_id =
      if not (req.listen_client_id == "") && not (req.listen_client_id == client_id)
      then some (join "无效的客户端ID:" req.listen_client_id)
      else if req.target_tunnel_id == ""
      then some "TargetClientId不能为空"
      else check_tunnel req (get_tunnel srv codec s req.target_tunnel_id)

  -- The request that tells a client of its listen.
  abbrev pub listen_notice : String → ListenRequest → String → String → InvokeRequest
  listen_notice uuid req client_id addr = record (new_invoke_request uuid transfer_listen_add) {
    json_body =
        get_json_string codec (record req { listen_client_id = client_id; listen_addr = addr });
  }

  -- The address for an HTTP target: a name below the node's domain is only given by the node.
  abbrev http_address : String → List ℕ → State → String → Address srv
  http_address domain draws s host =
      if not (host == "") && has_suffix host domain
      then refused (join "添加http/https流量转发失败,不能指定域名[" (join host "]"))
      else if host == ""
      then elim (generate_domain_name srv codec domain s draws) [
        | none ↦ no_name
        | some (name, s') ↦ address name s'
      ]
      else address host s

  abbrev plain_address : State → String → Address srv
  plain_address s addr = if addr == "" then refused "ListenAddr不能为空" else address addr s

  unfoldable pub listen_address :
      (String → Option Url) → String → List ℕ → State → ListenRequest → Address srv
  listen_address parse domain draws s req =
      if req.target_addr == ""
      then plain_address s req.listen_addr
      else elim (parse req.target_addr) [
        | none ↦ nil_url
        | some target ↦ elim (listen_host parse req.listen_addr) [
          | none ↦ nil_url
          | some host ↦
              if is_http target.scheme
              then http_address domain draws s host
              else if target.scheme == "tcp" || target.scheme == "udp"
              then plain_address s req.listen_addr
              else address req.listen_addr s
        ]
      ]

  module _ (u : CaseTable) {Uni Bidi : Type 0} (route : InvokeRoute Uni Bidi Peer) where
    abbrev pub tell : Bool → InvokeRequest → Option Peer → List Effect
    tell written request none = []
    tell written request (some peer) =
        if written then writes peer request ∷ [] else writes peer request ∷ closes peer ∷ []

    -- The listen is stored, and the invoker of the request's own `ListenClientId` is told.
    unfoldable pub add_and_tell :
        (String → Option Url)
        → Bool
        → String
        → ℕ
        → ListenRequest
        → String
        → String
        → State
        → Added srv
    add_and_tell parse written uuid now req client_id addr s =
        elim (add_listen_with_tunnel srv codec parse s req.target_tunnel_id client_id addr
          req.target_addr now) [
            | none ↦ crashes
            | some (listen, s') ↦ answered (success_response listen) s' (
                tell written (listen_notice uuid req client_id addr)
                  (get_invoker srv codec u route s' req.listen_client_id))
          ]

    -- The end of the handler, by what became of the address.
    unfoldable pub answer_address :
        (String → Option Url)
        → State
        → Bool
        → String
        → ℕ
        → ListenRequest
        → String
        → Address srv
        → Added srv
    answer_address parse s written uuid now req client_id (refused message) =
        answered (err_response message) s []
    answer_address parse s written uuid now req client_id (address addr s') =
        add_and_tell parse written uuid now req client_id addr s'
    answer_address parse s written uuid now req client_id nil_url = crashes
    answer_address parse s written uuid now req client_id no_name = still_draws

    -- `httpHandler_ListenAdd`, with what `Bind` gives, the header that names the client, the node's
    -- domain, the draws for a name, whether the write succeeds, a new identifier and the time.
    unfoldable pub http_listen_add :
        (String → Option Url)
        → State
        → Option ListenRequest
        → String
        → String
        → List ℕ
        → Bool
        → String
        → ℕ
        → Added srv
    http_listen_add parse s none client_id domain draws written uuid now = answered bind_error s []
    http_listen_add parse s (some req) client_id domain draws written uuid now =
        elim (listen_refusal s req client_id) [
          | some message ↦ answered (err_response message) s []
          | none ↦
              answer_address parse s written uuid now req client_id
                (listen_address parse domain draws s req)
        ]
