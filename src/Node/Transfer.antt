-- ===== src/Node/Transfer.antt =====
-- app/node/node.go: the handlers that lead a listener's connection to its target, and the watcher of
-- online records.
use zhangyu.Base.{
  String, Option, none, some, List, [], ◌∷◌, set, get_elem?, ◌==◌, ◌||◌, Bool, true, false, Run,
  returns, panics, if◌then◌else◌,
}
use zhangyu.Base.Dict
use zhangyu.Base.Text.{CaseTable, to_lower}
use zhangyu.Utils.Json.Arrays.{get_json_list_string}
use zhangyu.Etcd.Listens.{get_transfer_list}
use zhangyu.Rpc.Models.{InvokeResponse, new_invoke_response, result_success}
use zhangyu.Utils.Json.{JsonText, get_json_value}
use zhangyu.Utils.Cache
use zhangyu.Etcd.Server.{Server}
use zhangyu.Etcd.Store.{get_tunnel}
use zhangyu.Rpc.Models.{InvokeRequest, Header, new_invoke_request}
use zhangyu.Rpc.InvokePath.{transfer_target_out, client_kick}
use zhangyu.Rpc.Records.Listens.{listen_struct, no_listen}
use zhangyu.Rpc.Records.Clients.{tunnel_struct, online_client_struct, no_online_client}
use zhangyu.Rpc.Route.{InvokeRoute}
use zhangyu.Rpc.Route
use zhangyu.Node.Peers.{Peer, Node, Effect, writes, closes, copies, signals, get_invoker}

-- `m[key]` on a map of strings.
abbrev pub header_value : Header → String → String
header_value h key = elim (Dict.lookup key h) [ none ↦ "" | some v ↦ v ]

-- The request that goes on to the target.
abbrev pub target_out : Peer → InvokeRequest → InvokeRequest
target_out invoker request = record request {
  path = transfer_target_out;
  header =
      Dict.insert "ListenClientId" invoker.terminal_id
        (Dict.insert "ListenInvokerId" invoker.invoker_id request.header);
}

-- The write to the target, and what follows if it fails.
abbrev forward : Bool → Peer → Peer → InvokeRequest → List Effect
forward true target invoker request = writes target request ∷ []
forward false target invoker request = writes target request ∷ closes target ∷ closes invoker ∷ []

-- `Copy` of one invoker to another: a command connection is never copied.
abbrev pub copy : Peer → Peer → List Effect
copy invoker other =
    if invoker.is_command_tunnel || other.is_command_tunnel then [] else copies invoker other ∷ []

abbrev pub copy_to : Peer → Option Peer → List Effect
copy_to invoker none = []
copy_to invoker (some listener) = copy invoker listener

module _ (srv : Server) (u : CaseTable) where
  -- The pointer of a transport is given its invoker, and the request that waits for it is told.
  unfoldable pub serve_transport : Node srv → String → Peer → Node srv × List Effect
  serve_transport n key invoker = elim (Cache.get u n.transports key) [
    | none ↦ (n, [])
    | some p ↦ elim (get_elem? n.made p) [
      | none ↦ (n, [])
      | some t ↦ (
        record n {
          made =
              set n.made p
                (record t { invoker = some (record invoker { http_trans_key = some key }) });
        },
        signals p ∷ [],
      )
    ]
  ]

module _ (srv : Server) (codec : JsonText) where
  -- `onInvokerTransferList`.
  unfoldable pub on_invoker_transfer_list : srv.State → Peer → InvokeRequest → InvokeResponse
  on_invoker_transfer_list s invoker request =
      record (new_invoke_response request.request_id result_success "") {
        json_body = get_json_list_string codec (get_transfer_list srv codec s invoker.terminal_id);
      }

module _ (srv : Server) (codec : JsonText) (u : CaseTable) {Uni Bidi : Type 0} where
  open srv use {State}

  -- `onInvokerListenIn`, with whether the write succeeds: a tunnel that is absent is a nil pointer.
  unfoldable pub on_invoker_listen_in :
      InvokeRoute Uni Bidi Peer → State → Bool → Peer → InvokeRequest → Run (List Effect)
  on_invoker_listen_in route s written invoker request =
      let (listen, fine) = get_json_value codec no_listen request.json_body in
      let go : Run (List Effect) = elim (get_tunnel srv codec s listen.target_tunnel_id) [
        | none ↦ panics
        | some tunnel ↦ returns (elim (get_invoker srv codec u route s tunnel.terminal_id) [
          | none ↦ []
          | some target ↦ forward written target invoker (target_out invoker request)
        ])
      ] in
      if fine then go else returns []

  -- `onInvokerTransferGo`.
  unfoldable pub on_invoker_transfer_go :
      InvokeRoute Uni Bidi Peer → Node srv → Peer → InvokeRequest → Node srv × List Effect
  on_invoker_transfer_go route n invoker request =
      let key = header_value request.header "HttpTransKey" in
      if key == ""
      then (
        n,
        copy_to invoker (Route.get_invoker u route (header_value request.header "ListenInvokerId")),
      )
      else serve_transport srv u n key invoker

  -- `onWatcher_ClientOnline`: the invoker of the record that was replaced is told to leave.
  unfoldable pub on_watcher_client_online :
      InvokeRoute Uni Bidi Peer → String → String → String → List Effect
  on_watcher_client_online route uuid event_type prev_value =
      let (online, fine) = get_json_value codec no_online_client prev_value in
      let kick : List Effect = elim (Route.get_invoker u route online.invoker_id) [
        | none ↦ []
        | some old ↦
            writes old (record (new_invoke_request uuid client_kick) {
              header = ("Message", "有新的客户端上线，当前客户端已被服务端踢下线") ∷ [];
            })
            ∷ []
      ] in
      if to_lower u event_type == "put"
      then (if prev_value == "" then [] else if fine then kick else [])
      else []
