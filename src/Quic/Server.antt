-- ===== src/Quic/Server.antt =====
-- rpc/quic/srv/server.go: how a server takes a connection in, and what its invoker's close does. What
-- quic-go and webtransport do is whether they fail, and with which error text.
pub mod Laws
use zhangyu.Base.{
  ℕ, String, Bool, true, false, Option, none, some, List, [], ◌∷◌, ◌++◌, ◌==◌, not, nat_eq, ◌&&◌,
  if◌then◌else◌,
}
use zhangyu.Base.Text.{CaseTable}
use zhangyu.Utils.Cache
use zhangyu.Utils.Http.{HttpHeader, get_real_remote_addr}
use zhangyu.Utils.Json.{JsonText, get_json_string}
use zhangyu.Rpc.InvokePath.{client_set_id, client_new}
use zhangyu.Rpc.Models.{
  InvokeRequest, ConnectionType, command, listen, target, other, new_invoke_request,
}
use zhangyu.Rpc.Records.{ClientRec}
use zhangyu.Rpc.Records.Clients.{client_rec_struct}
use zhangyu.Rpc.Route.{InvokeRoute}
use zhangyu.Rpc.Route
use zhangyu.Node.Peers.{Peer, Effect}

-- `ServerAdapter`, over the state behind it. `OnNewClientRec` gives nothing where it still draws.
pub record Adapter {ℓ} (State : Type ℓ) : Type ℓ where
  pub get_invoker : State → String → Option Peer
  pub on_new_client_rec : State → Option (ClientRec × State)
  pub on_close_client : State → Peer → State × List Effect

-- What comes with a connection: its header, its address, the fresh identifier, and the errors of
-- `Upgrade`, `AcceptStream` and the two writes, if they fail.
pub record Incoming : Type 0 where
  pub header : HttpHeader
  pub remote_addr : String
  pub invoker_id : String
  pub upgrade_error : Option String
  pub stream_error : Option String
  pub set_id_error : Option String
  pub client_new_error : Option String

-- What the handler does, in order.
pub data Act : Type 0 where
  http_error : String → Act
  writes : InvokeRequest → Act
  closes : Act
  dispatches : Peer → Act
  connection_in : ConnectionType → Peer → Act

-- What it leaves.
pub record Upgraded {ℓ} (State : Type ℓ) (Uni Bidi : Type 0) : Type ℓ where
  pub state : State
  pub route : InvokeRoute Uni Bidi Peer
  pub acts : List Act

-- The constants of `ConnectionType`.
abbrev connection_type_of : String → ConnectionType
connection_type_of name =
    if name == "Command"
    then command
    else if name == "Instance_Listen"
    then listen
    else if name == "Instance_Target"
    then target
    else other name

-- The two headers of a connection.
abbrev pub terminal_id_of : Incoming → String
terminal_id_of i = i.header "Zhangyu-Connection-TerminalId"

abbrev pub type_of : Incoming → ConnectionType
type_of i = connection_type_of (i.header "Zhangyu-Connection-Type")

abbrev pub is_command : ConnectionType → Bool
is_command command = true
is_command _ = false

-- `InvalidInvokerConnect`.
abbrev pub invalid_invoker_connect : String
invalid_invoker_connect = "无效的WebTransport连接"

-- `LeaseSeconds`: it stores the default where none was set.
unfoldable pub lease_seconds : ℕ → ℕ
lease_seconds n = if nat_eq n 0 then 30 else n

-- The message of a connection that has no command connection behind it; the handler goes on.
abbrev unattached : Bool → Option Peer → List Act
unattached false none = http_error invalid_invoker_connect ∷ []
unattached _ _ = []

module _ (codec : JsonText) (u : CaseTable) (uuid : String) where
  -- The request that gives an invoker its identifiers.
  abbrev pub set_id_request : String → String → InvokeRequest
  set_id_request invoker_id terminal_id = record (new_invoke_request uuid client_set_id) {
    header = ("InvokerId", invoker_id) ∷ ("TerminalId", terminal_id) ∷ [];
  }

  -- The request that gives a new client its record.
  abbrev pub client_new_request : ClientRec → InvokeRequest
  client_new_request rec = record (new_invoke_request uuid client_new) {
    json_body = get_json_string codec rec;
  }

  -- The invoker of a connection, once its fields are set.
  abbrev pub accepted_peer : Incoming → String → Peer
  accepted_peer i terminal_id = record {
    terminal_id = terminal_id;
    invoker_id = i.invoker_id;
    remote_addr = get_real_remote_addr i.header i.remote_addr;
    client_ip = get_real_remote_addr i.header i.remote_addr;
    is_command_tunnel = is_command (type_of i);
    http_trans_key = none;
  }

  -- The end of the handler: commands are dispatched, other connections go to the adapter.
  abbrev pub handed_on : ConnectionType → Peer → Act
  handed_on command peer = dispatches peer
  handed_on t peer = connection_in t peer

  module _ {ℓ} {State : Type ℓ} {Uni Bidi : Type 0} (a : Adapter State) where
    abbrev pub stops :
        State → InvokeRoute Uni Bidi Peer → List Act → String → Upgraded State Uni Bidi
    stops s route acts message = record {
      state = s;
      route = route;
      acts = acts ++ http_error message ∷ [];
    }

    -- `SetOnClose` of an accepted invoker: it leaves the route, and the adapter is told.
    unfoldable on_close :
        State → InvokeRoute Uni Bidi Peer → Peer → State × InvokeRoute Uni Bidi Peer
    on_close s route peer =
        ((a.on_close_client s peer).0, Route.remove_invoker u route peer.invoker_id)

    -- From the close handler on: a new client is told its record.
    unfoldable pub greet :
        State
        → InvokeRoute Uni Bidi Peer
        → List Act
        → Incoming
        → Peer
        → Option ClientRec
        → Upgraded State Uni Bidi
    unfolding on_close
    greet s route acts i peer none = record {
      state = s;
      route = route;
      acts = acts ++ handed_on (type_of i) peer ∷ [];
    }
    greet s route acts i peer (some rec) = elim i.client_new_error [
      | none ↦ record {
        state = s;
        route = route;
        acts = acts ++ writes (client_new_request rec) ∷ handed_on (type_of i) peer ∷ [];
      }
      | some message ↦
          stops (on_close s route peer).0 (on_close s route peer).1
            (acts ++ writes (client_new_request rec) ∷ closes ∷ []) message
    ]

    -- From `AddAcceptInvoker` on. A failed write closes the invoker before its close handler is set.
    unfoldable pub accept :
        State
        → InvokeRoute Uni Bidi Peer
        → List Act
        → Incoming
        → String
        → Option ClientRec
        → Upgraded State Uni Bidi
    unfolding greet
    accept s route acts i terminal_id rec =
        let peer = accepted_peer i terminal_id in
        let route' = Route.add_invoker u route i.invoker_id peer in
        let acts' = acts ++ writes (set_id_request i.invoker_id terminal_id) ∷ [] in
        elim i.set_id_error [
          | some message ↦ stops s route' (acts' ++ closes ∷ []) message
          | none ↦ greet s route' acts' i peer rec
        ]

    -- From `Upgrade` on.
    unfoldable pub open_stream :
        State
        → InvokeRoute Uni Bidi Peer
        → List Act
        → Incoming
        → String
        → Option ClientRec
        → Upgraded State Uni Bidi
    unfolding accept
    open_stream s route acts i terminal_id rec = elim i.upgrade_error [
      | some message ↦ stops s route acts message
      | none ↦ elim i.stream_error [
        | some message ↦ stops s route acts message
        | none ↦ accept s route acts i terminal_id rec
      ]
    ]

    -- `upgradeWebTransport`: a command connection without a terminal is a new client.
    unfoldable pub upgrade_web_transport :
        State → InvokeRoute Uni Bidi Peer → Incoming → Option (Upgraded State Uni Bidi)
    unfolding open_stream
    upgrade_web_transport s route i =
        if is_command (type_of i) && terminal_id_of i == ""
        then elim (a.on_new_client_rec s) [
          | none ↦ none
          | some (rec, s') ↦ some (open_stream s' route [] i rec.client_id (some rec))
        ]
        else some (
            open_stream s route
              (unattached (is_command (type_of i)) (a.get_invoker s (terminal_id_of i))) i
              (terminal_id_of i) none)

  -- `OnInvokerHeartbeat`.
  unfoldable on_invoker_heartbeat :
      {Uni Bidi : Type 0} → InvokeRoute Uni Bidi Peer → Peer → InvokeRoute Uni Bidi Peer
  on_invoker_heartbeat route peer =
      if peer.is_command_tunnel then Route.set_expire u route peer.invoker_id 30 else route

-- `httpRoot`: which of two handlers takes a request.
unfoldable pub http_root {ℓ} : {A : Type ℓ} → String → String → A → A → A
http_root quic_path request_uri next on_http_root =
    if request_uri == quic_path then next else on_http_root
