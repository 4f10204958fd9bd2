-- ===== src/Quic/Client.antt =====
-- rpc/quic/cli/client.go: the command connection of a client, as values. What quic-go and webtransport do
-- is whether they fail, and with which error text.
pub mod Keepalive
pub mod Handlers
use zhangyu.Base.{
  ℕ, String, Bool, true, false, Option, none, some, List, ◌⊎◌, inl, inr, ◌==◌, ◌||◌, nat_eq, leb,
  if◌then◌else◌,
}
use zhangyu.Base.Dict
use zhangyu.Base.Text.{CaseTable}
use zhangyu.Rpc.InvokePath.{client_heartbeat}
use zhangyu.Rpc.Models.{
  InvokeRequest, InvokeResponse, new_invoke_request, new_invoke_response, result_error,
}
use zhangyu.Rpc.Route
use zhangyu.Rpc.Route.{InvokeRoute}
use zhangyu.Node.Peers.{Peer}

-- `Client`, with the two identifiers that the adapter keeps.
pub record Dialer (Uni Bidi : Type 0) : Type 0 where
  pub route : InvokeRoute Uni Bidi Peer
  pub connected : Bool
  pub heart_beat_seconds : ℕ
  pub terminal_id : String
  pub connection_id : String

-- `DefaultInvoker`.
abbrev pub default_invoker : {Uni Bidi : Type 0} → Dialer Uni Bidi → Option Peer
default_invoker c = c.route.default_invoker

-- What a dial meets: the errors of `Dial` and `OpenStream`, and the first request, if it is read.
pub record Dialed : Type 0 where
  pub dial_error : Option String
  pub stream_error : Option String
  pub first_request : Option InvokeRequest

-- `getHeartBeatTime` in seconds, which it stores: an `int` is its 64-bit pattern.
unfoldable get_heart_beat_time : ℕ → ℕ
get_heart_beat_time n = if nat_eq n 0 || leb 9223372036854775808 n then 20 else n

-- A value of a header, empty where it is missing.
abbrev pub header_or_empty : String → List (String × String) → String
header_or_empty key header = elim (Dict.lookup key header) [ none ↦ "" | some value ↦ value ]

-- An invoker as `NewInvoker` makes it.
abbrev pub new_invoker : String → String → Peer
new_invoker invoker_id terminal_id = record {
  terminal_id = terminal_id;
  invoker_id = invoker_id;
  remote_addr = "";
  client_ip = "";
  is_command_tunnel = false;
  http_trans_key = none;
}

-- The invoker of `AddDialInvoker`, with the identifiers that it is sent.
unfoldable pub dialed_peer : Option InvokeRequest → Peer
dialed_peer none = new_invoker "" ""
dialed_peer (some req) =
    new_invoker (header_or_empty "InvokerId" req.header) (header_or_empty "TerminalId" req.header)

-- `heartbeat` after its wait, by whether the write succeeds.
unfoldable pub heartbeat : {Uni Bidi : Type 0} → Dialer Uni Bidi → Bool → Dialer Uni Bidi
heartbeat c written = if c.connected then record c { connected = written } else c

abbrev heartbeat_request : String → InvokeRequest
heartbeat_request uuid = new_invoke_request uuid client_heartbeat

-- `Invoke`, by the response or the error of the default invoker.
unfoldable pub invoke :
    {Uni Bidi : Type 0}
    → Dialer Uni Bidi
    → InvokeRequest
    → InvokeResponse ⊎ String
    → Dialer Uni Bidi × InvokeResponse
invoke c request (inl resp) = (c, resp)
invoke c request (inr message) =
    (record c { connected = false }, new_invoke_response request.request_id result_error message)

module _ (u : CaseTable) {Uni Bidi : Type 0} where
  -- `Dial` once the stream is open. The handler of the caller sets fields of the invoker, which the
  -- route holds as a pointer.
  unfoldable pub open_dialed : Dialer Uni Bidi → Peer → Dialer Uni Bidi
  open_dialed c peer = record c {
    connected = true;
    route = Route.add_invoker u c.route peer.invoker_id peer;
  }

  -- `Dial`, with the handler and the error.
  unfoldable pub dial :
      Dialer Uni Bidi
      → Dialed
      → (Peer → Peer)
      → (Dialer Uni Bidi → Peer → Dialer Uni Bidi)
      → Dialer Uni Bidi × Option String
  unfolding open_dialed dialed_peer
  dial c d set_up connected_handler = elim d.dial_error [
    | some message ↦ (c, some message)
    | none ↦ elim d.stream_error [
      | some message ↦ (c, some message)
      | none ↦
          let peer = set_up (dialed_peer d.first_request) in
          (connected_handler (open_dialed c peer) peer, none)
    ]
  ]

  -- The handler of `ConnectTo`, up to `OnConnected`.
  abbrev pub on_dialed : Dialer Uni Bidi → Peer → Dialer Uni Bidi
  on_dialed c peer = record c {
    route = Route.set_default_invoker u c.route peer;
    connection_id = peer.invoker_id;
    terminal_id = peer.terminal_id;
  }

  -- `ConnectTo`, without the goroutine that it starts.
  unfoldable pub connect_to : Dialer Uni Bidi → Dialed → Dialer Uni Bidi × Option String
  unfolding dial
  connect_to c d = dial c d (λ peer. record peer { is_command_tunnel = true }) on_dialed
