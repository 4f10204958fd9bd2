-- ===== src/System/Connect.antt =====
-- rpc/quic/srv/server.go, rpc/quic/cli/client.go: both ends of a new connection.
use zhangyu.Base.{String, ◌≡◌, refl, ◌∙◌, true, none, some, eq_refl}
use zhangyu.Base.Dict
use zhangyu.Base.Text.{CaseTable}
use zhangyu.Utils.Cache.{get_key}
use zhangyu.Utils.Cache.Valid.{IsValid}
use zhangyu.Utils.Cache.Access.{get-set_item}
use zhangyu.Utils.Json.{JsonText}
use zhangyu.Rpc.Route.{InvokeRoute}
use zhangyu.Rpc.Route
use zhangyu.Node.Peers.{Peer}
use zhangyu.Quic.Server.{Incoming, set_id_request, accepted_peer}
use zhangyu.Quic.Server.Laws.{with_invoker, get-with_invoker}
use zhangyu.Quic.Client.{
  Dialer, default_invoker, Dialed, new_invoker, dialed_peer, dial, open_dialed, on_dialed,
  connect_to,
}

module _ (codec : JsonText) (u : CaseTable) (uuid : String) where
  -- A dial on which nothing fails, and whose first request is the server's.
  abbrev pub dialed_with : String → String → Dialed
  dialed_with invoker_id terminal_id = record {
    dial_error = none;
    stream_error = none;
    first_request = some (set_id_request codec u uuid invoker_id terminal_id);
  }

  -- The invoker of a client's command connection.
  abbrev pub command_peer : String → String → Peer
  command_peer invoker_id terminal_id = record (new_invoker invoker_id terminal_id) {
    is_command_tunnel = true;
  }

  module _ {Uni Bidi : Type 0} (c : Dialer Uni Bidi) where
    abbrev pub connected : String → String → Dialer Uni Bidi
    connected invoker_id terminal_id =
        on_dialed u (open_dialed u c (command_peer invoker_id terminal_id))
          (command_peer invoker_id terminal_id)

    connect-connected :
        (invoker_id terminal_id : String)
        → connect_to u c (dialed_with invoker_id terminal_id)
          ≡ (connected invoker_id terminal_id, none)
    unfolding connect_to dial dialed_peer Dict.lookup
    connect-connected invoker_id terminal_id = refl

    get-connected :
        (invoker_id terminal_id : String)
        → IsValid u c.route.invokes
        → Route.get_invoker u (connected invoker_id terminal_id).route invoker_id
          ≡ some (command_peer invoker_id terminal_id)
    unfolding Route.get_invoker open_dialed
    get-connected invoker_id terminal_id v =
        get-set_item u c.route.invokes v invoker_id (command_peer invoker_id terminal_id) invoker_id
        ∙ rw (eq_refl (get_key u invoker_id))

    -- If the client's dial succeeds and reads the identifiers that the server writes for a
    -- connection, both routes, if they were valid, find an invoker of the same two identifiers
    -- under the identifier of the invoker, and it is the client's default invoker.
    connect_agrees :
        (route : InvokeRoute Uni Bidi Peer) (i : Incoming) (terminal_id : String)
        → IsValid u c.route.invokes
        → IsValid u route.invokes
        → (connect_to u c (dialed_with i.invoker_id terminal_id)
            ≡ (connected i.invoker_id terminal_id, none))
          × (default_invoker (connected i.invoker_id terminal_id)
              ≡ some (command_peer i.invoker_id terminal_id))
          × (Route.get_invoker u (connected i.invoker_id terminal_id).route i.invoker_id
              ≡ some (command_peer i.invoker_id terminal_id))
          × (Route.get_invoker u (with_invoker codec u uuid route i terminal_id) i.invoker_id
              ≡ some (accepted_peer codec u uuid i terminal_id))
    connect_agrees route i terminal_id v v' = (
      connect-connected i.invoker_id terminal_id,
      refl,
      get-connected i.invoker_id terminal_id v,
      get-with_invoker codec u uuid route i terminal_id v',
    )
