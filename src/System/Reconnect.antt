-- ===== src/System/Reconnect.antt =====
-- app/client/client.go, rpc/quic/cli/client.go, rpc/quic/srv/server.go: a client with an identifier connects.
use zhangyu.Base.{String, ◌≡◌, ◌≢◌, refl, none, some, [], ◌∷◌, eq_false}
use zhangyu.Base.Dict
use zhangyu.Base.Text.{CaseTable}
use zhangyu.Utils.Cache.Valid.{IsValid}
use zhangyu.Utils.Json.{JsonText}
use zhangyu.Rpc.Route.{InvokeRoute}
use zhangyu.Rpc.Route
use zhangyu.Node.Peers.{Peer}
use zhangyu.Quic.Server.{
  Adapter, Incoming, Upgraded, writes, dispatches, set_id_request, accepted_peer,
  upgrade_web_transport, open_stream, accept, greet,
}
use zhangyu.Quic.Server.Laws.{with_invoker, get-with_invoker}
use zhangyu.Quic.Client.{Dialer, default_invoker, connect_to, dial, open_dialed, dialed_peer}
use zhangyu.Quic.Client.Handlers.{dial_header, new_dialer, set_heart_beat_seconds}
use zhangyu.Quic.Client.Handlers as Quic
use zhangyu.Client.{Client}
use zhangyu.Client.Handlers.{ClientHandler}
use zhangyu.Client.Init.{init_client, add_client_handlers}
use zhangyu.System.Connect.{dialed_with, command_peer}

module _ (codec : JsonText) (u : CaseTable) (uuid : String) where
  -- A command connection of a client on which nothing fails.
  abbrev command_connection : Client → String → String → Incoming
  command_connection c remote_addr invoker_id = record {
    header = dial_header c.terminal_id "Command";
    remote_addr = remote_addr;
    invoker_id = invoker_id;
    upgrade_error = none;
    stream_error = none;
    set_id_error = none;
    client_new_error = none;
  }

  module _ {ℓ} {State : Type ℓ} {Uni Bidi : Type 0} (a : Adapter State) (s : State)
      (route : InvokeRoute Uni Bidi Peer) (c : Client) (remote_addr invoker_id : String) where
    abbrev pub coming : Incoming
    coming = command_connection c remote_addr invoker_id

    -- What the server leaves: no new record, and the invoker on its route.
    abbrev pub taken_in : Upgraded State Uni Bidi
    taken_in = record {
      state = s;
      route = with_invoker codec u uuid route coming c.terminal_id;
      acts =
          writes (set_id_request codec u uuid invoker_id c.terminal_id)
          ∷ dispatches (accepted_peer codec u uuid coming c.terminal_id)
          ∷ [];
    }

    abbrev pub reconnected : (B : Type 0) → Dialer ClientHandler B
    reconnected B = init_client u c (dialed_with codec u uuid invoker_id c.terminal_id)

    -- A client with an identifier dials its node, and nothing fails: the server registers no new
    -- client, and, if its route was valid, finds an invoker of the client's identifier; the client
    -- keeps its identifier, and its default invoker has the same two identifiers.
    pub known_client_reconnects :
        (B : Type 0)
        → c.terminal_id ≢ ""
        → IsValid u route.invokes
        → (upgrade_web_transport codec u uuid a s route coming ≡ some taken_in)
          × ((reconnected B).terminal_id ≡ c.terminal_id)
          × (default_invoker (reconnected B)
              ≡ some (command_peer codec u uuid invoker_id c.terminal_id))
          × (Route.get_invoker u taken_in.route invoker_id
              ≡ some (accepted_peer codec u uuid coming c.terminal_id))
    unfolding upgrade_web_transport open_stream accept greet dial_header init_client
        add_client_handlers connect_to dial open_dialed dialed_peer new_dialer
        set_heart_beat_seconds Quic.add_uni_handler Dict.lookup Route.add_uni_handler
    known_client_reconnects B named v = (
      rw (eq_false c.terminal_id "" named) refl,
      refl,
      refl,
      get-with_invoker codec u uuid route coming c.terminal_id v,
    )
