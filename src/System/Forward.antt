-- ===== src/System/Forward.antt =====
-- app/client/client.go, app/node/node.go: a connection to a TCP listener, from the listening client over the
-- node to the target client and back.
use zhangyu.Base.{String, ◌≡◌, refl, true, false, Option, some, [], ◌∷◌, returns}
use zhangyu.Base.Dict
use zhangyu.Base.Text.{CaseTable}
use zhangyu.Utils.Json.{JsonText, get_json_value-get_json_string}
use zhangyu.Etcd.Server.{Server}
use zhangyu.Etcd.Listens.{Url}
use zhangyu.Etcd.Store.{get_tunnel}
use zhangyu.Rpc.Models.{InvokeRequest}
use zhangyu.Rpc.Records.{Listen, Tunnel}
use zhangyu.Rpc.Records.Listens.{listen_struct}
use zhangyu.Rpc.Route.{InvokeRoute}
use zhangyu.Rpc.Route
use zhangyu.Node.Peers
use zhangyu.Node.Peers.{Peer, Node, get_invoker}
use zhangyu.Node.Transfer.{target_out, copy, copy_to, on_invoker_listen_in, on_invoker_transfer_go}
use zhangyu.Client
use zhangyu.Client.{dials}
use zhangyu.Client.Listens.{listen_in_request}
use zhangyu.Client.DialOut.{
  go_request, go_out, connect_target, dial_host, dial_scheme, on_invoker_dial_out,
}

module _ (srv : Server) (codec : JsonText) (u : CaseTable) (parse : String → Option Url)
    {Uni Bidi : Type 0} (route : InvokeRoute Uni Bidi Peer) (n : Node srv) (uuid : String)
    (l : Listen) (listener target : Peer) where
  -- The listener's request as it goes on to the target, and back to the node.
  abbrev pub forwarded : InvokeRequest
  forwarded = target_out listener (listen_in_request codec parse uuid l)

  asks_target :
      (tunnel : Tunnel)
      → get_tunnel srv codec n.etcd l.target_tunnel_id ≡ some tunnel
      → get_invoker srv codec u route n.etcd tunnel.terminal_id ≡ some target
      → on_invoker_listen_in srv codec u route n.etcd true listener
          (listen_in_request codec parse uuid l)
        ≡ returns (Peers.writes target forwarded ∷ [])
  unfolding on_invoker_listen_in
  asks_target tunnel known online =
      rw (get_json_value-get_json_string codec l, known, on_invoker_listen_in, online)

  target_dials :
      (listen_url target_url : Url)
      → parse l.listen_addr ≡ some listen_url
      → parse l.target_addr ≡ some target_url
      → dial_scheme listen_url target_url ≡ "tcp"
      → on_invoker_dial_out codec parse forwarded true true
        ≡ returns (
            Client.writes (go_request forwarded)
            ∷ dials "tcp" (dial_host listen_url target_url)
            ∷ Client.copies
            ∷ [])
  unfolding on_invoker_dial_out go_out connect_target
  target_dials listen_url target_url at_listen at_target tcp =
      rw (get_json_value-get_json_string codec l, at_listen)
        (rw (get_json_value-get_json_string codec l, at_target) (rw tcp refl))

  node_copies :
      (dialer : Peer)
      → Route.get_invoker u route listener.invoker_id ≡ some listener
      → listener.is_command_tunnel ≡ false
      → dialer.is_command_tunnel ≡ false
      → on_invoker_transfer_go srv codec u route n dialer (go_request forwarded)
        ≡ (n, Peers.copies dialer listener ∷ [])
  unfolding on_invoker_transfer_go Dict.lookup Dict.insert
  node_copies dialer there plain plain' = rw (there, copy_to, plain', copy, plain)

  -- A connection to a listener whose tunnel is known, whose target is online and whose addresses
  -- parse and lead to a TCP dial, if no write and no dial fails and the listener's invoker is on
  -- the route of the same node, neither it nor the target's new one a command connection: the node
  -- writes the listener's request to the target; the target dials the host of the listen, writes
  -- the request back and copies; and the node copies between the invoker that brings it and the
  -- listener's.
  pub connection_forwarded :
      (tunnel : Tunnel) (listen_url target_url : Url) (dialer : Peer)
      → get_tunnel srv codec n.etcd l.target_tunnel_id ≡ some tunnel
      → get_invoker srv codec u route n.etcd tunnel.terminal_id ≡ some target
      → parse l.listen_addr ≡ some listen_url
      → parse l.target_addr ≡ some target_url
      → dial_scheme listen_url target_url ≡ "tcp"
      → Route.get_invoker u route listener.invoker_id ≡ some listener
      → listener.is_command_tunnel ≡ false
      → dialer.is_command_tunnel ≡ false
      → (on_invoker_listen_in srv codec u route n.etcd true listener
            (listen_in_request codec parse uuid l)
          ≡ returns (Peers.writes target forwarded ∷ []))
        × (on_invoker_dial_out codec parse forwarded true true
            ≡ returns (
                Client.writes (go_request forwarded)
                ∷ dials "tcp" (dial_host listen_url target_url)
                ∷ Client.copies
                ∷ []))
        × (on_invoker_transfer_go srv codec u route n dialer (go_request forwarded)
            ≡ (n, Peers.copies dialer listener ∷ []))
  connection_forwarded tunnel listen_url target_url dialer known online at_listen at_target tcp
        there plain plain' =
      (
        asks_target tunnel known online,
        target_dials listen_url target_url at_listen at_target tcp,
        node_copies dialer there plain plain',
      )
