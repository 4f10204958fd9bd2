-- ===== src/System/Invokers.antt =====
-- rpc/quic/srv/server.go, rpc/quic/cli/client.go, app/node/node.go: what the program sets on an invoker, and
-- what its handlers read of it.
use zhangyu.Base.{String, ◌≡◌, refl, true, Option, none, some, ap}
use zhangyu.Base.Dict.{lookup-insert, lookup, insert}
use zhangyu.Base.Text.{CaseTable}
use zhangyu.Utils.Http.{get_real_remote_addr}
use zhangyu.Utils.Json.{JsonText}
use zhangyu.Rpc.Models.{InvokeRequest}
use zhangyu.Rpc.Invoker.{
  Attached, text, session, conn, Invoker, new_invoker, set_remote_addr, set_client_ip,
  set_is_command_tunnel, set_connection_type, set_write_error_handler, set_read_error_handler,
  get_attach, set_attach,
}
use zhangyu.Node.Peers.{Peer}
use zhangyu.Quic.Server.{Incoming, type_of, is_command, accepted_peer}
use zhangyu.Quic.Client.{header_or_empty, dialed_peer}

abbrev text_of : Option Attached → Option String
text_of (some (text s)) = some s
text_of _ = none

module _ {Handler : Type 0} where
  -- What the handlers read of an invoker.
  unfoldable peer_of : Invoker Handler → Peer
  peer_of i = record {
    terminal_id = i.terminal_id;
    invoker_id = i.invoker_id;
    remote_addr = i.remote_addr;
    client_ip = i.client_ip;
    is_command_tunnel = i.is_command_tunnel;
    http_trans_key = text_of (get_attach i "HttpTransKey");
  }

  -- The session and the wrapper of a connection.
  unfoldable attach_connection : Invoker Handler → Invoker Handler
  attach_connection i = set_attach (set_attach i "Session" session) "Conn" conn

  -- What `upgradeWebTransport` sets once the identifiers are written, with the two error handlers.
  unfoldable set_up_accepted : Incoming → Handler → Handler → Invoker Handler → Invoker Handler
  set_up_accepted c on_read on_write i =
      let addr = get_real_remote_addr c.header c.remote_addr in
      let i1 = set_is_command_tunnel i (is_command (type_of c)) in
      let i2 = set_connection_type i1 (type_of c) in
      let i3 = set_remote_addr i2 addr in
      let i4 = set_client_ip i3 (get_real_remote_addr c.header c.remote_addr) in
      let i5 = attach_connection i4 in
      set_write_error_handler (set_read_error_handler i5 on_read) on_write

  -- `AddDialInvoker` on the first request, and what `Dial` sets.
  unfoldable set_up_dialed : Option InvokeRequest → Invoker Handler
  set_up_dialed none = attach_connection (new_invoker "" "")
  set_up_dialed (some req) = attach_connection (record (new_invoker "" "") {
    invoker_id = header_or_empty "InvokerId" req.header;
    terminal_id = header_or_empty "TerminalId" req.header;
  })

  -- What the handler of `ConnectTo` sets.
  unfoldable set_up_command : Handler → Invoker Handler → Invoker Handler
  set_up_command h i =
      set_read_error_handler (set_write_error_handler (set_is_command_tunnel i true) h) h

  command-peer :
      (h : Handler) (i : Invoker Handler)
      → peer_of (set_up_command h i) ≡ record (peer_of i) { is_command_tunnel = true }
  unfolding peer_of set_up_command set_is_command_tunnel set_write_error_handler
      set_read_error_handler get_attach
  command-peer h i = refl

  attach-peer :
      (i : Invoker Handler) (key : String)
      → peer_of (set_attach i "HttpTransKey" (text key))
        ≡ record (peer_of i) { http_trans_key = some key }
  unfolding peer_of set_attach get_attach
  attach-peer i key =
      ap (λ o. record (peer_of i) { http_trans_key = text_of o })
        (lookup-insert "HttpTransKey" "HttpTransKey" (text key) i.attach)

  module _ (codec : JsonText) (u : CaseTable) (uuid : String) where
    accepted-peer :
        (c : Incoming) (terminal_id : String) (on_read on_write : Handler)
        → peer_of (set_up_accepted c on_read on_write (new_invoker c.invoker_id terminal_id))
          ≡ accepted_peer codec u uuid c terminal_id
    unfolding peer_of set_up_accepted attach_connection new_invoker set_remote_addr set_client_ip
        set_is_command_tunnel set_connection_type set_write_error_handler set_read_error_handler
        set_attach get_attach lookup insert
    accepted-peer c terminal_id on_read on_write = refl

module _ (codec : JsonText) (u : CaseTable) (uuid : String) (Handler : Type 0) where
  dialed-peer :
      (req : Option InvokeRequest)
      → peer_of (set_up_dialed {Handler = Handler} req) ≡ dialed_peer req
  unfolding peer_of set_up_dialed attach_connection dialed_peer new_invoker set_attach get_attach
      lookup insert
  dialed-peer none = refl
  dialed-peer (some req) = refl

  -- What the handlers read of an invoker, once its setters were called: an accepted one has the two
  -- identifiers, the address twice and the type of its connection, a dialed one the identifiers of
  -- the first request, if there was one; `ConnectTo` changes only that it is a command tunnel, and
  -- an attached `HttpTransKey` is the key that is read.
  set_up-peers :
      (c : Incoming) (terminal_id key : String) (on_read on_write : Handler)
      (req : Option InvokeRequest) (i : Invoker Handler)
      → (peer_of (set_up_accepted c on_read on_write (new_invoker c.invoker_id terminal_id))
          ≡ accepted_peer codec u uuid c terminal_id)
        × (peer_of (set_up_dialed {Handler = Handler} req) ≡ dialed_peer req)
        × (peer_of (set_up_command on_read i) ≡ record (peer_of i) { is_command_tunnel = true })
        × (peer_of (set_attach i "HttpTransKey" (text key))
            ≡ record (peer_of i) { http_trans_key = some key })
  set_up-peers c terminal_id key on_read on_write req i = (
    accepted-peer codec u uuid c terminal_id on_read on_write,
    dialed-peer req,
    command-peer on_read i,
    attach-peer i key,
  )
