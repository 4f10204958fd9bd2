-- ===== src/Node/Handlers.antt =====
-- app/node/node.go, `init` and `ConnectionIn`; rpc/quic/srv/server.go, `NewServer`: which handler a node
-- calls for a request.
use zhangyu.Base.{Option, none, some, Run, returns, panics}
use zhangyu.Base.Text.{CaseTable}
use zhangyu.Rpc.InvokePath.{
  client_heartbeat, client_login, client_transfer_list, transfer_listen_in, transfer_go,
}
use zhangyu.Rpc.Models.{InvokeRequest, ConnectionType, command, listen, target, other}
use zhangyu.Rpc.Route.{InvokeRoute, add_rpc_handler, add_uni_handler, get_uni_handler}

-- The handlers of a node, one-way and two-way.
pub data UniHandler : Type 0 where
  heartbeat listen_in go : UniHandler

pub data BidiHandler : Type 0 where
  login transfer_list : BidiHandler

module _ {Invoker : Type 0} (u : CaseTable) where
  -- `NewServer` adds the heartbeat, and `init` the others.
  unfoldable pub init_handlers :
      InvokeRoute UniHandler BidiHandler Invoker → InvokeRoute UniHandler BidiHandler Invoker
  init_handlers r =
      let r1 = add_uni_handler u r client_heartbeat heartbeat in
      let r2 = add_rpc_handler u r1 client_login login in
      let r3 = add_rpc_handler u r2 client_transfer_list transfer_list in
      let r4 = add_uni_handler u r3 transfer_listen_in listen_in in
      add_uni_handler u r4 transfer_go go

  -- The handler that is called, where there is a request and a handler for it.
  abbrev pub call_handler :
      InvokeRoute UniHandler BidiHandler Invoker → Option InvokeRequest → Run (Option UniHandler)
  call_handler r none = panics
  call_handler r (some request) = elim (get_uni_handler u r request.path) [
    | none ↦ panics
    | some h ↦ returns (some h)
  ]

  -- `ConnectionIn`, with the request that is read, if any: which handler takes it.
  unfoldable pub connection_in :
      InvokeRoute UniHandler BidiHandler Invoker
      → ConnectionType
      → Option InvokeRequest
      → Run (Option UniHandler)
  connection_in r listen request = call_handler r request
  connection_in r target request = call_handler r request
  connection_in r command request = returns none
  connection_in r (other name) request = returns none
