-- ===== src/Client/Handlers.antt =====
-- app/client/client.go, `InitClient`; rpc/quic/cli/client.go, `NewClient`: which handler a client calls for a
-- request.
use zhangyu.Base.Text.{CaseTable}
use zhangyu.Rpc.InvokePath.{client_new, client_kick, transfer_target_out, transfer_listen_add}
use zhangyu.Rpc.Route.{InvokeRoute, add_uni_handler}

-- The one-way handlers of a client.
pub data ClientHandler : Type 0 where
  new_record kick dial_out listen_add : ClientHandler

-- Those of `NewClient`, and then those of `InitClient`.
unfoldable pub init_client_handlers :
    {Bidi Invoker : Type 0}
    → CaseTable
    → InvokeRoute ClientHandler Bidi Invoker
    → InvokeRoute ClientHandler Bidi Invoker
init_client_handlers u r =
    let r1 = add_uni_handler u r client_new new_record in
    let r2 = add_uni_handler u r1 client_kick kick in
    let r3 = add_uni_handler u r2 transfer_target_out dial_out in
    add_uni_handler u r3 transfer_listen_add listen_add
