-- ===== src/Quic/Client/Handlers.antt =====
-- rpc/quic/cli/client.go, `NewClient` and the methods of `Client` around its route.
use zhangyu.Base.{ℕ, String, false, ◌==◌, if◌then◌else◌}
use zhangyu.Utils.Http.{HttpHeader}
use zhangyu.Base.Text.{CaseTable}
use zhangyu.Rpc.InvokePath.{client_new}
use zhangyu.Rpc.Route
use zhangyu.Rpc.Route.{new_invoke_route}
use zhangyu.Quic.Client.{Dialer}

module _ {Uni Bidi : Type 0} where
  unfoldable pub set_heart_beat_seconds : Dialer Uni Bidi → ℕ → Dialer Uni Bidi
  set_heart_beat_seconds c n = record c { heart_beat_seconds = n }

  module _ (u : CaseTable) where
    unfoldable pub add_rpc_handler : Dialer Uni Bidi → String → Bidi → Dialer Uni Bidi
    add_rpc_handler c path h = record c { route = Route.add_rpc_handler u c.route path h }

    unfoldable pub add_uni_handler : Dialer Uni Bidi → String → Uni → Dialer Uni Bidi
    add_uni_handler c path h = record c { route = Route.add_uni_handler u c.route path h }

    unfoldable pub remove_uni_handler : Dialer Uni Bidi → String → Dialer Uni Bidi
    remove_uni_handler c path = record c { route = Route.remove_uni_handler u c.route path }

    unfoldable pub remove_rpc_handler : Dialer Uni Bidi → String → Dialer Uni Bidi
    remove_rpc_handler c path = record c { route = Route.remove_rpc_handler u c.route path }

    -- `NewClient`, with the two identifiers of its adapter and the handler of a new record.
    unfoldable pub new_dialer : String → String → Uni → Dialer Uni Bidi
    unfolding add_uni_handler
    new_dialer terminal_id connection_id on_client_new =
        let c : Dialer Uni Bidi = record {
          route = new_invoke_route;
          connected = false;
          heart_beat_seconds = 0;
          terminal_id = terminal_id;
          connection_id = connection_id;
        } in
        add_uni_handler c client_new on_client_new

-- The header that `Dial` sends.
unfoldable pub dial_header : String → String → HttpHeader
dial_header terminal_id conn_type key =
    if key == "Zhangyu-Connection-TerminalId"
    then terminal_id
    else if key == "Zhangyu-Connection-Type"
    then conn_type
    else ""
