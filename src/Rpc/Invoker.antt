-- ===== src/Rpc/Invoker.antt =====
-- rpc/invoke.go, `Invoker`, with what rpc/quic/srv/server.go and rpc/quic/cli/client.go set on it: its
-- fields, and the map of what is attached to it. The type of its error handlers is a parameter.
use zhangyu.Base.{String, Bool, false, Option, none, some, List, []}
use zhangyu.Base.Dict
use zhangyu.Rpc.Models.{ConnectionType, other}

-- What the program attaches to an invoker: a text, its session, and its `ConnWrapper`.
pub data Attached : Type 0 where
  text : String → Attached
  session conn : Attached

pub record Invoker (Handler : Type 0) : Type 0 where
  pub remote_addr : String
  pub client_ip : String
  pub invoker_id : String
  pub terminal_id : String
  pub is_command_tunnel : Bool
  pub connection_type : ConnectionType
  pub attach : List (String × Attached)
  pub write_error_handler : Option Handler
  pub read_error_handler : Option Handler

module _ {Handler : Type 0} where
  -- `NewInvoker`.
  unfoldable pub new_invoker : String → String → Invoker Handler
  new_invoker invoker_id terminal_id = record {
    remote_addr = "";
    client_ip = "";
    invoker_id = invoker_id;
    terminal_id = terminal_id;
    is_command_tunnel = false;
    connection_type = other "";
    attach = [];
    write_error_handler = none;
    read_error_handler = none;
  }

  unfoldable pub set_remote_addr : Invoker Handler → String → Invoker Handler
  set_remote_addr i remote_addr = record i { remote_addr = remote_addr }

  unfoldable pub set_client_ip : Invoker Handler → String → Invoker Handler
  set_client_ip i client_ip = record i { client_ip = client_ip }

  unfoldable pub set_terminal_id : Invoker Handler → String → Invoker Handler
  set_terminal_id i terminal_id = record i { terminal_id = terminal_id }

  unfoldable pub set_is_command_tunnel : Invoker Handler → Bool → Invoker Handler
  set_is_command_tunnel i is_command = record i { is_command_tunnel = is_command }

  unfoldable pub set_connection_type : Invoker Handler → ConnectionType → Invoker Handler
  set_connection_type i t = record i { connection_type = t }

  unfoldable pub set_write_error_handler : Invoker Handler → Handler → Invoker Handler
  set_write_error_handler i h = record i { write_error_handler = some h }

  unfoldable pub set_read_error_handler : Invoker Handler → Handler → Invoker Handler
  set_read_error_handler i h = record i { read_error_handler = some h }

  -- `GetAttach`; nil is `none`.
  unfoldable pub get_attach : Invoker Handler → String → Option Attached
  get_attach i key = Dict.lookup key i.attach

  unfoldable pub set_attach : Invoker Handler → String → Attached → Invoker Handler
  set_attach i key value = record i { attach = Dict.insert key value i.attach }
