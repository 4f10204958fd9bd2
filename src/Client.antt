-- ===== src/Client.antt =====
-- app/client/client.go: a client of a node.
pub mod Login
pub mod Listens
pub mod DialOut
pub mod Handlers
pub mod Setup
pub mod Init
use zhangyu.Base.{ℕ, String, Bool, false}
use zhangyu.Base.Strings.{join}
use zhangyu.Rpc.Models.{InvokeRequest}
use zhangyu.Rpc.Records.{Listen}

-- `Client`, without its connection.
pub record Client : Type 0 where
  pub node_addr : String
  pub heart_beat_seconds : ℕ
  pub terminal_id : String
  pub token : String
  pub tunnel_id : String
  pub auth_code : String
  pub connection_id : String
  pub listen_started : Bool

-- What a method of the client does, in order.
pub data Act : Type 0 where
  invokes : InvokeRequest → Act
  writes : InvokeRequest → Act
  saves : Client → Act
  exits : Act
  closes : Act
  opens_listener : String → Listen → Act
  dials : String → String → Act
  serves_socks : Act
  copies : Act

-- `getServerAddr`, with `ServicePath`.
unfoldable get_server_addr : Client → String
get_server_addr c = join "https://" (join c.node_addr "/_zhangyu/transport")

-- `SetTerminalId` and `SetConnectionId`, through which its connection names it.
unfoldable pub set_terminal_id : Client → String → Client
set_terminal_id c terminal_id = record c { terminal_id = terminal_id }

unfoldable set_connection_id : Client → String → Client
set_connection_id c connection_id = record c { connection_id = connection_id }
