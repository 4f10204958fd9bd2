-- ===== src/Rpc/Records.antt =====
-- rpc/models.go: the records that are stored or sent as JSON.
pub mod Clients
pub mod Listens
pub mod Requests
use zhangyu.Base.{ℕ, String, ◌≡◌, refl, Bool, true, ◌&&◌, ◌==◌, if◌then◌else◌}
use zhangyu.Utils.Json.{
  Json, num, stamp, str, Fields, end, field, set_string, set_number, set_time, fill, Struct,
}

-- `ClientRec`.
pub record ClientRec : Type 0 where
  pub client_id : String
  pub token : String
  pub tunnel_id : String
  pub auth_code : String
  pub create_time : ℕ

-- `Tunnel`.
pub record Tunnel : Type 0 where
  pub tunnel_id : String
  pub terminal_id : String
  pub auth_code : String

-- `Listen`.
pub record Listen : Type 0 where
  pub listen_client_id : String
  pub listen_tunnel_id : String
  pub target_client_id : String
  pub target_tunnel_id : String
  pub listen_addr : String
  pub target_addr : String
  pub create_time : ℕ

-- `OnlineClient`.
pub record OnlineClient : Type 0 where
  pub node_id : String
  pub client_id : String
  pub invoker_id : String
  pub connect_time : ℕ
  pub remote_addr : String
  pub client_ip : String
  pub send_bytes : ℕ
  pub receive_bytes : ℕ

-- `LoginRequest`.
pub record LoginRequest : Type 0 where
  pub client_id : String
  pub token : String
  pub app_id : String
  pub secret : String

-- `ListenRequest`.
pub record ListenRequest : Type 0 where
  pub listen_client_id : String
  pub target_tunnel_id : String
  pub target_auth_code : String
  pub listen_addr : String
  pub target_addr : String
