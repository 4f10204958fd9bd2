-- ===== src/Etcd/Store.antt =====
-- app/node/etcd/etcd.go: records as JSON values under keys. A state is what the server holds.
pub mod Laws
use zhangyu.Base.{ℕ, String, Bool, true, false, Option, none, some, nat_eq, if◌then◌else◌}
use zhangyu.Utils.Json.{JsonText, Struct, get_json_string, get_json_value}
use zhangyu.Etcd.Server.{Server, Lease, forever, seconds, keep_alive}
use zhangyu.Etcd.Keys.{client_key, tunnel_key, online_client_key, domain_name_key, jwt_sign_key}
use zhangyu.Rpc.Records.{ClientRec, Tunnel, Listen, OnlineClient}
use zhangyu.Rpc.Records.Clients.{client_rec_struct, tunnel_struct, online_client_struct}
use zhangyu.Rpc.Records.Listens.{listen_struct}

module _ (srv : Server) (codec : JsonText) where
  open srv use {State, get, put, create_revision}

  module _ {A : Type 0} ⦃struct : Struct A⦄ where
    -- `PutValue`.
    unfoldable pub put_value : State → String → A → State
    put_value s key value = put s key (get_json_string codec value) forever

    -- `PutValueAndKeepAlive`, whose lease is of ten seconds whatever is asked for.
    unfoldable pub put_value_keep_alive : State → String → A → ℕ → State
    put_value_keep_alive s key value expire_seconds =
        put s key (get_json_string codec value) (keep_alive 10)

    -- `GetJsonValue`, and the record of the callers: present if the key is, whatever the value.
    unfoldable pub get_record : State → String → Option A
    get_record s key = elim (get s key) [
      | none ↦ none
      | some text ↦ some (get_json_value codec struct.zero_value text).0
    ]

  -- `lock`: a transaction that puts the empty value if the key has never been created.
  unfoldable pub lock : State → String → ℕ → Bool × State
  lock s key ttl =
      if nat_eq (create_revision s key) 0 then (true, put s key "" (seconds ttl)) else (false, s)

  -- `GetClientRec`, `GetTunnel`, `GetOnlineClient` and `GetDomainInfo`.
  unfoldable pub get_client_rec : State → String → Option ClientRec
  get_client_rec s client_id = get_record s (client_key client_id)

  unfoldable pub get_tunnel : State → String → Option Tunnel
  get_tunnel s tunnel_id = get_record s (tunnel_key tunnel_id)

  unfoldable pub get_online_client : State → String → Option OnlineClient
  get_online_client s client_id = get_record s (online_client_key client_id)

  unfoldable pub get_domain_info : State → String → Option Listen
  get_domain_info s domain = get_record s (domain_name_key domain)

  -- `PutOnlineClient` and `DeleteOnlineClient`.
  unfoldable pub put_online_client : State → String → OnlineClient → State
  put_online_client s client_id client =
      put_value_keep_alive s (online_client_key client_id) client 10

  unfoldable pub delete_online_client : State → String → State
  delete_online_client s client_id = srv.delete s (online_client_key client_id)

  -- `GetJwtSignKey`, with the key that was drawn: the first key that is stored is the key.
  unfoldable pub get_jwt_sign_key : State → String → String × State
  get_jwt_sign_key s key =
      if nat_eq (create_revision s jwt_sign_key) 0
      then (key, put s jwt_sign_key key forever)
      else (elim (get s jwt_sign_key) [ none ↦ "" | some old ↦ old ], s)
