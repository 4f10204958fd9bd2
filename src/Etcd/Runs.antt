-- ===== src/Etcd/Runs.antt =====
-- app/node/etcd/etcd.go: runs of the store. A step is one operation of some node, as a whole, or the end of
-- an online record; new identifiers are taken to be new.
pub mod Keeps
pub mod Registered
pub mod Clients
use zhangyu.Base.{
  ℕ, String, ◌≡◌, ◌≢◌, refl, sym, ap, ◌∙◌, true, false, Option, none, some, List, [], ◌∷◌, inl, inr,
}
use mathlib.Core.Option.{some-injective}
use zhangyu.Utils.Json.{JsonText, get_json_string}
use zhangyu.Etcd.Server.{Server, Lease, forever, seconds, keep_alive}
use zhangyu.Etcd.Keys.{
  jwt_sign_key, client_key, tunnel_key, node_key, online_client_key, domain_name_key, listen_key,
  client-ne-tunnel, client-ne-online, tunnel-ne-online, listen-ne-tunnel, listen-ne-client,
  domain_name-ne-tunnel, domain_name-ne-client, jwt-ne-client, jwt-ne-tunnel, node-ne-client,
  node-ne-tunnel,
}
use zhangyu.Etcd.Store.{
  get_client_rec, get_tunnel, get_jwt_sign_key, put_online_client, delete_online_client,
}
use zhangyu.Etcd.Store.Laws.{get-put_ne, lock-cases}
use zhangyu.Etcd.Register.{
  tunnel_id_of, domain_name_of, generate_tunnel_id, generate_domain_name, generate_new_client,
}
use zhangyu.Etcd.Listens.{Url, add_listen_with_tunnel}
use zhangyu.Etcd.Directory.{NodeInfo, register_node}
use zhangyu.Rpc.Records.{ClientRec, Tunnel, Listen, OnlineClient}

module _ (srv : Server) (codec : JsonText) where
  open srv use {State, get, put}

  pub data Step : State → State → Type 0 where
    registers :
        {s s' : State} {rec : ClientRec} (uuid token auth_code : String) (draws : List ℕ) (now : ℕ)
        → get s (client_key uuid) ≡ none
        → generate_new_client srv codec s uuid token auth_code draws now ≡ some (rec, s')
        → Step s s'
    names_domain :
        {s s' : State} {name : String} (domain : String) (draws : List ℕ)
        → generate_domain_name srv codec domain s draws ≡ some (name, s')
        → Step s s'
    signs : {s : State} (drawn : String) → Step s (get_jwt_sign_key srv codec s drawn).1
    comes_online :
        {s : State} (id : String) (client : OnlineClient)
        → Step s (put_online_client srv codec s id client)
    goes_offline : {s : State} (id : String) → Step s (delete_online_client srv codec s id)
    listens :
        {s s' : State} {listen : Listen} (parse : String → Option Url)
        (tunnel client addr target : String) (now : ℕ)
        → add_listen_with_tunnel srv codec parse s tunnel client addr target now ≡ some (listen, s')
        → Step s s'
    starts_node :
        {s : State} (info : NodeInfo) (now : ℕ) → Step s (register_node srv codec s info now)

  pub data Steps : State → State → Type 0 where
    here : {s : State} → Steps s s
    next : {s t r : State} → Steps s t → Step t r → Steps s r
