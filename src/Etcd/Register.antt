-- ===== src/Etcd/Register.antt =====
-- app/node/etcd/etcd.go: new tunnels, domain names and clients. A random number is an argument, and a
-- loop that draws until it has a lock is a recursion on the list of its draws.
pub mod Laws
pub mod Domains
use zhangyu.Base.{
  ℕ, ◌+◌, String, Bool, true, false, Option, none, some, List, [], ◌∷◌, ltb, if◌then◌else◌,
}
use zhangyu.Base.Strings.{join, decimal}
use zhangyu.Utils.Json.{JsonText}
use zhangyu.Etcd.Server.{Server}
use zhangyu.Etcd.Keys.{client_key, tunnel_key, domain_name_key}
use zhangyu.Etcd.Store.{put_value, lock}
use zhangyu.Rpc.Records.{ClientRec, Tunnel}
use zhangyu.Rpc.Records.Clients.{client_rec_struct, tunnel_struct}

-- A drawn number as the text of a tunnel.
unfoldable pub tunnel_id_of : ℕ → String
tunnel_id_of n = decimal (if ltb n 10000000 then n + 10000000 else n)

-- And as the name of a domain below the node's own.
unfoldable pub domain_name_of : String → ℕ → String
domain_name_of domain n =
    join "c" (join (decimal (if ltb n 100000 then n + 100000 else n)) (join "." domain))

module _ (srv : Server) (codec : JsonText) where
  open srv use {State}

  -- `GenerateTunnelId`.
  unfoldable pub generate_tunnel_id : State → List ℕ → Option (String × State)
  generate_tunnel_id s [] = none
  generate_tunnel_id s (n ∷ draws) =
      let (locked, s') = lock srv codec s (tunnel_key (tunnel_id_of n)) 5 in
      let again = generate_tunnel_id s' draws in if locked then some (tunnel_id_of n, s') else again

  -- `GenerateDomainName`.
  unfoldable pub generate_domain_name : String → State → List ℕ → Option (String × State)
  generate_domain_name domain s [] = none
  generate_domain_name domain s (n ∷ draws) =
      let (locked, s') = lock srv codec s (domain_name_key (domain_name_of domain n)) 5 in
      let again = generate_domain_name domain s' draws in
      if locked then some (domain_name_of domain n, s') else again

  -- `GenerateNewClient` once it has its tunnel: the record and the tunnel are stored.
  unfoldable pub store_client : State → ClientRec → State
  store_client s rec =
      let tunnel : Tunnel = record {
        tunnel_id = rec.tunnel_id;
        terminal_id = rec.client_id;
        auth_code = rec.auth_code;
      } in
      put_value srv codec (put_value srv codec s (client_key rec.client_id) rec)
        (tunnel_key rec.tunnel_id) tunnel

  -- `GenerateNewClient`, with a fresh identifier, token and code, the draws, and the time.
  unfoldable pub generate_new_client :
      State → String → String → String → List ℕ → ℕ → Option (ClientRec × State)
  generate_new_client s uuid token auth_code draws now = elim (generate_tunnel_id s draws) [
    | none ↦ none
    | some (tunnel_id, s') ↦
        let rec : ClientRec = record {
          client_id = uuid;
          token = token;
          tunnel_id = tunnel_id;
          auth_code = auth_code;
          create_time = now;
        } in
        some (rec, store_client s' rec)
  ]
