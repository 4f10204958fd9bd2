-- ===== src/Etcd/Runs/Keeps.antt =====
-- app/node/etcd/etcd.go: what the runs of the store leave as it is.
use mathlib.Core.Option.{some-injective}
use zhangyu.Base.{ℕ, String, ◌≡◌, ◌≢◌, sym, ap, ◌∙◌, none, some, List, [], ◌∷◌, inl, inr, arith}
use zhangyu.Utils.Json.{JsonText}
use zhangyu.Etcd.Server.{Server, Lease, seconds}
use zhangyu.Etcd.Keys.{
  jwt_sign_key, client_key, tunnel_key, node_key, online_client_key, domain_name_key, listen_key,
  client-ne-online, tunnel-ne-online, listen-ne-tunnel, listen-ne-client, domain_name-ne-tunnel,
  domain_name-ne-client, jwt-ne-client, jwt-ne-tunnel, node-ne-client, node-ne-tunnel,
}
use zhangyu.Etcd.Store.Laws.{get-put_ne, lock-cases}
use zhangyu.Etcd.Register.{tunnel_id_of, domain_name_of, generate_tunnel_id, generate_domain_name}

-- A key that is none of those that are written for domains, tokens, online clients, listens and nodes.
pub record IsApart (key : String) : Type 0 where
  pub not_domain : (d : String) → domain_name_key d ≢ key
  pub not_jwt : jwt_sign_key ≢ key
  pub not_online : (id : String) → online_client_key id ≢ key
  pub not_listen : (id addr : String) → listen_key id addr ≢ key
  pub not_node : (id : String) → node_key id ≢ key

pub client_key-IsApart : (c : String) → IsApart (client_key c)
client_key-IsApart c = record {
  not_domain = λ d. domain_name-ne-client d c;
  not_jwt = jwt-ne-client c;
  not_online = λ id e. client-ne-online c id (sym e);
  not_listen = λ id addr. listen-ne-client id addr c;
  not_node = λ id. node-ne-client id c;
}

pub tunnel_key-IsApart : (t : String) → IsApart (tunnel_key t)
tunnel_key-IsApart t = record {
  not_domain = λ d. domain_name-ne-tunnel d t;
  not_jwt = jwt-ne-tunnel t;
  not_online = λ id e. tunnel-ne-online t id (sym e);
  not_listen = λ id addr. listen-ne-tunnel id addr t;
  not_node = λ id. node-ne-tunnel id t;
}

module _ (srv : Server) (codec : JsonText) where
  open srv use {State, get, put}

  pub ne_of_absent : (s : State) (j k v : String) → get s j ≡ none → get s k ≡ some v → j ≢ k
  ne_of_absent s j k v absent held e = absurd (cc (absent, held, e))

  pub put-keeps :
      (s : State) (k v j w : String) (l : Lease)
      → get s k ≡ some v
      → j ≢ k
      → get (put s j w l) k ≡ some v
  put-keeps s k v j w l held ne = get-put_ne srv codec s j w l k ne ∙ held

  -- A tunnel that `GenerateTunnelId` returns was absent, and its lock is all that was put.
  pub generate_tunnel_id-locked :
      (s : State) (draws : List ℕ) (id : String) (s' : State)
      → generate_tunnel_id srv codec s draws ≡ some (id, s')
      → (get s (tunnel_key id) ≡ none) × (s' ≡ put s (tunnel_key id) "" (seconds 5))
  unfolding generate_tunnel_id
  generate_tunnel_id-locked s [] id s' e = absurd (ground arith)
  generate_tunnel_id-locked s (n ∷ draws) id s' e =
      elim (lock-cases srv codec s (tunnel_key (tunnel_id_of n)) 5) [
        | inl (unused, had) ↦
            let got = some-injective _ _ (rw had at e) in
            let same : tunnel_id_of n ≡ id = ap (λ (p : String × State). p.0) got in
            let left = ap (λ (p : String × State). p.1) got in rw (← same) (unused, sym left)
        | inr (used, had) ↦ generate_tunnel_id-locked s draws id s' (rw had at e)
      ]

  pub generate_domain_name-locked :
      (domain : String) (s : State) (draws : List ℕ) (name : String) (s' : State)
      → generate_domain_name srv codec domain s draws ≡ some (name, s')
      → s' ≡ put s (domain_name_key name) "" (seconds 5)
  unfolding generate_domain_name
  generate_domain_name-locked domain s [] name s' e = absurd (ground arith)
  generate_domain_name-locked domain s (n ∷ draws) name s' e =
      elim (lock-cases srv codec s (domain_name_key (domain_name_of domain n)) 5) [
        | inl (unused, had) ↦
            let got = some-injective _ _ (rw had at e) in
            let same : domain_name_of domain n ≡ name = ap (λ (p : String × State). p.0) got in
            let left = ap (λ (p : String × State). p.1) got in rw (← same) (sym left)
        | inr (used, had) ↦ generate_domain_name-locked domain s draws name s' (rw had at e)
      ]
