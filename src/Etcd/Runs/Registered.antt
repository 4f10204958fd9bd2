-- ===== src/Etcd/Runs/Registered.antt =====
-- app/node/etcd/etcd.go: registered clients in the runs of the store.
use mathlib.Core.Option.{some-injective}
use zhangyu.Base.{
  ℕ, String, ◌≡◌, refl, sym, ap, ◌∙◌, Option, none, some, List, inl, inr, Bool-cases, Option-cases,
  eq_false, arith, ◌==◌,
}
use zhangyu.Utils.Json.{JsonText, get_json_string}
use zhangyu.Etcd.Server.{Server, forever, seconds, keep_alive}
use zhangyu.Etcd.Keys.{
  client_key, tunnel_key, node_key, online_client_key, domain_name_key, listen_key,
}
use zhangyu.Etcd.Store.{
  put_value, put_value_keep_alive, get_jwt_sign_key, put_online_client, delete_online_client,
}
use zhangyu.Etcd.Store.Laws.{jwt-cases}
use zhangyu.Etcd.Register.{generate_tunnel_id, store_client, generate_new_client}
use zhangyu.Etcd.Listens.{Url, is_http, listen_record, add_listen_with_tunnel}
use zhangyu.Etcd.Directory.{register_node}
use zhangyu.Etcd.Runs.{
  Step, registers, names_domain, signs, comes_online, goes_offline, listens, starts_node, Steps,
  here, next,
}
use zhangyu.Etcd.Runs.Keeps.{
  IsApart, ne_of_absent, put-keeps, generate_tunnel_id-locked, generate_domain_name-locked,
}
use zhangyu.Rpc.Records.{ClientRec, Listen}
use zhangyu.Rpc.Records.Clients.{client_rec_struct, tunnel_struct}
use zhangyu.Rpc.Records.Listens.{listen_struct}

module _ (srv : Server) (codec : JsonText) where
  open srv use {State, get, put, get-delete}

  -- The store that a registration leaves.
  abbrev pub with_client : State → ClientRec → State
  with_client s rec = store_client srv codec (put s (tunnel_key rec.tunnel_id) "" (seconds 5)) rec

  pub registration :
      (s s' : State) (rec : ClientRec) (uuid token auth_code : String) (draws : List ℕ) (now : ℕ)
      → generate_new_client srv codec s uuid token auth_code draws now ≡ some (rec, s')
      → (rec.client_id ≡ uuid)
        × (get s (tunnel_key rec.tunnel_id) ≡ none)
        × (s' ≡ with_client s rec)
  unfolding generate_new_client
  registration s s' rec uuid token auth_code draws now e =
      elim (Option-cases (generate_tunnel_id srv codec s draws)) [
        | inl drawing ↦ absurd (let e' = rw (drawing, generate_new_client) at e in ground arith)
        | inr ((id, locked), drawn) ↦
            let got = some-injective _ _ (rw (drawn, generate_new_client) at e) in
            let same = ap (λ (p : ClientRec × State). p.0) got in
            let (unused, left) = generate_tunnel_id-locked srv codec s draws id locked drawn in
            rw (← same) (
              refl,
              unused,
              sym (ap (λ (p : ClientRec × State). p.1) got)
                  ∙ ap
                      (λ t. store_client srv codec t (record {
                        client_id = uuid;
                        token = token;
                        tunnel_id = id;
                        auth_code = auth_code;
                        create_time = now;
                      }))
                      left,
            )
      ]

  module _ (k v : String) (apart : IsApart k) where
    add_listen-keeps :
        (parse : String → Option Url) (s s' : State) (listen : Listen)
        (tunnel client addr target : String) (now : ℕ)
        → add_listen_with_tunnel srv codec parse s tunnel client addr target now ≡ some (listen, s')
        → get s k ≡ some v
        → get s' k ≡ some v
    unfolding add_listen_with_tunnel put_value
    add_listen-keeps parse s s' listen tunnel client addr target now e held =
        elim (Bool-cases (target == "")) [
          | inl plain ↦
              rw (← ap (λ (p : Listen × State). p.1) (some-injective _ _ (rw plain at e)))
                under_client
          | inr named ↦ elim (Option-cases (parse target)) [
            | inl nil ↦ absurd (let e' = rw (named, nil) at e in ground arith)
            | inr (url, parsed) ↦ elim (Bool-cases (is_http url.scheme)) [
              | inl http ↦
                  rw
                    (← ap (λ (p : Listen × State). p.1)
                      (some-injective _ _ (rw (named, parsed, http) at e)))
                    (put-keeps srv codec _ k v (domain_name_key addr) _ forever under_client
                      (apart.not_domain addr))
              | inr other ↦
                  rw
                    (← ap (λ (p : Listen × State). p.1)
                      (some-injective _ _ (rw (named, parsed, other) at e)))
                    under_client
            ]
          ]
        ]
      where
        under_client :
            get
              (put s
                (listen_key client addr)
                (get_json_string codec (listen_record srv codec s tunnel client addr target now))
                forever)
              k
            ≡ some v
        under_client =
            put-keeps srv codec s k v (listen_key client addr) _ forever held
              (apart.not_listen client addr)

    jwt-keeps :
        (s : State) (drawn : String)
        → get s k ≡ some v
        → get (get_jwt_sign_key srv codec s drawn).1 k ≡ some v
    jwt-keeps s drawn held = elim (jwt-cases srv codec s drawn) [
      | inl (absent, e) ↦ rw e (put-keeps srv codec s k v _ drawn forever held apart.not_jwt)
      | inr (old, found, e) ↦ rw e held
    ]

    with_client-keeps :
        (s : State) (rec : ClientRec)
        → get s (client_key rec.client_id) ≡ none
        → get s (tunnel_key rec.tunnel_id) ≡ none
        → get s k ≡ some v
        → get (with_client s rec) k ≡ some v
    unfolding store_client put_value
    with_client-keeps s rec new unused held =
        let not_tunnel = ne_of_absent srv codec s (tunnel_key rec.tunnel_id) k v unused held in
        let locked = put-keeps srv codec s k v _ "" (seconds 5) held not_tunnel in
        let recorded =
          put-keeps srv codec _ k v _ _ forever locked
            (ne_of_absent srv codec s (client_key rec.client_id) k v new held) in
        put-keeps srv codec _ k v _ _ forever recorded not_tunnel

    -- A step leaves what a key holds, if it is not written for another purpose.
    Step-keeps : {s s' : State} → Step srv codec s s' → get s k ≡ some v → get s' k ≡ some v
    unfolding put_online_client put_value_keep_alive delete_online_client register_node
    Step-keeps {s} {s'} (registers {rec = rec} uuid token auth_code draws now new e) held =
        let (named, unused, left) = registration s s' rec uuid token auth_code draws now e in
        rw left (with_client-keeps s rec (rw named new) unused held)
    Step-keeps {s} (names_domain {s' = s'} {name = name} domain draws e) held =
        rw (generate_domain_name-locked srv codec domain s draws name s' e)
          (put-keeps srv codec s k v _ "" (seconds 5) held (apart.not_domain name))
    Step-keeps {s} (signs drawn) held = jwt-keeps s drawn held
    Step-keeps {s} (comes_online id client) held =
        put-keeps srv codec s k v (online_client_key id) _ (keep_alive 10) held
          (apart.not_online id)
    Step-keeps {s} (goes_offline id) held =
        get-delete s (online_client_key id) k
        ∙ rw (eq_false (online_client_key id) k (apart.not_online id)) held
    Step-keeps {s} (listens {s' = s'} {listen = listen} parse tunnel client addr target now e)
          held =
        add_listen-keeps parse s s' listen tunnel client addr target now e held
    Step-keeps {s} (starts_node info now) held =
        put-keeps srv codec s k v (node_key info.terminal_id) _ (keep_alive 10) held
          (apart.not_node info.terminal_id)

    pub Steps-keep : {s s' : State} → Steps srv codec s s' → get s k ≡ some v → get s' k ≡ some v
    Steps-keep here held = held
    Steps-keep (next run step) held = Step-keeps step (Steps-keep run held)
