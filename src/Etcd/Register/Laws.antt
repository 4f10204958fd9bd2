-- ===== src/Etcd/Register/Laws.antt =====
-- app/node/etcd/etcd.go: theorems about `GenerateTunnelId` and `GenerateNewClient`.
use mathlib.Core.Path.{ap₂}
use zhangyu.Base.{
  Bool-cases, ◌==◌, eq-image, ℕ, ◌+◌, ◌<◌, String, ◌≡◌, refl, sym, ap, ◌∙◌, Option, none, some,
  List, [], ◌∷◌, ◌++◌, if◌then◌else◌, ltb, eq_false, inl, inr, arith, All,
}
use zhangyu.Base.Strings.{text_length, text_length-decimal}
use zhangyu.Utils.Json.{JsonText, get_json_string}
use zhangyu.Etcd.Server.{Server, forever, seconds}
use zhangyu.Etcd.Keys.{client_key, tunnel_key, client_key_inj, tunnel_key_inj, client-ne-tunnel}
use zhangyu.Etcd.Store.{put_value, get_record, get_client_rec, get_tunnel}
use zhangyu.Etcd.Store.Laws.{get_record-put_if, get-put_ne, get_record-same, lock-cases}
use zhangyu.Etcd.Register.{tunnel_id_of, generate_tunnel_id, store_client, generate_new_client}
use zhangyu.Rpc.Records.{ClientRec, Tunnel}
use zhangyu.Rpc.Records.Clients.{client_rec_struct, tunnel_struct}

-- The tunnel that is stored for a client.
abbrev pub tunnel_of : ClientRec → Tunnel
tunnel_of rec = record {
  tunnel_id = rec.tunnel_id;
  terminal_id = rec.client_id;
  auth_code = rec.auth_code;
}

-- Every draw gives a text of eight digits.
text_length-tunnel_id_of : (n : ℕ) → n < 99999999 → text_length (tunnel_id_of n) ≡ 8
unfolding tunnel_id_of
text_length-tunnel_id_of n h =
    text_length-decimal (if ltb n 10000000 then n + 10000000 else n) (ground arith) (ground arith)

module _ (srv : Server) (codec : JsonText) where
  open srv use {State, get, put, get-put}

  -- What `GenerateTunnelId` promises of an identifier and the state that it leaves: it has eight
  -- digits, its tunnel was absent and is locked now, and every other key is as it was.
  pub record IsNewTunnel (s : State) (tunnel_id : String) (s' : State) : Type 0 where
    pub digits : text_length tunnel_id ≡ 8
    pub unused : get s (tunnel_key tunnel_id) ≡ none
    pub locked :
        (key : String) → get s' key ≡ (if tunnel_key tunnel_id == key then some "" else get s key)

  new_tunnel :
      (s : State) (n : ℕ)
      → n < 99999999
      → get s (tunnel_key (tunnel_id_of n)) ≡ none
      → IsNewTunnel s (tunnel_id_of n) (put s (tunnel_key (tunnel_id_of n)) "" (seconds 5))
  new_tunnel s n h unused = record {
    digits = text_length-tunnel_id_of n h;
    unused = unused;
    locked = λ key. get-put s (tunnel_key (tunnel_id_of n)) "" (seconds 5) key;
  }

  -- If one of the draws, each below the bound of the random source, comes to a tunnel that is free,
  -- `GenerateTunnelId` returns an identifier of eight digits whose tunnel was absent and is locked
  -- from then on, with every other key as it was.
  generate_tunnel_id-IsNewTunnel :
      (s : State) (before after : List ℕ) (n : ℕ)
      → All (λ d. d < 99999999) before
      → n < 99999999
      → get s (tunnel_key (tunnel_id_of n)) ≡ none
      → (id : String) × (s' : State) × (generate_tunnel_id srv codec s (before ++ n ∷ after)
          ≡ some (id, s'))
        × IsNewTunnel s id s'
  unfolding generate_tunnel_id
  generate_tunnel_id-IsNewTunnel s [] after n h k free =
      elim (lock-cases srv codec s (tunnel_key (tunnel_id_of n)) 5) [
        | inl (unused, had) ↦ (tunnel_id_of n, _, rw had, new_tunnel s n k unused)
        | inr (used, _) ↦ absurd (used free)
      ]
  generate_tunnel_id-IsNewTunnel s (d ∷ before) after n h k free =
      elim (lock-cases srv codec s (tunnel_key (tunnel_id_of d)) 5) [
        | inl (unused, had) ↦ (tunnel_id_of d, _, rw had, new_tunnel s d h.0 unused)
        | inr (used, had) ↦
            let (id, s', e, new) = generate_tunnel_id-IsNewTunnel s before after n h.1 k free in
            (id, s', rw had e, new)
      ]

  -- What registering a client does: it stores the record under the client's identifier and a tunnel to
  -- that client under a tunnel identifier that was free, and leaves all other records and tunnels.
  pub record IsRegistered (s : State) (rec : ClientRec) (s' : State) : Type 0 where
    pub digits : text_length rec.tunnel_id ≡ 8
    pub unused : get s (tunnel_key rec.tunnel_id) ≡ none
    pub client_recs :
        (id : String)
        → get_client_rec srv codec s' id
          ≡ (if rec.client_id == id then some rec else get_client_rec srv codec s id)
    pub tunnels :
        (id : String)
        → get_tunnel srv codec s' id ≡ (
            if rec.tunnel_id == id
            then some (record {
              tunnel_id = rec.tunnel_id;
              terminal_id = rec.client_id;
              auth_code = rec.auth_code;
            })
            else get_tunnel srv codec s id)

  store_client-IsRegistered :
      (s s' : State) (rec : ClientRec)
      → IsNewTunnel s rec.tunnel_id s'
      → IsRegistered s rec (store_client srv codec s' rec)
  unfolding store_client put_value get_client_rec get_tunnel
  store_client-IsRegistered s s' rec new = record {
    digits = new.digits;
    unused = new.unused;
    client_recs = λ id.
        get_record-same srv codec _
          (put s' (client_key rec.client_id) (get_json_string codec rec) forever) (client_key id)
          (get-put_ne srv codec _ (tunnel_key rec.tunnel_id) _ forever (client_key id)
            (λ e. client-ne-tunnel id rec.tunnel_id (sym e)))
        ∙ get_record-put_if srv codec s' (client_key rec.client_id) rec forever (client_key id)
        ∙ ap₂ (λ b (o : Option ClientRec). if b then some rec else o)
            (eq-image client_key client_key_inj rec.client_id id)
            (get_record-same srv codec s' s (client_key id) (
              new.locked (client_key id)
              ∙ rw (
                  eq_false (tunnel_key rec.tunnel_id) (client_key id)
                    (λ e. client-ne-tunnel id rec.tunnel_id (sym e)))));
    tunnels = λ id.
        get_record-put_if srv codec
          (put s' (client_key rec.client_id) (get_json_string codec rec) forever)
          (tunnel_key rec.tunnel_id) _ forever (tunnel_key id)
        ∙ ap
            (λ b.
              if b
              then some (tunnel_of rec)
              else get_record srv codec
                  (put s' (client_key rec.client_id) (get_json_string codec rec) forever)
                  (tunnel_key id))
            (eq-image tunnel_key tunnel_key_inj rec.tunnel_id id)
        ∙ elim (Bool-cases (rec.tunnel_id == id)) [
          | inl same ↦ rw same
          | inr differ ↦ rw differ (
              get_record-same srv codec _ s (tunnel_key id) (
                get-put_ne srv codec s' (client_key rec.client_id) _ forever (tunnel_key id)
                  (client-ne-tunnel rec.client_id id)
                ∙ new.locked (tunnel_key id)
                ∙ rw (eq-image tunnel_key tunnel_key_inj rec.tunnel_id id, differ)))
        ];
  }

  -- If one of the draws, all below the bound of the random source, comes to a tunnel that is free,
  -- `GenerateNewClient` returns a record with the fresh identifier, token and code; the record is
  -- stored under its identifier with a tunnel to it of eight digits that was free, and no other
  -- record or tunnel changes.
  pub generate_new_client-IsRegistered :
      (s : State) (uuid token auth_code : String) (before after : List ℕ) (n now : ℕ)
      → All (λ d. d < 99999999) before
      → n < 99999999
      → get s (tunnel_key (tunnel_id_of n)) ≡ none
      → (rec : ClientRec) × (s' : State) × (generate_new_client srv codec s uuid token auth_code
            (before ++ n ∷ after)
            now
          ≡ some (rec, s'))
        × (rec.client_id ≡ uuid)
        × (rec.token ≡ token)
        × (rec.auth_code ≡ auth_code)
        × IsRegistered s rec s'
  unfolding generate_new_client
  generate_new_client-IsRegistered s uuid token auth_code before after n now h k free =
      let (id, s', e, new) = generate_tunnel_id-IsNewTunnel s before after n h k free in
      let rec : ClientRec = record {
        client_id = uuid;
        token = token;
        tunnel_id = id;
        auth_code = auth_code;
        create_time = now;
      } in
      (
        rec,
        store_client srv codec s' rec,
        rw (e, generate_new_client),
        refl,
        refl,
        refl,
        store_client-IsRegistered s s' rec new,
      )
