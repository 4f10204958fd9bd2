-- ===== src/Node/Adapter/Laws.antt =====
-- app/node/node.go, rpc/quic/srv/server.go: the first connection of a new client, from the server to the
-- store.
use zhangyu.Base.{ℕ, ◌<◌, String, ◌≡◌, ap, ◌∙◌, true, none, some, List, [], ◌∷◌, ◌++◌, All}
use zhangyu.Base.Text.{CaseTable}
use zhangyu.Utils.Cache.Valid.{IsValid}
use zhangyu.Utils.Json.{JsonText}
use zhangyu.Etcd.Server.{Server}
use zhangyu.Etcd.Keys.{tunnel_key}
use zhangyu.Etcd.Register.{tunnel_id_of, generate_new_client}
use zhangyu.Etcd.Register.Laws.{IsRegistered, generate_new_client-IsRegistered}
use zhangyu.Rpc.Records.{ClientRec}
use zhangyu.Rpc.Route.{InvokeRoute}
use zhangyu.Rpc.Route
use zhangyu.Node.Peers.{Peer, Node}
use zhangyu.Node.Adapter.{Draws, on_new_client_rec, node_adapter}
use zhangyu.Quic.Server.{
  Incoming, writes, is_command, type_of, terminal_id_of, set_id_request, client_new_request,
  accepted_peer, handed_on, upgrade_web_transport,
}
use zhangyu.Quic.Server.Laws.{IsFine, with_invoker, upgrade-new, open-new, get-with_invoker}

module _ (srv : Server) (codec : JsonText) (u : CaseTable) (uuid : String) where
  open srv use {State, get}

  new_client_rec :
      (d : Draws) (n : Node srv) (rec : ClientRec) (s : State)
      → generate_new_client srv codec n.etcd d.uuid d.token d.auth_code d.numbers d.now
        ≡ some (rec, s)
      → on_new_client_rec srv codec u d n ≡ some (rec, record n { etcd = s })
  unfolding on_new_client_rec
  new_client_rec d n rec s e = rw (e, on_new_client_rec)

  module _ {Uni Bidi : Type 0} (route : InvokeRoute Uni Bidi Peer) (n : Node srv) (i : Incoming)
      (id token auth_code : String) (before after : List ℕ) (draw now : ℕ) where
    abbrev pub draws : Draws
    draws = record {
      uuid = id;
      token = token;
      auth_code = auth_code;
      numbers = before ++ draw ∷ after;
      now = now;
    }

    -- A command connection without a terminal, on which nothing fails, in a node whose route is
    -- valid, with a draw that comes to a free tunnel: the server registers a client, puts an
    -- invoker of that client on the route, writes it its identifiers and then the record, and
    -- dispatches it.
    pub upgrade_new_client :
        is_command (type_of i) ≡ true
        → terminal_id_of i ≡ ""
        → IsFine i
        → IsValid u route.invokes
        → All (λ d. d < 99999999) before
        → draw < 99999999
        → get n.etcd (tunnel_key (tunnel_id_of draw)) ≡ none
        → (rec : ClientRec) × (s : State) × IsRegistered srv codec n.etcd rec s
          × (upgrade_web_transport codec u uuid (node_adapter srv codec u route draws) n route i
              ≡ some (record {
                state = record n { etcd = s };
                route = with_invoker codec u uuid route i rec.client_id;
                acts =
                    writes (set_id_request codec u uuid i.invoker_id rec.client_id)
                    ∷ writes (client_new_request codec u uuid rec)
                    ∷ handed_on codec u uuid
                        (type_of i)
                        (accepted_peer codec u uuid i rec.client_id)
                    ∷ [];
              }))
          × (Route.get_invoker u (with_invoker codec u uuid route i rec.client_id) i.invoker_id
              ≡ some (accepted_peer codec u uuid i rec.client_id))
    upgrade_new_client is_cmd unnamed fine v small below free =
        let (rec, s, e, _, _, _, registered) =
          generate_new_client-IsRegistered srv codec n.etcd id token auth_code before after draw now
            small below free in
        (
          rec,
          s,
          registered,
          upgrade-new codec u uuid (node_adapter srv codec u route draws) n route i rec
                (record n { etcd = s }) is_cmd unnamed (new_client_rec draws n rec s e)
              ∙ ap some (
                  open-new codec u uuid (node_adapter srv codec u route draws)
                    (record n { etcd = s }) route i rec.client_id rec fine),
          get-with_invoker codec u uuid route i rec.client_id v,
        )
