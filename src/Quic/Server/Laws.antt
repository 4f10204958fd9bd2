-- ===== src/Quic/Server/Laws.antt =====
-- rpc/quic/srv/server.go: theorems about `upgradeWebTransport`.
use zhangyu.Base.{String, ◌≡◌, ap, ◌∙◌, true, false, none, some, List, [], ◌∷◌, ◌++◌, eq_refl}
use zhangyu.Base.Text.{CaseTable}
use zhangyu.Utils.Cache.{get_key}
use zhangyu.Utils.Cache.Valid.{IsValid}
use zhangyu.Utils.Cache.Access.{get-set_item}
use zhangyu.Utils.Json.{JsonText}
use zhangyu.Rpc.Records.{ClientRec}
use zhangyu.Rpc.Route.{InvokeRoute}
use zhangyu.Rpc.Route
use zhangyu.Node.Peers.{Peer}
use zhangyu.Quic.Server.{
  Act, Adapter, Incoming, http_error, writes, is_command, type_of, terminal_id_of,
  invalid_invoker_connect, set_id_request, client_new_request, accepted_peer, handed_on, greet,
  accept, open_stream, upgrade_web_transport,
}

-- A connection on which nothing fails.
pub record IsFine (i : Incoming) : Type 0 where
  pub upgraded : i.upgrade_error ≡ none
  pub opened : i.stream_error ≡ none
  pub set_id : i.set_id_error ≡ none
  pub client_new : i.client_new_error ≡ none

module _ (codec : JsonText) (u : CaseTable) (uuid : String) where
  -- The route with the invoker of a connection.
  abbrev pub with_invoker :
      {Uni Bidi : Type 0}
      → InvokeRoute Uni Bidi Peer
      → Incoming
      → String
      → InvokeRoute Uni Bidi Peer
  with_invoker route i terminal_id =
      Route.add_invoker u route i.invoker_id (accepted_peer codec u uuid i terminal_id)

  pub get-with_invoker :
      {Uni Bidi : Type 0} (route : InvokeRoute Uni Bidi Peer) (i : Incoming) (terminal_id : String)
      → IsValid u route.invokes
      → Route.get_invoker u (with_invoker route i terminal_id) i.invoker_id
        ≡ some (accepted_peer codec u uuid i terminal_id)
  unfolding Route.get_invoker
  get-with_invoker route i terminal_id v =
      get-set_item u route.invokes v i.invoker_id (accepted_peer codec u uuid i terminal_id)
        i.invoker_id
      ∙ rw (eq_refl (get_key u i.invoker_id))

  module _ {ℓ} {State : Type ℓ} {Uni Bidi : Type 0} (a : Adapter State) (s : State)
      (route : InvokeRoute Uni Bidi Peer) (i : Incoming) where
    open-known :
        (acts : List Act) (terminal_id : String)
        → IsFine i
        → open_stream codec u uuid a s route acts i terminal_id none ≡ record {
          state = s;
          route = with_invoker route i terminal_id;
          acts =
              (acts ++ writes (set_id_request codec u uuid i.invoker_id terminal_id) ∷ [])
              ++ handed_on codec u uuid (type_of i) (accepted_peer codec u uuid i terminal_id) ∷ [];
        }
    unfolding open_stream accept greet
    open-known acts terminal_id f = rw (f.upgraded, open_stream, f.opened, f.set_id, accept)

    pub open-new :
        (terminal_id : String) (rec : ClientRec)
        → IsFine i
        → open_stream codec u uuid a s route [] i terminal_id (some rec) ≡ record {
          state = s;
          route = with_invoker route i terminal_id;
          acts =
              writes (set_id_request codec u uuid i.invoker_id terminal_id)
              ∷ writes (client_new_request codec u uuid rec)
              ∷ handed_on codec u uuid (type_of i) (accepted_peer codec u uuid i terminal_id)
              ∷ [];
        }
    unfolding open_stream accept greet
    open-new terminal_id rec f = rw (f.upgraded, open_stream, f.opened, f.set_id, f.client_new)

    -- A command connection of a new client.
    pub upgrade-new :
        (rec : ClientRec) (s' : State)
        → is_command (type_of i) ≡ true
        → terminal_id_of i ≡ ""
        → a.on_new_client_rec s ≡ some (rec, s')
        → upgrade_web_transport codec u uuid a s route i
          ≡ some (open_stream codec u uuid a s' route [] i rec.client_id (some rec))
    unfolding upgrade_web_transport
    upgrade-new rec s' is_cmd unnamed made = rw (is_cmd, unnamed, made, upgrade_web_transport)

    upgrade-absent :
        is_command (type_of i) ≡ false
        → a.get_invoker s (terminal_id_of i) ≡ none
        → upgrade_web_transport codec u uuid a s route i
          ≡ some (
              open_stream codec u uuid a s route
                (http_error invalid_invoker_connect ∷ [])
                i
                (terminal_id_of i)
                none)
    unfolding upgrade_web_transport
    upgrade-absent plain absent = rw (plain, absent)

    -- A connection that is no command connection and names a terminal without an invoker is
    -- answered with an error, and if nothing fails it is accepted all the same: in a valid route
    -- its invoker is found, and it is handed on.
    pub upgrade_unattached :
        is_command (type_of i) ≡ false
        → a.get_invoker s (terminal_id_of i) ≡ none
        → IsFine i
        → IsValid u route.invokes
        → (upgrade_web_transport codec u uuid a s route i
            ≡ some (record {
              state = s;
              route = with_invoker route i (terminal_id_of i);
              acts =
                  http_error invalid_invoker_connect
                  ∷ writes (set_id_request codec u uuid i.invoker_id (terminal_id_of i))
                  ∷ handed_on codec u uuid
                      (type_of i)
                      (accepted_peer codec u uuid i (terminal_id_of i))
                  ∷ [];
            }))
          × (Route.get_invoker u (with_invoker route i (terminal_id_of i)) i.invoker_id
              ≡ some (accepted_peer codec u uuid i (terminal_id_of i)))
    upgrade_unattached plain absent f v = (
      upgrade-absent plain absent
          ∙ ap some (open-known (http_error invalid_invoker_connect ∷ []) (terminal_id_of i) f),
      get-with_invoker route i (terminal_id_of i) v,
    )
