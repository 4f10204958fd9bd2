-- ===== src/System/Kick.antt =====
-- app/node/etcd/etcd.go, app/node/node.go, app/client/client.go: a second login of a client.
use zhangyu.Base.{
  ℕ, String, Option, none, some, List, [], ◌∷◌, ◌≡◌, ◌≢◌, refl, sym, ap, ◌∙◌, eq_false,
}
use zhangyu.Base.Text.{CaseTable, to_lower}
use zhangyu.Utils.Json.{JsonText, Json, get_json_string, get_json_value-get_json_string, obj}
use zhangyu.Rpc.InvokePath.{client_kick, transfer_target_out, transfer_listen_add}
use zhangyu.Rpc.Models.{InvokeRequest, new_invoke_request}
use zhangyu.Rpc.Records.{ClientRec, OnlineClient}
use zhangyu.Rpc.Records.Clients.{client_rec_struct, online_client_struct, marshal_online_client}
use zhangyu.Rpc.Route.{InvokeRoute, get_uni_handler}
use zhangyu.Rpc.Route
use zhangyu.Etcd.Server.{Server, keep_alive}
use zhangyu.Etcd.Keys.{client_key, online_client_key, client-ne-online}
use zhangyu.Etcd.Store.{get_client_rec, put_value_keep_alive, put_online_client}
use zhangyu.Etcd.Store.Laws.{get-put_self, get-put_ne, get_record-same}
use zhangyu.Etcd.Watch.{Event, put, watch_event}
use zhangyu.Node.Login.{Outcome, online_record, on_invoker_client_login}
use zhangyu.Node.Login.Laws.{Proves, accepted, login-known}
use zhangyu.Node.Peers.{Peer, Effect, writes}
use zhangyu.Node.Transfer.{on_watcher_client_online}
use zhangyu.Node.Handlers.{BidiHandler, login}
use zhangyu.Client.Handlers.{ClientHandler, kick, dial_out, listen_add, init_client_handlers}
use zhangyu.System.Paths.{Kept, added, get-apart}

module _ (srv : Server) (codec : JsonText) (u : CaseTable) where
  open srv use {State, get}

  -- No document has the empty text.
  to_text-ne_empty : (j : Json) → codec.to_text j ≢ ""
  to_text-ne_empty j e = cc (codec.of_text-to_text j, codec.of_text-empty, e)

  online-ne_empty : (o : OnlineClient) → get_json_string codec o ≢ ""
  unfolding get_json_string
  online-ne_empty o = to_text-ne_empty (obj (marshal_online_client o))

  -- A login leaves the text of its online record, and the clients' records as they were.
  online-text :
      (s : State) (id : String) (o : OnlineClient)
      → get (put_online_client srv codec s id o) (online_client_key id)
        ≡ some (get_json_string codec o)
  unfolding put_online_client put_value_keep_alive
  online-text s id o = get-put_self srv codec s (online_client_key id) _ (keep_alive 10)

  client_rec-kept :
      (s : State) (id client_id : String) (o : OnlineClient)
      → get_client_rec srv codec (put_online_client srv codec s id o) client_id
        ≡ get_client_rec srv codec s client_id
  unfolding get_client_rec put_online_client put_value_keep_alive
  client_rec-kept s id client_id o = get_record-same srv codec _ s (client_key client_id) (
      get-put_ne srv codec s (online_client_key id) _ (keep_alive 10) (client_key client_id)
        (λ e. client-ne-online client_id id (sym e)))

  -- The request that tells a client to leave.
  abbrev pub kick_request : String → InvokeRequest
  kick_request uuid = record (new_invoke_request uuid client_kick) {
    header = ("Message", "有新的客户端上线，当前客户端已被服务端踢下线") ∷ [];
  }

  -- The watcher that a node adds for online records.
  abbrev pub online_watcher :
      {Uni Bidi : Type 0}
      → InvokeRoute Uni Bidi Peer
      → String
      → String
      → String
      → String
      → String
      → List Effect
  online_watcher route uuid event_type key prev_value value =
      on_watcher_client_online srv codec u route uuid event_type prev_value

  -- What the watcher does when an online record was put over another, by what its route has.
  abbrev kicks : String → Option Peer → List Effect
  kicks uuid none = []
  kicks uuid (some old) = writes old (kick_request uuid) ∷ []

  watcher-kicks :
      {Uni Bidi : Type 0} (route : InvokeRoute Uni Bidi Peer) (uuid : String) (e : Event)
      (online : OnlineClient) (found : Option Peer)
      → to_lower u "PUT" ≡ "put"
      → e.event_type ≡ put
      → e.prev_value ≡ some (get_json_string codec online)
      → Route.get_invoker u route online.invoker_id ≡ found
      → watch_event (online_watcher route uuid) e ≡ kicks uuid found
  unfolding watch_event on_watcher_client_online
  watcher-kicks route uuid e online none lower is_put before there = rw (
    is_put,
    before,
    lower,
    eq_false (get_json_string codec online) "" (online-ne_empty online),
    get_json_value-get_json_string codec online,
    there,
  )
  watcher-kicks route uuid e online (some old) lower is_put before there = rw (
    is_put,
    before,
    lower,
    eq_false (get_json_string codec online) "" (online-ne_empty online),
    get_json_value-get_json_string codec online,
    there,
  )

  finds_kick :
      (c : InvokeRoute ClientHandler BidiHandler Peer) (uuid : String)
      → Kept u client_kick
      → Kept u transfer_target_out
      → Kept u transfer_listen_add
      → get_uni_handler u (init_client_handlers u c) (kick_request uuid).path ≡ some kick
  unfolding init_client_handlers
  finds_kick c uuid k_kick k_out k_add =
      get-apart u _ transfer_listen_add listen_add login client_kick k_add k_kick refl
      ∙ get-apart u _ transfer_target_out dial_out login client_kick k_out k_kick refl
      ∙ added u _ client_kick kick login

  -- The store after a login.
  abbrev pub after_login : State → String → Peer → InvokeRequest → ℕ → State
  after_login s node_id peer request now =
      (on_invoker_client_login srv codec s node_id peer request now).etcd

  module _ {Uni Bidi : Type 0} (here elsewhere : InvokeRoute Uni Bidi Peer)
      (c : InvokeRoute ClientHandler BidiHandler Peer) (s : State) (node_a node_b uuid : String)
      (first second old : Peer) (request request' : InvokeRequest) (now now' : ℕ) (rec : ClientRec)
      (e : Event) where
    -- Let a client log in over two invokers, one after the other, at any two nodes, each time with
    -- the identifier and the token of its record. The second login is accepted as well. On the
    -- event of its online record, with the value that the first login left as the previous one, the
    -- watcher of a node whose route has the first invoker writes a kick to it, and does nothing
    -- else; the watcher of a node whose route has not does nothing. If folding keeps the paths of
    -- the kick and of the two requests whose handlers are added after it, the kick reaches the
    -- handler that `InitClient` adds for it. The two invokers may be the same.
    pub second_login_kicks :
        first.terminal_id ≡ second.terminal_id
        → get_client_rec srv codec s first.terminal_id ≡ some rec
        → Proves srv codec s node_a first request now rec
        → Proves srv codec (after_login s node_a first request now) node_b second request' now' rec
        → to_lower u "PUT" ≡ "put"
        → Kept u client_kick
        → Kept u transfer_target_out
        → Kept u transfer_listen_add
        → e.event_type ≡ put
        → e.prev_value
          ≡ get (after_login s node_a first request now) (online_client_key second.terminal_id)
        → Route.get_invoker u here first.invoker_id ≡ some old
        → Route.get_invoker u elsewhere first.invoker_id ≡ none
        → (on_invoker_client_login srv codec
              (after_login s node_a first request now)
              node_b
              second
              request'
              now'
            ≡ accepted srv codec
                (after_login s node_a first request now)
                node_b
                second
                request'
                now'
                rec)
          × (watch_event (online_watcher here uuid) e ≡ writes old (kick_request uuid) ∷ [])
          × (watch_event (online_watcher elsewhere uuid) e ≡ [])
          × (get_uni_handler u (init_client_handlers u c) (kick_request uuid).path ≡ some kick)
    second_login_kicks same known proves proves' lower k_kick k_out k_add is_put before there gone =
        let left =
          ap (λ (o : Outcome srv). o.etcd)
            (login-known srv codec s node_a first request now rec known proves) in
        let online = online_record srv codec node_a first now in
        let stored =
          before
          ∙ ap (λ t. get t (online_client_key second.terminal_id)) left
          ∙ ap
              (λ id.
                get (put_online_client srv codec s first.terminal_id online) (online_client_key id))
              (sym same)
          ∙ online-text s first.terminal_id online in
        (
          login-known srv codec (after_login s node_a first request now) node_b second request' now'
              rec
              (ap (λ t. get_client_rec srv codec t second.terminal_id) left
                ∙ client_rec-kept s first.terminal_id second.terminal_id online
                ∙ ap (get_client_rec srv codec s) (sym same)
                ∙ known)
              proves',
          watcher-kicks here uuid e online (some old) lower is_put stored there,
          watcher-kicks elsewhere uuid e online none lower is_put stored gone,
          finds_kick c uuid k_kick k_out k_add,
        )
