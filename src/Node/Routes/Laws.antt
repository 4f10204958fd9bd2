-- ===== src/Node/Routes/Laws.antt =====
-- app/node/node.go: requests over HTTP with a token, from the login to the listen that is stored.
use zhangyu.Base.{◌≤◌, ◌+◌, String, ◌≡◌, ◌≢◌, refl, ap, ◌∙◌, Option, none, some, List, [], returns}
use mathlib.Core.List.{Mem}
use zhangyu.Base.Text.{CaseTable}
use zhangyu.Utils.Json.{JsonText}
use zhangyu.Etcd.Server.{Server}
use zhangyu.Etcd.Store.{get_client_rec}
use zhangyu.Etcd.Listens.{Url, listen_record, get_transfer_list}
use zhangyu.Etcd.Listens.Laws.{with_listen, add_listen-stored, get_transfer_list-mem}
use zhangyu.Rpc.Records.{ClientRec, Listen, LoginRequest, ListenRequest}
use zhangyu.Rpc.Route.{InvokeRoute}
use zhangyu.Node.Login.{success_response}
use zhangyu.Node.Peers.{Peer, Effect, get_invoker}
use zhangyu.Node.Token.{Jwt, continues, verify_token, missing_token_message}
use zhangyu.Node.Token.Laws.{store_of, token_of, login_verified}
use zhangyu.Node.ListenAdd.{
  answered, address, listen_refusal, listen_address, listen_notice, tell, add_and_tell,
  answer_address, http_listen_add,
}
use zhangyu.Node.Response.{json, error_of, success_of, login_json, listen_json, answer_of}
use zhangyu.Node.Routes.{
  post, HttpRequest, HttpContext, answers, post_login, post_listen_add, post_listen_del, served_add,
  run_handler, serve_route, init_routes, route_of, serve,
}

module _ (srv : Server) (codec : JsonText) (jwt : Jwt codec) (u : CaseTable) {Uni Bidi : Type 0}
    (route : InvokeRoute Uni Bidi Peer) (parse : String → Option Url) where
  open srv use {State}

  -- Both routes that take a token refuse a request without one, and leave the store as it is.
  pub serve_unauthenticated :
      (ctx : HttpContext) (s : State) (r : HttpRequest)
      → r.jwt_token ≡ ""
      → (serve srv codec jwt u route parse ctx s post post_listen_add r
          ≡ answers (json (error_of missing_token_message)) s [])
        × (serve srv codec jwt u route parse ctx s post post_listen_del r
            ≡ answers (json (error_of missing_token_message)) s [])
  unfolding serve serve_route init_routes route_of verify_token
  serve_unauthenticated ctx s r e = (rw e refl, rw e refl)

  pub serve-verified :
      (ctx : HttpContext) (s s' : State) (r : HttpRequest) (client_id : String)
      → verify_token srv codec jwt s r.jwt_token r.client_id ctx.drawn_key ctx.unix
        ≡ (returns (continues client_id), s')
      → serve srv codec jwt u route parse ctx s post post_listen_add r
        ≡ served_add srv codec jwt u route parse (
            http_listen_add srv codec u route parse s' r.listen client_id ctx.domain ctx.draws
              ctx.written ctx.uuid ctx.now)
  unfolding serve serve_route init_routes route_of run_handler
  serve-verified ctx s s' r client_id verified = rw verified refl

  -- The listen of a request, and what is left once it is stored and told.
  abbrev pub listen_of : HttpContext → State → ListenRequest → String → String → Listen
  listen_of ctx s req client_id addr =
      listen_record srv codec s req.target_tunnel_id client_id addr req.target_addr ctx.now

  abbrev pub listen_store : HttpContext → State → ListenRequest → Url → String → String → State
  listen_store ctx s req url client_id addr =
      with_listen srv codec parse s req.target_tunnel_id client_id addr req.target_addr ctx.now url

  abbrev pub listen_effects :
      HttpContext → State → ListenRequest → Url → String → String → List Effect
  listen_effects ctx s req url client_id addr =
      tell srv codec u route ctx.written (listen_notice srv codec ctx.uuid req client_id addr) (
        get_invoker srv codec u route (listen_store ctx s req url client_id addr)
          req.listen_client_id)

  pub listen_answered :
      (ctx : HttpContext) (s s' : State) (req : ListenRequest) (url : Url) (client_id addr : String)
      → listen_refusal srv codec s req client_id ≡ none
      → listen_address srv codec parse ctx.domain ctx.draws s req ≡ address addr s'
      → parse req.target_addr ≡ some url
      → req.target_addr ≢ ""
      → http_listen_add srv codec u route parse s
          (some req)
          client_id
          ctx.domain
          ctx.draws
          ctx.written
          ctx.uuid
          ctx.now
        ≡ answered
            (success_response (listen_of ctx s' req client_id addr))
            (listen_store ctx s' req url client_id addr)
            (listen_effects ctx s' req url client_id addr)
  unfolding http_listen_add answer_address add_and_tell
  listen_answered ctx s s' req url client_id addr fine chosen parsed some_target =
      let stored =
        (add_listen-stored srv codec parse s' req.target_tunnel_id client_id addr req.target_addr
          ctx.now url parsed some_target).0 in
      rw (fine, http_listen_add)
        (ap (answer_address srv codec u route parse s ctx.written ctx.uuid ctx.now req client_id)
            chosen
          ∙ rw (stored, add_and_tell) refl)

  module _ (s : State) (req : LoginRequest) (rec : ClientRec) (ctx ctx' : HttpContext)
      (r r' : HttpRequest) (asked : ListenRequest) (url : Url) (addr : String) (s' : State) where
    -- The store and the token after the login.
    abbrev pub login_store : State
    login_store = store_of srv codec jwt s req rec ctx.drawn_key ctx.unix

    abbrev pub login_token : String
    login_token = token_of srv codec jwt s req rec ctx.drawn_key ctx.unix

    -- Let a client log in over HTTP with the token of its record, and within the hour post a
    -- request to listen with the token that it was given, whatever client its header names. If the
    -- checks of `httpHandler_ListenAdd` pass for the client that logged in, they choose an address,
    -- and the target address is not empty and parses, then the login is answered with the token,
    -- the request is answered with the listen of that client, the client of the request's
    -- `ListenClientId` is told if it is online, and the listen is on the list that
    -- `GetTransferList` gives the client that logged in.
    pub login_then_listen :
        r.login ≡ some req
        → req.client_id ≢ ""
        → get_client_rec srv codec s req.client_id ≡ some rec
        → rec.token ≡ req.token
        → r'.jwt_token ≡ login_token
        → r'.listen ≡ some asked
        → ctx'.unix ≤ ctx.unix + 3600
        → listen_refusal srv codec login_store asked req.client_id ≡ none
        → listen_address srv codec parse ctx'.domain ctx'.draws login_store asked ≡ address addr s'
        → parse asked.target_addr ≡ some url
        → asked.target_addr ≢ ""
        → (serve srv codec jwt u route parse ctx s post post_login r
            ≡ answers (json (success_of (login_json login_token))) login_store [])
          × (serve srv codec jwt u route parse ctx' login_store post post_listen_add r'
              ≡ answers
                  (json (success_of (listen_json (listen_of ctx' s' asked req.client_id addr))))
                  (listen_store ctx' s' asked url req.client_id addr)
                  (listen_effects ctx' s' asked url req.client_id addr))
          × Mem (listen_of ctx' s' asked req.client_id addr) (
              get_transfer_list srv codec
                (listen_store ctx' s' asked url req.client_id addr)
                req.client_id)
    unfolding serve serve_route init_routes route_of run_handler answer_of
    login_then_listen sent named known same token bound early fine chosen parsed some_target =
        let (logged_in, verified) =
          login_verified srv codec jwt s req rec ctx.drawn_key ctx.unix r'.client_id ctx'.drawn_key
            ctx'.unix named known same early in
        (
          rw (sent, logged_in) refl,
          serve-verified ctx' login_store login_store r' req.client_id (rw token verified)
              ∙ rw bound (
                  ap (served_add srv codec jwt u route parse) (
                    listen_answered ctx' login_store s' asked url req.client_id addr fine chosen
                      parsed some_target)),
          get_transfer_list-mem srv codec _ req.client_id addr _
              (add_listen-stored srv codec parse s' asked.target_tunnel_id req.client_id addr
                asked.target_addr ctx'.now url parsed some_target).1,
        )
