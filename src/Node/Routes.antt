-- ===== src/Node/Routes.antt =====
-- app/node/node.go, `POST` to `AuthPOST`, `init` and the handlers behind them; app/node/consts.go: what a
-- node serves over HTTP. Which pattern a URL matches, and what `Bind` makes of a body, is echo's.
pub mod Laws
pub mod Forged
use zhangyu.Base.{
  ℕ, String, Bool, true, false, Option, none, some, List, [], ◌∷◌, ◌++◌, ◌==◌, ◌&&◌, Run, returns,
  panics, if◌then◌else◌,
}
use zhangyu.Base.Text.{CaseTable}
use zhangyu.Utils.Json.{JsonText}
use zhangyu.Etcd.Server.{Server}
use zhangyu.Etcd.Directory.{get_domain_list}
use zhangyu.Etcd.Listens.{Url}
use zhangyu.Rpc.Records.{Listen, LoginRequest, ListenRequest}
use zhangyu.Rpc.Route.{InvokeRoute}
use zhangyu.Node.Login.{Reply, http_login}
use zhangyu.Node.Peers.{Peer, Effect}
use zhangyu.Node.Token.{Jwt, Verified, refuses, continues, verify_token}
use zhangyu.Node.ListenAdd.{Added, answered, crashes, still_draws, http_listen_add}
use zhangyu.Node.Response.{
  Answer, json, bind_failed, empty, error_of, answer_of, login_json, listen_json, domains_json,
  success_of,
}

pub data HttpMethod : Type 0 where
  get post : HttpMethod

abbrev same_method : HttpMethod → HttpMethod → Bool
same_method get get = true
same_method post post = true
same_method _ _ = false

pub data HttpHandler : Type 0 where
  login domain_list listen_add listen_del : HttpHandler

pub record HttpRoute : Type 0 where
  pub method : HttpMethod
  pub path : String
  pub handler : HttpHandler
  -- Whether `verifyToken` stands before the handler.
  pub verified : Bool

-- `POST`, `GET`, `AuthGET` and `AuthPOST`, on the routes that were added before.
abbrev add_route : HttpMethod → Bool → List HttpRoute → String → HttpHandler → List HttpRoute
add_route method verified routes path handler =
    routes ++ record { method = method; path = path; handler = handler; verified = verified } ∷ []

unfoldable add_post : List HttpRoute → String → HttpHandler → List HttpRoute
add_post = add_route post false

unfoldable add_get : List HttpRoute → String → HttpHandler → List HttpRoute
add_get = add_route get false

unfoldable add_auth_get : List HttpRoute → String → HttpHandler → List HttpRoute
add_auth_get = add_route get true

unfoldable add_auth_post : List HttpRoute → String → HttpHandler → List HttpRoute
add_auth_post = add_route post true

abbrev pub post_login : String
post_login = "/_zhangyu/auth/login"

abbrev get_domains : String
get_domains = "/_zhangyu/domain/list/:clientId"

abbrev pub post_listen_add : String
post_listen_add = "/_zhangyu/listen/add"

abbrev pub post_listen_del : String
post_listen_del = "/_zhangyu/listen/delete"

-- The routes of `init`.
unfoldable pub init_routes : List HttpRoute → List HttpRoute
unfolding add_post add_get add_auth_post
init_routes r =
    let r1 = add_post r post_login login in
    let r2 = add_get r1 get_domains domain_list in
    let r3 = add_auth_post r2 post_listen_add listen_add in
    add_auth_post r3 post_listen_del listen_del

-- The route of a pattern.
unfoldable pub route_of : List HttpRoute → HttpMethod → String → Option HttpRoute
route_of [] method path = none
route_of (r ∷ routes) method path =
    let later = route_of routes method path in
    if same_method r.method method && r.path == path then some r else later

-- What a handler reads of a request: two headers, a parameter of its path, and what `Bind` gives.
pub record HttpRequest : Type 0 where
  pub jwt_token : String
  pub client_id : String
  pub param_client_id : String
  pub login : Option LoginRequest
  pub listen : Option ListenRequest

-- What the handlers take from elsewhere: the node's domain, the draws for a name and for a key, whether a
-- write succeeds, a new identifier, and the time, of the clock and in seconds.
pub record HttpContext : Type 0 where
  pub domain : String
  pub draws : List ℕ
  pub drawn_key : String
  pub written : Bool
  pub uuid : String
  pub now : ℕ
  pub unix : ℕ

-- What becomes of a request.
pub data Served (srv : Server) : Type 0 where
  answers : Answer → srv.State → List Effect → Served srv
  crashed : Served srv
  drawing : Served srv
  not_found : Served srv

module _ (srv : Server) (codec : JsonText) (jwt : Jwt codec) (u : CaseTable) {Uni Bidi : Type 0}
    (route : InvokeRoute Uni Bidi Peer) (parse : String → Option Url) where
  open srv use {State}

  abbrev pub served_add : Added srv → Served srv
  served_add (answered reply s effects) = answers (answer_of listen_json reply) s effects
  served_add crashes = crashed
  served_add still_draws = drawing

  -- `httpHandler_DomainList`.
  unfoldable pub http_domain_list : State → HttpRequest → Served srv
  http_domain_list s r =
      answers
        (json (success_of (domains_json codec (get_domain_list srv codec s r.param_client_id)))) s
        []

  -- `httpHandler_ListenDel`: it writes nothing.
  unfoldable pub http_listen_del : State → Served srv
  http_listen_del s = answers empty s []

  -- A handler, with the `Zhangyu-ClientId` that it finds.
  unfoldable pub run_handler : HttpContext → State → HttpRequest → String → HttpHandler → Served srv
  run_handler ctx s r client_id login =
      let (reply, s') = http_login srv codec jwt.create_token s r.login ctx.drawn_key ctx.unix in
      answers (answer_of login_json reply) s' []
  run_handler ctx s r client_id domain_list = http_domain_list s r
  run_handler ctx s r client_id listen_add = served_add (
      http_listen_add srv codec u route parse s r.listen client_id ctx.domain ctx.draws ctx.written
        ctx.uuid ctx.now)
  run_handler ctx s r client_id listen_del = http_listen_del s

  -- The handler, after `verifyToken`.
  abbrev run_verified : HttpContext → HttpRequest → HttpHandler → Run Verified × State → Served srv
  run_verified ctx r handler (panics, s) = crashed
  run_verified ctx r handler (returns (refuses message), s) = answers (json (error_of message)) s []
  run_verified ctx r handler (returns (continues client_id), s) =
      run_handler ctx s r client_id handler

  unfoldable pub serve_route : HttpContext → State → HttpRequest → HttpRoute → Served srv
  serve_route ctx s r h =
      if h.verified
      then run_verified ctx r h.handler
          (verify_token srv codec jwt s r.jwt_token r.client_id ctx.drawn_key ctx.unix)
      else run_handler ctx s r r.client_id h.handler

  -- A request for a pattern of the node's own routes, once `OnHttpRoot` has let it pass.
  unfoldable pub serve : HttpContext → State → HttpMethod → String → HttpRequest → Served srv
  unfolding serve_route
  serve ctx s method path r = elim (route_of (init_routes []) method path) [
    | none ↦ not_found
    | some h ↦ serve_route ctx s r h
  ]
