-- ===== src/Node/Routes/Forged.antt =====
-- app/node/node.go, `verifyToken` and `httpHandler_ListenAdd`: a request with a token that the node did not sign.
use zhangyu.Base.{◌≤◌, String, ◌≡◌, ◌≢◌, ap, ◌∙◌, Option, none, some}
use mathlib.Core.List.{Mem}
use zhangyu.Base.Text.{CaseTable}
use zhangyu.Utils.Json.{JsonText}
use zhangyu.Etcd.Server.{Server}
use zhangyu.Etcd.Store.{get_jwt_sign_key}
use zhangyu.Etcd.Listens.{Url, get_transfer_list}
use zhangyu.Etcd.Listens.Laws.{add_listen-stored, get_transfer_list-mem}
use zhangyu.Rpc.Records.{ListenRequest}
use zhangyu.Rpc.Route.{InvokeRoute}
use zhangyu.Node.Login.{Claim}
use zhangyu.Node.Peers.{Peer}
use zhangyu.Node.Token.{Jwt}
use zhangyu.Node.Token.Laws.{verify-foreign}
use zhangyu.Node.ListenAdd.{address, listen_refusal, listen_address}
use zhangyu.Node.Response.{json, success_of, listen_json, answer_of}
use zhangyu.Node.Routes.{
  post, HttpRequest, HttpContext, answers, post_listen_add, served_add, serve,
}
use zhangyu.Node.Routes.Laws.{
  serve-verified, listen_of, listen_store, listen_effects, listen_answered,
}

module _ (srv : Server) (codec : JsonText) (jwt : Jwt codec) (u : CaseTable) {Uni Bidi : Type 0}
    (route : InvokeRoute Uni Bidi Peer) (parse : String → Option Url) where
  open srv use {State}

  module _ (ctx : HttpContext) (s s' : State) (r : HttpRequest) (asked : ListenRequest) (url : Url)
      (addr : String) (claim : Claim) (key : String) where
    -- The signing key of the node, and the store once it was read.
    abbrev pub node_key : String
    node_key = (get_jwt_sign_key srv codec s ctx.drawn_key).0

    abbrev pub key_store : State
    key_store = (get_jwt_sign_key srv codec s ctx.drawn_key).1

    -- A request to listen with a token that a foreign key signed, whatever the claims in it, before
    -- it expires, and whose header names a client, is served as a request of that client: if the
    -- checks of `httpHandler_ListenAdd` pass for that client and choose an address, and the target
    -- address is not empty and parses, then it is answered with the client's listen, and the listen
    -- is on the list that `GetTransferList` gives that client. A foreign key is one with which the
    -- token comes out otherwise than with the node's.
    pub forged_listen :
        r.jwt_token ≡ jwt.create_token claim key
        → jwt.create_token claim key ≢ jwt.create_token claim node_key
        → ctx.unix ≤ claim.expires_at
        → r.listen ≡ some asked
        → listen_refusal srv codec key_store asked r.client_id ≡ none
        → listen_address srv codec parse ctx.domain ctx.draws key_store asked ≡ address addr s'
        → parse asked.target_addr ≡ some url
        → asked.target_addr ≢ ""
        → (serve srv codec jwt u route parse ctx s post post_listen_add r
            ≡ answers
                (json (
                  success_of (
                    listen_json
                      (listen_of srv codec jwt u route parse ctx s' asked r.client_id addr))))
                (listen_store srv codec jwt u route parse ctx s' asked url r.client_id addr)
                (listen_effects srv codec jwt u route parse ctx s' asked url r.client_id addr))
          × Mem (listen_of srv codec jwt u route parse ctx s' asked r.client_id addr) (
              get_transfer_list srv codec
                (listen_store srv codec jwt u route parse ctx s' asked url r.client_id addr)
                r.client_id)
    unfolding answer_of
    forged_listen token foreign early bound fine chosen parsed some_target =
        let verified =
          verify-foreign srv codec jwt s claim key r.client_id ctx.drawn_key ctx.unix early
            foreign in
        (
          serve-verified srv codec jwt u route parse ctx s key_store r r.client_id
                (rw token verified)
              ∙ rw bound (
                  ap (served_add srv codec jwt u route parse) (
                    listen_answered srv codec jwt u route parse ctx key_store s' asked url
                      r.client_id addr fine chosen parsed some_target)),
          get_transfer_list-mem srv codec _ r.client_id addr _
              (add_listen-stored srv codec parse s' asked.target_tunnel_id r.client_id addr
                asked.target_addr ctx.now url parsed some_target).1,
        )
