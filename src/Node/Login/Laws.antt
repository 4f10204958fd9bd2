-- ===== src/Node/Login/Laws.antt =====
-- app/node/node.go: theorems about `onInvokerClientLogin` and `httpHandler_Login`.
use zhangyu.Base.{
  ◌==◌, eq_iff, eq_refl, ne_of_eq_false, ℕ, String, ◌≡◌, refl, sym, ◌≢◌, ◌⊎◌, true, false, some,
  not, ◌||◌, ◌&&◌, Option-cases, Bool-cases, inl, inr, arith,
}
use zhangyu.Base.Text.{CaseTable}
use zhangyu.Utils.Json.{JsonText, get_json_string, get_json_value}
use zhangyu.Etcd.Server.{Server, keep_alive}
use zhangyu.Etcd.Store.{
  get_client_rec, get_online_client, put_online_client, put_value_keep_alive, get_jwt_sign_key,
}
use zhangyu.Etcd.Store.Laws.{get_record-put}
use zhangyu.Etcd.Keys.{online_client_key}
use zhangyu.Rpc.Models.{InvokeRequest, new_success_response}
use zhangyu.Rpc.Records.{ClientRec, OnlineClient, LoginRequest}
use zhangyu.Rpc.Records.Clients.{client_rec_struct, online_client_struct}
use zhangyu.Rpc.Records.Requests.{login_request_struct, no_login_request}
use zhangyu.Rpc.Route.{InvokeRoute}
use zhangyu.Rpc.Route
use zhangyu.Node.Peers.{Peer, get_invoker}
use zhangyu.Node.Login.{
  Claim, success_response, err_response, Outcome, online_record, check_login,
  on_invoker_client_login, client_claim, http_login,
}

module _ (srv : Server) (codec : JsonText) where
  open srv use {State}

  pub online-put :
      (s : State) (id : String) (o : OnlineClient)
      → get_online_client srv codec (put_online_client srv codec s id o) id ≡ some o
  unfolding get_online_client put_online_client put_value_keep_alive
  online-put s id o = get_record-put srv codec s (online_client_key id) o (keep_alive 10)

  pub get_invoker-online :
      {Uni Bidi Invoker : Type 0} (u : CaseTable) (route : InvokeRoute Uni Bidi Invoker) (s : State)
      (id : String) (o : OnlineClient)
      → get_online_client srv codec s id ≡ some o
      → get_invoker srv codec u route s id ≡ Route.get_invoker u route o.invoker_id
  unfolding get_invoker
  get_invoker-online u route s id o e = rw (e, get_invoker)

  module _ (s : State) (node_id : String) (peer : Peer) (request : InvokeRequest) (now : ℕ) where
    -- What a login that is accepted leaves.
    abbrev pub accepted : ClientRec → Outcome srv
    accepted rec = record {
      etcd =
          put_online_client srv codec s peer.terminal_id (online_record srv codec node_id peer now);
      response = record (new_success_response request.request_id "") {
        json_body = get_json_string codec rec;
      };
      closed_later = false;
    }

    -- A login request that names a client and its token, as the record has them.
    abbrev pub Proves : ClientRec → Type 0
    Proves rec =
        (login : LoginRequest) × (get_json_value codec no_login_request request.json_body
          ≡ (login, true))
        × (login.client_id ≡ rec.client_id)
        × (login.token ≡ rec.token)

    -- A login that is refused: nothing is stored, the response is an error, the invoker is closed.
    abbrev pub Refused : Outcome srv → Type 0
    Refused o = (o.etcd ≡ s) × (o.response.result_code ≡ 400) × (o.closed_later ≡ true)

    check-accepts :
        (rec : ClientRec)
        → Proves rec
        → check_login srv codec s node_id peer request now rec ≡ accepted rec
    unfolding check_login
    check-accepts rec (login, d, id, token) =
        rw (d, id, token, eq_refl rec.client_id, eq_refl rec.token)

    pub login-known :
        (rec : ClientRec)
        → get_client_rec srv codec s peer.terminal_id ≡ some rec
        → Proves rec
        → on_invoker_client_login srv codec s node_id peer request now ≡ accepted rec
    unfolding on_invoker_client_login
    login-known rec known proves = rw (known, on_invoker_client_login) (check-accepts rec proves)

    check-cases :
        (rec : ClientRec)
        → Proves rec ⊎ Refused (check_login srv codec s node_id peer request now rec)
    unfolding check_login
    check-cases rec =
        elim (Bool-cases (get_json_value codec no_login_request request.json_body).1) [
          | inr bad ↦ inr (rw bad (refl, refl, refl))
          | inl fine ↦
              elim (Bool-cases (
                not (
                  (get_json_value codec no_login_request request.json_body).0.client_id
                  == rec.client_id)
                || not (
                    (get_json_value codec no_login_request request.json_body).0.token
                    == rec.token))) [
                      | inl wrong ↦ inr (rw (fine, wrong) (refl, refl, refl))
                      | inr right ↦ inl (
                        (get_json_value codec no_login_request request.json_body).0,
                        rw (sym fine) refl,
                        (eq_iff _ rec.client_id).0 (ground arith),
                        (eq_iff _ rec.token).0 (ground arith),
                      )
                    ]
        ]

    -- A login over an invoker either is by a request that decodes and gives the identifier and the
    -- token of the record of the invoker's terminal, and then its online record is stored and the
    -- record is the answer; or it is refused: nothing is stored, and the answer is an error, with
    -- the invoker closed after it.
    pub client_login-cases :
        ((rec : ClientRec) × (get_client_rec srv codec s peer.terminal_id ≡ some rec)
          × Proves rec
          × (on_invoker_client_login srv codec s node_id peer request now ≡ accepted rec))
        ⊎ Refused (on_invoker_client_login srv codec s node_id peer request now)
    unfolding on_invoker_client_login
    client_login-cases = elim (Option-cases (get_client_rec srv codec s peer.terminal_id)) [
      | inl unknown ↦ inr (rw (unknown, on_invoker_client_login) (refl, refl, refl))
      | inr (rec, known) ↦ elim (check-cases rec) [
        | inl proves ↦ inl (rec, known, proves, login-known rec known proves)
        | inr bad ↦ inr (rw (known, on_invoker_client_login) bad)
      ]
    ]

    -- After a login whose request gives the identifier and the token of the terminal's record, the
    -- node finds for the terminal what its route has under the identifier of the invoker that
    -- logged in, whoever was online before.
    pub client_login-get_invoker :
        {Uni Bidi Invoker : Type 0} (u : CaseTable) (route : InvokeRoute Uni Bidi Invoker)
        (rec : ClientRec)
        → get_client_rec srv codec s peer.terminal_id ≡ some rec
        → Proves rec
        → get_invoker srv codec u route
            (on_invoker_client_login srv codec s node_id peer request now).etcd
            peer.terminal_id
          ≡ Route.get_invoker u route peer.invoker_id
    client_login-get_invoker u route rec known proves = rw (login-known rec known proves) (
        get_invoker-online u route _ peer.terminal_id (online_record srv codec node_id peer now)
          (online-put s peer.terminal_id (online_record srv codec node_id peer now)))

  -- A login over HTTP either is by a client that is not the empty one and whose record holds the
  -- token of the request, and then the answer is that client's claim, which runs out an hour later,
  -- signed with the stored signing key; or it is answered with an error and leaves the store as it
  -- was.
  pub http_login-cases :
      (sign : Claim → String → String) (s : State) (req : LoginRequest) (drawn : String) (now : ℕ)
      → ((rec : ClientRec) × (get_client_rec srv codec s req.client_id ≡ some rec)
          × (rec.token ≡ req.token)
          × (req.client_id ≢ "")
          × (http_login srv codec sign s (some req) drawn now ≡ (
            success_response (
                sign
                  (client_claim srv codec req.client_id now)
                  (get_jwt_sign_key srv codec s drawn).0),
            (get_jwt_sign_key srv codec s drawn).1,
          )))
        ⊎ (http_login srv codec sign s (some req) drawn now ≡ (err_response "当前客户端身份认证失败", s))
  unfolding http_login
  http_login-cases sign s req drawn now =
      elim (Option-cases (get_client_rec srv codec s req.client_id)) [
        | inl unknown ↦ inr (rw unknown (ground arith))
        | inr (rec, known) ↦
            elim (Bool-cases (not (req.client_id == "") && rec.token == req.token)) [
              | inl right ↦ inl (
                rec,
                known,
                (eq_iff rec.token req.token).0 (ground arith),
                ne_of_eq_false req.client_id "" (ground arith),
                rw (known, right),
              )
              | inr wrong ↦ inr (rw (known, wrong))
            ]
      ]
