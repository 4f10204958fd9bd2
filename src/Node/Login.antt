-- ===== src/Node/Login.antt =====
-- app/node/node.go, `onInvokerClientLogin` and `httpHandler_Login`: the two logins of a client.
pub mod Laws
use zhangyu.Base.{
  ℕ, ◌+◌, String, Bool, true, false, Option, none, some, ◌&&◌, ◌||◌, ◌==◌, not, if◌then◌else◌,
}
use zhangyu.Base.Strings.{join}
use zhangyu.Utils.Json.{JsonText, get_json_string, get_json_value}
use zhangyu.Etcd.Server.{Server}
use zhangyu.Etcd.Store.{get_client_rec, put_online_client, get_jwt_sign_key}
use zhangyu.Rpc.Models.{InvokeRequest, InvokeResponse, new_success_response, new_error_response}
use zhangyu.Rpc.Records.{ClientRec, OnlineClient, LoginRequest}
use zhangyu.Rpc.Records.Clients.{client_rec_struct, online_client_struct}
use zhangyu.Rpc.Records.Requests.{login_request_struct, no_login_request}
use zhangyu.Node.Peers.{Peer}

-- `app.Claim`, with the fields of its `jwt.StandardClaims` that the node sets.
pub record Claim : Type 0 where
  pub login_type : ℕ
  pub client_id : String
  pub expires_at : ℕ
  pub id : String
  pub issuer : String
  pub subject : String

-- What an HTTP handler answers: `SuccessResponse`, `ErrResponse`, or the error of `Bind`.
pub data Reply {ℓ} (A : Type ℓ) : Type ℓ where
  success_response : A → Reply A
  err_response : String → Reply A
  bind_error : Reply A

-- What a login over an invoker leaves: the store, the response, and whether the invoker is closed
-- shortly after.
pub record Outcome (srv : Server) : Type 0 where
  pub etcd : srv.State
  pub response : InvokeResponse
  pub closed_later : Bool

abbrev no_client_message : String → String
no_client_message terminal_id = join "客户端登录失败,TerminalId[" (join terminal_id "]无效")

abbrev bad_request_message : String
bad_request_message = "客户端登录失败,客户登录信息无效"

abbrev bad_token_message : String
bad_token_message = "客户端登录失败,客户端身份认证失败"

module _ (srv : Server) (codec : JsonText) where
  open srv use {State}

  abbrev pub refused : State → InvokeRequest → String → Outcome srv
  refused s request message = record {
    etcd = s;
    response = new_error_response request.request_id message;
    closed_later = true;
  }

  -- The online record of an invoker.
  abbrev pub online_record : String → Peer → ℕ → OnlineClient
  online_record node_id peer now = record {
    node_id = node_id;
    client_id = peer.terminal_id;
    invoker_id = peer.invoker_id;
    connect_time = now;
    remote_addr = peer.remote_addr;
    client_ip = peer.client_ip;
    send_bytes = 0;
    receive_bytes = 0;
  }

  -- A login request against the record of the invoker's client.
  unfoldable pub check_login : State → String → Peer → InvokeRequest → ℕ → ClientRec → Outcome srv
  check_login s node_id peer request now rec =
      let (login, fine) = get_json_value codec no_login_request request.json_body in
      if not fine
      then refused s request bad_request_message
      else if not (login.client_id == rec.client_id) || not (login.token == rec.token)
      then refused s request bad_token_message
      else record {
        etcd = put_online_client srv codec s peer.terminal_id (online_record node_id peer now);
        response = record (new_success_response request.request_id "") {
          json_body = get_json_string codec rec;
        };
        closed_later = false;
      }

  -- `onInvokerClientLogin`.
  unfoldable pub on_invoker_client_login : State → String → Peer → InvokeRequest → ℕ → Outcome srv
  unfolding check_login
  on_invoker_client_login s node_id peer request now =
      elim (get_client_rec srv codec s peer.terminal_id) [
        | none ↦ refused s request (no_client_message peer.terminal_id)
        | some rec ↦ check_login s node_id peer request now rec
      ]

  -- The claim of a client that has logged in over HTTP; its times are in seconds.
  abbrev pub client_claim : String → ℕ → Claim
  client_claim client_id now = record {
    login_type = 2;
    client_id = client_id;
    expires_at = now + 3600;
    id = client_id;
    issuer = "Zhangyu Node";
    subject = "Client Login";
  }

  -- Whether a client's record holds the token.
  abbrev token_matches : Option ClientRec → String → Bool
  token_matches none token = false
  token_matches (some rec) token = rec.token == token

  -- `httpHandler_Login`, with what `Bind` gives, the signing of `golang-jwt`, and the signing key that
  -- is drawn if there is none.
  unfoldable pub http_login :
      (Claim → String → String) → State → Option LoginRequest → String → ℕ → Reply String × State
  http_login sign s none drawn now = (bind_error, s)
  http_login sign s (some req) drawn now =
      if not (req.client_id == "")
        && token_matches (get_client_rec srv codec s req.client_id) req.token
      then (
        success_response
            (sign (client_claim req.client_id now) (get_jwt_sign_key srv codec s drawn).0),
        (get_jwt_sign_key srv codec s drawn).1,
      )
      else (err_response "当前客户端身份认证失败", s)
