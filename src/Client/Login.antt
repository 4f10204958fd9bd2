-- ===== src/Client/Login.antt =====
-- app/client/client.go: `OnNewClient` and `login`.
use zhangyu.Base.{
  String, Bool, true, false, Option, none, some, List, [], ◌∷◌, nat_eq, not, if◌then◌else◌,
}
use zhangyu.Utils.Json.{JsonText, get_json_string, get_json_value}
use zhangyu.Rpc.InvokePath.{client_login}
use zhangyu.Rpc.Models.{InvokeRequest, InvokeResponse, new_invoke_request, result_success}
use zhangyu.Rpc.Records.{ClientRec, LoginRequest}
use zhangyu.Rpc.Records.Clients.{client_rec_struct, no_client_rec}
use zhangyu.Rpc.Records.Requests.{login_request_struct}
use zhangyu.Client.{Client, Act, invokes, saves, exits}

module _ (codec : JsonText) where
  -- The request of `login`.
  unfoldable pub login_request : String → Client → InvokeRequest
  login_request uuid c =
      let login : LoginRequest = record {
        client_id = c.terminal_id;
        token = c.token;
        app_id = "";
        secret = "";
      } in
      record (new_invoke_request uuid client_login) { json_body = get_json_string codec login }

  -- The client with the tunnel of a response, if it has one.
  abbrev pub with_tunnel : Client → ClientRec × Bool → Client
  with_tunnel c (rec, true) = record c { tunnel_id = rec.tunnel_id; auth_code = rec.auth_code }
  with_tunnel c (rec, false) = c

  -- `login` from its response on; an error of `Invoke` is `none`. A refusal ends the program.
  unfoldable on_login_response : Client → Option InvokeResponse → Client × List Act
  on_login_response c none = (c, [])
  on_login_response c (some resp) =
      let c' = with_tunnel c (get_json_value codec no_client_rec resp.json_body) in
      if not (nat_eq resp.result_code result_success) then (c, exits ∷ []) else (c', saves c' ∷ [])

  -- `login`.
  unfoldable pub login :
      String → Client → (InvokeRequest → Option InvokeResponse) → Client × List Act
  unfolding login_request on_login_response
  login uuid c invoke =
      let (c', acts) = on_login_response c (invoke (login_request uuid c)) in
      (c', invokes (login_request uuid c) ∷ acts)

  -- `OnNewClient` before its login, and cli's `OnClientNew`, which hands it a record that is zero where
  -- the request does not decode.
  unfoldable pub set_client_rec : Client → ClientRec → Client
  set_client_rec c rec = record c {
    terminal_id = rec.client_id;
    token = rec.token;
    tunnel_id = rec.tunnel_id;
  }

  unfoldable pub on_client_new :
      String → Client → InvokeRequest → (InvokeRequest → Option InvokeResponse) → Client × List Act
  unfolding login set_client_rec
  on_client_new uuid c request invoke =
      login uuid (set_client_rec c (get_json_value codec no_client_rec request.json_body).0) invoke
