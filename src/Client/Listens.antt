-- ===== src/Client/Listens.antt =====
-- app/client/client.go: `AddListen`, `TcpListen`, `OnConnected` and `onInvoker_ListenAdd`.
use zhangyu.Base.{
  String, Bool, true, false, Option, none, some, List, [], ◌∷◌, ◌++◌, ◌==◌, ◌||◌, ◌&&◌, not, Run,
  returns, panics, ◌>>=◌, if◌then◌else◌,
}
use zhangyu.Utils.Json.{JsonText, get_json_string, get_json_value}
use zhangyu.Utils.Json.Arrays.{get_json_list}
use zhangyu.Etcd.Listens.{Url}
use zhangyu.Rpc.InvokePath.{transfer_listen_in, client_transfer_list}
use zhangyu.Rpc.Models.{InvokeRequest, InvokeResponse, new_invoke_request}
use zhangyu.Rpc.Records.{Listen}
use zhangyu.Rpc.Records.Listens.{listen_struct, no_listen}
use zhangyu.Client.{Client, Act, invokes, writes, closes, copies, exits, opens_listener}
use zhangyu.Client.Login.{login}

-- Whether the program has ended.
abbrev exited : List Act → Bool
exited [] = false
exited (exits ∷ acts) = true
exited (_ ∷ acts) = exited acts

module _ (codec : JsonText) (parse : String → Option Url) where
  -- `TcpListen`: the listener is opened on the host of the address.
  unfoldable pub tcp_listen : Listen → Run (List Act)
  tcp_listen listen = elim (parse listen.listen_addr) [
    | none ↦ panics
    | some url ↦ returns (opens_listener url.host listen ∷ [])
  ]

  -- The request that follows a connection to the listener.
  abbrev pub listen_in_request : String → Listen → InvokeRequest
  listen_in_request uuid listen = record (new_invoke_request uuid transfer_listen_in) {
    json_body = get_json_string codec listen;
  }

  -- What happens to a connection to the listener once the node is dialed, by whether the write succeeds.
  unfoldable on_accept : String → Listen → Bool → List Act
  on_accept uuid listen written =
      writes (listen_in_request uuid listen) ∷ (if written then [] else closes ∷ []) ++ copies ∷ []

  -- `AddListen`: HTTP is served by the node, and a SOCKS listener is a TCP listener.
  unfoldable pub add_listen : Listen → Run (List Act)
  unfolding tcp_listen
  add_listen listen = elim (parse listen.listen_addr) [
    | none ↦ panics
    | some url ↦
        if url.scheme == "" || url.scheme == "http" || url.scheme == "https"
        then returns []
        else if url.scheme == "socks5" || url.scheme == "tcp"
        then tcp_listen listen
        else returns []
  ]

  -- All listens of a list, each in a goroutine of its own.
  unfoldable pub add_listens : List Listen → Run (List Act)
  unfolding add_listen
  add_listens [] = returns []
  add_listens (listen ∷ listens) = do
    acts ← add_listen listen
    more ← add_listens listens
    returns (acts ++ more)

  -- The answer to the request for the list: no answer is a nil pointer.
  unfoldable pub on_transfer_list : Option InvokeResponse → Run (List Act)
  unfolding add_listens
  on_transfer_list none = panics
  on_transfer_list (some resp) =
      let (listens, fine) = get_json_list codec {A = Listen} resp.json_body in
      if fine then add_listens listens else returns []

  -- `OnConnected`: a client that is known logs in, and opens its listeners once.
  unfoldable on_connected :
      String → String → Client → (InvokeRequest → Option InvokeResponse) → Run (Client × List Act)
  unfolding on_transfer_list
  on_connected uuid uuid' c invoke =
      let (c', acts) = login codec uuid c invoke in
      let request = new_invoke_request uuid' client_transfer_list in
      if not (c.token == "") && not (c.terminal_id == "")
      then (if c.listen_started
          then returns (c', acts)
          else if exited acts
          then returns (c', acts)
          else do
            more ← on_transfer_list (invoke request)
            returns (record c' { listen_started = true }, acts ++ invokes request ∷ more))
      else returns (c, [])

  -- `onInvoker_ListenAdd`.
  unfoldable pub on_invoker_listen_add : InvokeRequest → Run (List Act)
  unfolding add_listen
  on_invoker_listen_add request =
      let (listen, fine) = get_json_value codec no_listen request.json_body in
      if fine then add_listen listen else returns []
