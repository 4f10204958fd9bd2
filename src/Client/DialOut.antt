-- ===== src/Client/DialOut.antt =====
-- app/client/client.go: `onInvoker_DialOut` and `onInvoker_Kick`.
use zhangyu.Base.{
  String, Bool, Option, none, some, List, [], ◌∷◌, ◌++◌, ◌==◌, ◌&&◌, Run, returns, panics,
  if◌then◌else◌,
}
use zhangyu.Base.Strings.{join}
use zhangyu.Utils.Json.{JsonText, get_json_value}
use zhangyu.Etcd.Listens.{Url, is_http}
use zhangyu.Rpc.InvokePath.{transfer_go}
use zhangyu.Rpc.Models.{InvokeRequest}
use zhangyu.Rpc.Records.Listens.{listen_struct, no_listen}
use zhangyu.Client.{Act, writes, closes, exits, dials, serves_socks, copies}

-- `onInvoker_Kick`.
abbrev on_invoker_kick : List Act
on_invoker_kick = closes ∷ exits ∷ []

-- The scheme of a listen: the target's where the listening address has none.
abbrev raw_scheme : Url → Url → String
raw_scheme listen_url target_url =
    if listen_url.scheme == "" then target_url.scheme else listen_url.scheme

-- The port that is added for a scheme.
abbrev default_port : String → String
default_port scheme = if scheme == "http" then ":80" else if scheme == "https" then ":443" else ""

-- The address that is dialed: it is the port of the listening address that decides.
unfoldable pub dial_host : Url → Url → String
dial_host listen_url target_url =
    if is_http (raw_scheme listen_url target_url) && listen_url.port == ""
    then join target_url.host (default_port (raw_scheme listen_url target_url))
    else target_url.host

-- The scheme that is dialed.
unfoldable pub dial_scheme : Url → Url → String
dial_scheme listen_url target_url =
    if is_http (raw_scheme listen_url target_url) then "tcp" else raw_scheme listen_url target_url

-- The connection to the target: where a dial fails the invoker is closed, and copied all the same.
abbrev dial_and_copy : String → String → Bool → List Act
dial_and_copy network host dialed =
    dials network host ∷ (if dialed then [] else closes ∷ []) ++ copies ∷ []

unfoldable pub connect_target : String → String → Bool → List Act
connect_target scheme host dialed =
    if scheme == "socks5"
    then serves_socks ∷ []
    else if scheme == "tcp"
    then dial_and_copy "tcp" host dialed
    else if scheme == "udp"
    then dial_and_copy "udp" host dialed
    else []

-- The request that goes back to the node.
abbrev pub go_request : InvokeRequest → InvokeRequest
go_request request = record request { path = transfer_go; json_body = "" }

module _ (codec : JsonText) (parse : String → Option Url) where
  unfoldable pub go_out : InvokeRequest → Url → Url → Bool → Bool → List Act
  unfolding connect_target dial_host dial_scheme
  go_out request listen_url target_url written dialed =
      writes (go_request request)
      ∷ (if written
          then connect_target (dial_scheme listen_url target_url) (dial_host listen_url target_url)
              dialed
          else closes ∷ [])

  -- `onInvoker_DialOut` once the node is dialed, with whether the write and the dial succeed.
  unfoldable pub on_invoker_dial_out : InvokeRequest → Bool → Bool → Run (List Act)
  unfolding go_out
  on_invoker_dial_out request written dialed =
      let (listen, fine) = get_json_value codec no_listen request.json_body in
      let out : Run (List Act) = elim (parse listen.listen_addr) [
        | none ↦ panics
        | some listen_url ↦ elim (parse listen.target_addr) [
          | none ↦ panics
          | some target_url ↦ returns (go_out request listen_url target_url written dialed)
        ]
      ] in
      if fine then out else returns (closes ∷ [])
