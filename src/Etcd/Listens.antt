-- ===== src/Etcd/Listens.antt =====
-- app/node/etcd/etcd.go: what clients listen for, and the domains that lead to it.
pub mod Laws
use zhangyu.Base.{
  ℕ, String, Bool, true, false, Option, none, some, List, [], ◌∷◌, ◌==◌, ◌||◌, if◌then◌else◌,
}
use zhangyu.Utils.Json.{JsonText, get_json_value}
use zhangyu.Etcd.Server.{Server}
use zhangyu.Etcd.Keys.{listen_key, domain_name_key}
use zhangyu.Etcd.Store.{put_value, get_client_rec, get_tunnel}
use zhangyu.Rpc.Records.{ClientRec, Tunnel, Listen}
use zhangyu.Rpc.Records.Listens.{listen_struct, no_listen}

-- The fields of a `url.URL` that the program reads; its `Hostname` and `Port` go by the host.
pub record Url : Type 0 where
  pub scheme : String
  pub host : String
  pub hostname : String
  pub port : String

-- `url.Parse`: nil with an error is `none`.
abbrev UrlParser : Type 0
UrlParser = String → Option Url

abbrev pub is_http : String → Bool
is_http scheme = scheme == "http" || scheme == "https"

abbrev tunnel_id_or_empty : Option ClientRec → String
tunnel_id_or_empty none = ""
tunnel_id_or_empty (some rec) = rec.tunnel_id

abbrev terminal_id_or_empty : Option Tunnel → String
terminal_id_or_empty none = ""
terminal_id_or_empty (some tunnel) = tunnel.terminal_id

module _ (srv : Server) (codec : JsonText) where
  open srv use {State, range}

  -- The record that `AddListenWithTunnel` makes.
  unfoldable pub listen_record : State → String → String → String → String → ℕ → Listen
  listen_record s target_tunnel_id listen_client_id listen_addr target_addr now = record {
    listen_client_id = listen_client_id;
    listen_tunnel_id = tunnel_id_or_empty (get_client_rec srv codec s listen_client_id);
    target_client_id = terminal_id_or_empty (get_tunnel srv codec s target_tunnel_id);
    target_tunnel_id = target_tunnel_id;
    listen_addr = listen_addr;
    target_addr = target_addr;
    create_time = now;
  }

  -- `AddListenWithTunnel`, for a target address that parses if it is not empty: the record under the
  -- listening client, and for HTTP also under the name of the domain.
  unfoldable pub add_listen_with_tunnel :
      (String → Option Url)
      → State
      → String
      → String
      → String
      → String
      → ℕ
      → Option (Listen × State)
  add_listen_with_tunnel parse s target_tunnel_id listen_client_id listen_addr target_addr now =
      let listen = listen_record s target_tunnel_id listen_client_id listen_addr target_addr now in
      let s' = put_value srv codec s (listen_key listen_client_id listen_addr) listen in
      if target_addr == "" then some (listen, s') else elim (parse target_addr) [
        | none ↦ none
        | some url ↦ some (
          listen,
          if is_http url.scheme
              then put_value srv codec s' (domain_name_key listen_addr) listen
              else s',
        )
      ]

  -- The values that parse, as records.
  unfoldable pub listens_of : List (String × String) → List Listen
  listens_of [] = []
  listens_of ((key, text) ∷ rest) =
      let (listen, fine) = get_json_value codec no_listen text in
      let more = listens_of rest in if fine then listen ∷ more else more

  -- `GetTransferList`.
  unfoldable pub get_transfer_list : State → String → List Listen
  unfolding listens_of
  get_transfer_list s client_id = listens_of (range s (listen_key client_id ""))
