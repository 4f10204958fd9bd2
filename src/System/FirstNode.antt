-- ===== src/System/FirstNode.antt =====
-- app/node/node.go, `NewNode` and `httpHandler_ListenAdd`: listens at a node that runs on its defaults.
use zhangyu.Base.{
  ℕ, String, ◌≡◌, ◌≢◌, refl, ap, ◌∙◌, Bool, true, Option, none, some, List, [], arith, eq_false,
}
use zhangyu.Base.Dict
use zhangyu.Base.Strings.{join, has_suffix}
use zhangyu.Base.Text.{CaseTable}
use zhangyu.Utils.Json.{JsonText}
use zhangyu.Utils.Settings.{Disk, IndentedText}
use zhangyu.Etcd.Server.{Server}
use zhangyu.Etcd.Listens.{Url, is_http}
use zhangyu.Rpc.Records.{ListenRequest}
use zhangyu.Rpc.Route.{InvokeRoute}
use zhangyu.Node.Login.{err_response}
use zhangyu.Node.Peers.{Peer}
use zhangyu.Node.ListenAdd.{
  answered, refused, listen_host, listen_refusal, listen_address, answer_address, http_listen_add,
}
use zhangyu.Node.Setup.{start_node}
use zhangyu.Node.Setup.Laws.{start_node_first}

has_suffix_empty : (s : String) → has_suffix s "" ≡ true
unfolding has_suffix
has_suffix_empty String.[] = refl
has_suffix_empty (String.◌∷◌ c s) = ground (arith, has_suffix_empty s)

module _ (srv : Server) (codec : JsonText) (u : CaseTable) {Uni Bidi : Type 0}
    (route : InvokeRoute Uni Bidi Peer) where
  open srv use {State}

  -- The refusal of a name below the node's domain.
  abbrev pub domain_message : String → String
  domain_message host = join "添加http/https流量转发失败,不能指定域名[" (join host "]")

  own_name_address :
      (parse : String → Option Url) (s : State) (req : ListenRequest) (target : Url) (host : String)
      (draws : List ℕ)
      → req.target_addr ≢ ""
      → parse req.target_addr ≡ some target
      → is_http target.scheme ≡ true
      → listen_host parse req.listen_addr ≡ some host
      → host ≢ ""
      → listen_address srv codec parse "" draws s req ≡ refused (domain_message host)
  unfolding listen_address
  own_name_address parse s req target host draws some_target parsed web named some_host =
      rw (eq_false req.target_addr "" some_target, listen_address)
        (rw (parsed, named, web, eq_false host "" some_host, has_suffix_empty host) refl)

  -- A node that starts without a settings file refuses each request to listen for an HTTP target
  -- under a host name of the client's own, although the request passes the checks of its client,
  -- tunnel and code and its addresses parse.
  pub default_domain_refuses :
      (text : IndentedText) (windows : Bool) (disk : Disk) (terminal_id : String)
      (parse : String → Option Url) (s : State) (req : ListenRequest) (target : Url)
      (client_id host : String) (draws : List ℕ) (written : Bool) (uuid : String) (now : ℕ)
      → Dict.lookup "node.json" disk.files ≡ none
      → listen_refusal srv codec s req client_id ≡ none
      → req.target_addr ≢ ""
      → parse req.target_addr ≡ some target
      → is_http target.scheme ≡ true
      → listen_host parse req.listen_addr ≡ some host
      → host ≢ ""
      → http_listen_add srv codec u route parse s
          (some req)
          client_id
          (start_node text windows disk terminal_id).0.domain
          draws
          written
          uuid
          now
        ≡ answered (err_response (domain_message host)) s []
  unfolding http_listen_add answer_address
  default_domain_refuses text windows disk terminal_id parse s req target client_id host draws
        written uuid now absent fine some_target parsed web named some_host =
      rw (start_node_first text windows disk terminal_id absent) (
        rw (fine, http_listen_add)
          (ap (answer_address srv codec u route parse s written uuid now req client_id) (
              own_name_address parse s req target host draws some_target parsed web named some_host)
            ∙ refl))
