-- ===== src/System/Visit.antt =====
-- app/node/node.go, `httpHandler_ListenAdd` and `OnHttpRoot`: a visitor of a domain that was listened for.
use zhangyu.Base.{String, ◌≡◌, ◌≢◌, ap, ◌∙◌, Bool, true, Option, none, some, returns}
use zhangyu.Base.Strings.{join}
use zhangyu.Base.Text.{CaseTable}
use zhangyu.Utils.Json.{JsonText}
use zhangyu.Etcd.Server.{Server}
use zhangyu.Etcd.Store.{get_domain_info}
use zhangyu.Etcd.Listens.{Url, is_http}
use zhangyu.Etcd.Listens.Laws.{get_domain_info-with_listen}
use zhangyu.Rpc.Records.{ListenRequest}
use zhangyu.Rpc.Route.{InvokeRoute}
use zhangyu.Node.Login.{success_response}
use zhangyu.Node.Peers.{Peer, Node}
use zhangyu.Node.Token.{Jwt}
use zhangyu.Node.ListenAdd.{answered, address, listen_refusal, listen_address, http_listen_add}
use zhangyu.Node.Transport.{begin_transport}
use zhangyu.Node.HttpRoot.{transports_for, transport_for, begin_root}
use zhangyu.Node.Routes.{HttpContext}
use zhangyu.Node.Routes.Laws.{listen_of, listen_store, listen_effects, listen_answered}

module _ (srv : Server) (codec : JsonText) (jwt : Jwt codec) (u : CaseTable) {Uni Bidi : Type 0}
    (route : InvokeRoute Uni Bidi Peer) (parse : String → Option Url) where
  open srv use {State}

  root-known :
      (n : Node srv) (host remote_addr : String) (written : Bool) (uuid : String) (visited : Url)
      (s : State) (req : ListenRequest) (ctx : HttpContext) (url : Url) (client_id : String)
      → parse (join "https://" host) ≡ some visited
      → n.etcd ≡ listen_store srv codec jwt u route parse ctx s req url client_id visited.hostname
      → is_http url.scheme ≡ true
      → begin_root srv codec u parse route n host remote_addr written uuid
        ≡ returns (
            transports_for
              (listen_of srv codec jwt u route parse ctx s req client_id visited.hostname)
              (begin_transport srv codec u route n
                (listen_of srv codec jwt u route parse ctx s req client_id visited.hostname)
                remote_addr
                written
                uuid))
  unfolding begin_root
  root-known n host remote_addr written uuid visited s req ctx url client_id goes left web =
      rw (goes, begin_root)
        (ap (λ o. returns (transport_for srv codec u parse route n remote_addr written uuid o))
          (ap (λ t. get_domain_info srv codec t visited.hostname) left
            ∙ get_domain_info-with_listen srv codec parse s req.target_tunnel_id client_id
                visited.hostname req.target_addr ctx.now url web))

  -- If a request to listen passes the checks of `httpHandler_ListenAdd` and is given the host name
  -- that a visitor's host parses to as its address, and its target address is not empty and parses
  -- to an HTTP URL, it is answered with the listen; and at a node on the store that the request
  -- left, that visitor is led to this very listen, for which a transport is begun.
  pub visitor_finds_listen :
      (ctx : HttpContext) (s s' : State) (req : ListenRequest) (url visited : Url)
      (client_id host remote_addr : String) (n : Node srv) (written : Bool) (uuid : String)
      → listen_refusal srv codec s req client_id ≡ none
      → listen_address srv codec parse ctx.domain ctx.draws s req ≡ address visited.hostname s'
      → parse req.target_addr ≡ some url
      → req.target_addr ≢ ""
      → is_http url.scheme ≡ true
      → parse (join "https://" host) ≡ some visited
      → n.etcd ≡ listen_store srv codec jwt u route parse ctx s' req url client_id visited.hostname
      → (http_listen_add srv codec u route parse s
            (some req)
            client_id
            ctx.domain
            ctx.draws
            ctx.written
            ctx.uuid
            ctx.now
          ≡ answered
              (success_response
                (listen_of srv codec jwt u route parse ctx s' req client_id visited.hostname))
              n.etcd
              (listen_effects srv codec jwt u route parse ctx s' req url client_id
                visited.hostname))
        × (begin_root srv codec u parse route n host remote_addr written uuid
            ≡ returns (
                transports_for
                  (listen_of srv codec jwt u route parse ctx s' req client_id visited.hostname)
                  (begin_transport srv codec u route n
                    (listen_of srv codec jwt u route parse ctx s' req client_id visited.hostname)
                    remote_addr
                    written
                    uuid)))
  visitor_finds_listen ctx s s' req url visited client_id host remote_addr n written uuid fine
        chosen parsed some_target web goes left =
      (
        rw left (
            listen_answered srv codec jwt u route parse ctx s s' req url client_id visited.hostname
              fine chosen parsed some_target),
        root-known n host remote_addr written uuid visited s' req ctx url client_id goes left web,
      )
