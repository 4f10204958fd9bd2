-- ===== src/Node/HttpRoot/Laws.antt =====
-- app/node/node.go: theorems about `OnHttpRoot`.
use zhangyu.Base.{String, Option}
use zhangyu.Base.Text.{CaseTable}
use zhangyu.Utils.Cache
use zhangyu.Utils.Json.{JsonText}
use zhangyu.Etcd.Server.{Server}
use zhangyu.Etcd.Listens.{Url}
use zhangyu.Rpc.Records.{Listen}
use zhangyu.Rpc.Route.{InvokeRoute}
use zhangyu.Node.Peers.{Peer, Node}
use zhangyu.Node.Transport.{transport_key}

module _ (srv : Server) (codec : JsonText) (u : CaseTable) (parse : String → Option Url) where
  -- A node without the transport of a visitor.
  abbrev pub dropped : Node srv → String → Node srv
  dropped n key = record n { transports = Cache.delete n.transports key }

  module _ {Uni Bidi : Type 0} (route : InvokeRoute Uni Bidi Peer) (n : Node srv) (listen : Listen)
      (remote_addr : String) where
    abbrev pub key : String
    key = transport_key listen remote_addr
