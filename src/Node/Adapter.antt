-- ===== src/Node/Adapter.antt =====
-- app/node/node.go: a node as the `ServerAdapter` of its QUIC server.
pub mod Laws
use zhangyu.Base.{ℕ, String, Option, none, some, List}
use zhangyu.Base.Text.{CaseTable}
use zhangyu.Utils.Json.{JsonText}
use zhangyu.Etcd.Server.{Server}
use zhangyu.Etcd.Register.{generate_new_client}
use zhangyu.Rpc.Records.{ClientRec}
use zhangyu.Rpc.Route.{InvokeRoute}
use zhangyu.Node.Peers.{Peer, Node, get_invoker, on_close_client}
use zhangyu.Quic.Server.{Adapter}

-- What a registration draws: an identifier, a token, a code and numbers, and the time.
pub record Draws : Type 0 where
  pub uuid : String
  pub token : String
  pub auth_code : String
  pub numbers : List ℕ
  pub now : ℕ

module _ (srv : Server) (codec : JsonText) (u : CaseTable) where
  -- `OnNewClientRec`.
  unfoldable pub on_new_client_rec : Draws → Node srv → Option (ClientRec × Node srv)
  on_new_client_rec d n =
      elim (generate_new_client srv codec n.etcd d.uuid d.token d.auth_code d.numbers d.now) [
        | none ↦ none
        | some (rec, s) ↦ some (rec, record n { etcd = s })
      ]

  -- The node behind its server, whose route it reads.
  abbrev pub node_adapter :
      {Uni Bidi : Type 0} → InvokeRoute Uni Bidi Peer → Draws → Adapter (Node srv)
  node_adapter route d = record {
    get_invoker = λ n terminal_id. get_invoker srv codec u route n.etcd terminal_id;
    on_new_client_rec = on_new_client_rec d;
    on_close_client = λ n peer. on_close_client srv codec u n peer;
  }
