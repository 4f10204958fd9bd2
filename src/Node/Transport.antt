-- ===== src/Node/Transport.antt =====
-- app/node/node.go, `getTransport`: the transport that serves an HTTP visitor of a tunnel. The wait for
-- the target's connection splits it in two, since other handlers run meanwhile.
pub mod Laws
use zhangyu.Base.{
  String, Bool, true, false, Option, none, some, List, [], ◌∷◌, ◌++◌, ℕ, length, get_elem?,
  if◌then◌else◌,
}
use zhangyu.Base.Strings.{join}
use zhangyu.Base.Text.{CaseTable}
use zhangyu.Utils.Json.{JsonText, get_json_string}
use zhangyu.Utils.Cache
use zhangyu.Etcd.Server.{Server}
use zhangyu.Rpc.InvokePath.{transfer_target_out}
use zhangyu.Rpc.Models.{InvokeRequest, new_invoke_request}
use zhangyu.Rpc.Records.{Listen}
use zhangyu.Rpc.Records.Listens.{listen_struct}
use zhangyu.Rpc.Route.{InvokeRoute}
use zhangyu.Node.Peers.{Peer, HttpTransport, Node, Effect, writes, closes, get_invoker, invoker_of}

-- What comes of asking for a transport: one that is there, an error, or a target that was asked.
pub data Asked (srv : Server) : Type 0 where
  found : ℕ → Node srv → Asked srv
  unreached : String → List Effect → Asked srv
  asked : List Effect → Asked srv

-- The first half: a transport that is there, an error, or a new transport to wait for.
pub data Begun (srv : Server) : Type 0 where
  reuses : ℕ → Node srv → Begun srv
  fails : String → Node srv → List Effect → Begun srv
  waits_for : ℕ → Node srv → List Effect → Begun srv

-- The second half: the transport with the invoker that serves it, or an error.
pub data Ended (srv : Server) : Type 0 where
  serves : ℕ → Peer → Node srv → Ended srv
  gives_up : String → Node srv → Ended srv

-- The key of a visitor's transport.
abbrev pub transport_key : Listen → String → String
transport_key listen remote_addr = join listen.target_tunnel_id (join "|" remote_addr)

abbrev offline_message : Listen → String
offline_message listen = join "目标客户端[TunnelId:" (join listen.target_tunnel_id "]不在线，转发失败")

abbrev pub lost_message : Listen → String
lost_message listen = join "转发到目标客户端[TunnelId:" (join listen.target_tunnel_id "]遇到未知错误，转发失败")

module _ (srv : Server) (codec : JsonText) (u : CaseTable) where
  -- The request that asks the target to connect.
  abbrev pub transport_request : String → Listen → String → InvokeRequest
  transport_request uuid listen remote_addr = record (new_invoke_request uuid transfer_target_out) {
    header = ("HttpTransKey", transport_key listen remote_addr) ∷ [];
    json_body = get_json_string codec listen;
  }

  -- A new transport under its key, for twenty seconds.
  abbrev pub add_transport : Node srv → String → Node srv
  add_transport n key = record n {
    transports = (Cache.set_expire u (Cache.set_item u n.transports key (length n.made)) key 20).0;
    made = n.made ++ record { key = key; invoker = none } ∷ [];
  }

  -- The target is asked, unless it is offline or the write fails.
  abbrev ask_target : Listen → String → Bool → String → Option Peer → Asked srv
  ask_target listen remote_addr written uuid none = unreached (offline_message listen) []
  ask_target listen remote_addr false uuid (some target) =
      unreached (offline_message listen)
        (writes target (transport_request uuid listen remote_addr) ∷ closes target ∷ [])
  ask_target listen remote_addr true uuid (some target) =
      asked (writes target (transport_request uuid listen remote_addr) ∷ [])

  -- `getTransport` up to its write.
  unfoldable pub ask_transport :
      {Uni Bidi : Type 0}
      → InvokeRoute Uni Bidi Peer
      → Node srv
      → Listen
      → String
      → Bool
      → String
      → Asked srv
  ask_transport route n listen remote_addr written uuid =
      elim (Cache.get u n.transports (transport_key listen remote_addr)) [
        | some p ↦ found p (record n {
          transports = (Cache.set_expire u n.transports (transport_key listen remote_addr) 20).0;
        })
        | none ↦
            ask_target listen remote_addr written uuid
              (get_invoker srv codec u route n.etcd listen.target_client_id)
      ]

  -- From the write to the wait, in the node as other handlers have left it since the write.
  abbrev pub enter_transport : Node srv → Listen → String → Asked srv → Begun srv
  enter_transport n listen remote_addr (found p n') = reuses p n'
  enter_transport n listen remote_addr (unreached message effects) = fails message n effects
  enter_transport n listen remote_addr (asked effects) =
      waits_for (length n.made) (add_transport n (transport_key listen remote_addr)) effects

  -- `getTransport` up to its wait, where no other handler runs between its write and its `Set`.
  unfoldable pub begin_transport :
      {Uni Bidi : Type 0}
      → InvokeRoute Uni Bidi Peer
      → Node srv
      → Listen
      → String
      → Bool
      → String
      → Begun srv
  unfolding ask_transport
  begin_transport route n listen remote_addr written uuid =
      enter_transport n listen remote_addr (ask_transport route n listen remote_addr written uuid)

  -- And from its wait on, for an invoker that has its `Conn` attached.
  unfoldable pub end_transport : Node srv → ℕ → Listen → String → Ended srv
  end_transport n p listen remote_addr = elim (invoker_of n.made (some p)) [
    | none ↦
        gives_up (lost_message listen)
          (record n { transports = Cache.delete n.transports (transport_key listen remote_addr) })
    | some peer ↦ serves p peer n
  ]
