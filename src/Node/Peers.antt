-- ===== src/Node/Peers.antt =====
-- app/node/node.go, app/node/transport.go: a node's state, the invoker of a client, and its close. An
-- HTTP transport is a pointer, an index into the transports that were made.
pub mod Laws
use zhangyu.Base.{
  ℕ, String, Bool, Option, none, some, List, [], ◌∷◌, ◌++◌, get_elem?, ◌&&◌, ◌==◌, if◌then◌else◌,
}
use zhangyu.Base.Text.{CaseTable}
use zhangyu.Utils.Json.{JsonText}
use zhangyu.Utils.Cache.{Cache}
use zhangyu.Utils.Cache
use zhangyu.Etcd.Server.{Server}
use zhangyu.Etcd.Store.{get_online_client, delete_online_client}
use zhangyu.Rpc.Models.{InvokeRequest}
use zhangyu.Rpc.Route.{InvokeRoute}
use zhangyu.Rpc.Route
use zhangyu.Rpc.Records.{OnlineClient}

-- What the handlers read of an invoker; the attached `HttpTransKey` is `none` where it is not set.
pub record Peer : Type 0 where
  pub terminal_id : String
  pub invoker_id : String
  pub remote_addr : String
  pub client_ip : String
  pub is_command_tunnel : Bool
  pub http_trans_key : Option String

-- `httpTransport`, without its channel.
pub record HttpTransport : Type 0 where
  pub key : String
  pub invoker : Option Peer

-- Whose context a call runs under.
pub data ContextOf {ℓ} (Invoker : Type ℓ) : Type ℓ where
  of_invoker : Invoker → ContextOf Invoker
  of_route : ContextOf Invoker

-- What a handler does to other invokers and to a waiting HTTP request, in order.
pub data Effect : Type 0 where
  writes : Peer → InvokeRequest → Effect
  closes : Peer → Effect
  copies : Peer → Peer → Effect
  signals : ℕ → Effect

-- The state of a `Node` that its handlers change, beside the route.
pub record Node (srv : Server) : Type 0 where
  pub etcd : srv.State
  pub transports : Cache ℕ
  pub made : List HttpTransport

abbrev pub invoker_of : List HttpTransport → Option ℕ → Option Peer
invoker_of made none = none
invoker_of made (some p) = elim (get_elem? made p) [ none ↦ none | some t ↦ t.invoker ]

abbrev close_if : Option Peer → List Effect
close_if none = []
close_if (some peer) = closes peer ∷ []

module _ (srv : Server) (codec : JsonText) (u : CaseTable) where
  -- `GetInvoker`: the invoker that the online record of a terminal names, if it is on this route.
  unfoldable pub get_invoker {ℓ} :
      {Uni Bidi Invoker : Type ℓ}
      → InvokeRoute Uni Bidi Invoker
      → srv.State
      → String
      → Option Invoker
  get_invoker route s terminal_id = elim (get_online_client srv codec s terminal_id) [
    | none ↦ none
    | some online ↦ Route.get_invoker u route online.invoker_id
  ]

  -- `GetContext`: the context of the terminal's invoker, or else that of the route.
  unfoldable pub get_context {ℓ} :
      {Uni Bidi Invoker : Type ℓ}
      → InvokeRoute Uni Bidi Invoker
      → srv.State
      → String
      → ContextOf Invoker
  unfolding get_invoker
  get_context route s terminal_id = elim (get_invoker route s terminal_id) [
    | none ↦ of_route
    | some invoker ↦ of_invoker invoker
  ]

  -- A delete from the cache of transports: its delete handler first closes the invoker of the transport.
  abbrev pub delete_transport : Node srv → String → Node srv × List Effect
  delete_transport n key = (
    record n { transports = Cache.delete n.transports key },
    close_if (invoker_of n.made (Cache.get u n.transports key)),
  )

  -- The first half of `OnCloseClient`: the transport that the invoker serves is closed and forgotten.
  unfoldable pub close_transport : Node srv → Option String → Node srv × List Effect
  close_transport n none = (n, [])
  close_transport n (some key) = (
    (delete_transport n key).0,
    close_if (invoker_of n.made (Cache.get u n.transports key)) ++ (delete_transport n key).1,
  )

  -- Its second half: the online record goes, if it still names this very invoker.
  unfoldable pub close_online : srv.State → Peer → srv.State
  close_online s peer = elim (get_online_client srv codec s peer.terminal_id) [
    | none ↦ s
    | some online ↦
        if online.invoker_id == peer.invoker_id
        then delete_online_client srv codec s peer.terminal_id
        else s
  ]

  -- `OnCloseClient`.
  unfoldable pub on_close_client : Node srv → Peer → Node srv × List Effect
  unfolding close_transport close_online
  on_close_client n peer =
      let (n', effects) = close_transport n peer.http_trans_key in
      (
        record n' { etcd = if peer.is_command_tunnel then close_online n'.etcd peer else n'.etcd },
        effects,
      )
