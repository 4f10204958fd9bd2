-- ===== src/Node/HttpRoot.antt =====
-- app/node/node.go, `OnHttpRoot`: a request of an HTTP visitor. The wait of `getTransport` splits it in two.
pub mod Laws
use zhangyu.Base.{
  ℕ, String, Bool, Option, none, some, ◌⊎◌, inl, inr, List, [], ◌∷◌, ◌++◌, get_elem?, Run, returns,
  panics,
}
use zhangyu.Base.Strings.{join}
use zhangyu.Base.Text.{CaseTable}
use zhangyu.Utils.Json.{JsonText}
use zhangyu.Etcd.Server.{Server}
use zhangyu.Etcd.Listens.{Url}
use zhangyu.Etcd.Store.{get_domain_info}
use zhangyu.Rpc.Records.{Listen}
use zhangyu.Rpc.Route.{InvokeRoute}
use zhangyu.Node.Peers.{Peer, HttpTransport, Node, Effect, closes, delete_transport}
use zhangyu.Node.Transport.{Begun, Ended, serves, gives_up, begin_transport}

-- A response of the target: its code, and its header with all values of a name.
pub record HttpResponse : Type 0 where
  status_code : ℕ
  pub header : List (String × List String)

-- What the handler does at first: the next handler, or a transport for a listen.
pub data Rooted (srv : Server) : Type 0 where
  next : Rooted srv
  transports_for : Listen → Begun srv → Rooted srv

-- Its answer: a text with a code, or the target's response with one value for each name.
pub data Answer : Type 0 where
  text : ℕ → String → Answer
  relays : ℕ → List (String × String) → Answer

-- `strings.Join(v, ";")`.
unfoldable pub join_values : List String → String
join_values [] = ""
join_values (v ∷ []) = v
join_values (v ∷ w ∷ vs) = join v (join ";" (join_values (w ∷ vs)))

abbrev relayed : List (String × List String) → List (String × String)
relayed [] = []
relayed ((name, vs) ∷ header) = (name, join_values vs) ∷ relayed header

abbrev pub key_of : Option HttpTransport → String
key_of none = ""
key_of (some t) = t.key

module _ (srv : Server) (codec : JsonText) (u : CaseTable) (parse : String → Option Url) where
  -- The listen of a domain, and a transport for it.
  abbrev pub transport_for :
      {Uni Bidi : Type 0}
      → InvokeRoute Uni Bidi Peer
      → Node srv
      → String
      → Bool
      → String
      → Option Listen
      → Rooted srv
  transport_for route n remote_addr written uuid none = next
  transport_for route n remote_addr written uuid (some listen) =
      transports_for listen (begin_transport srv codec u route n listen remote_addr written uuid)

  -- `OnHttpRoot` up to the wait.
  unfoldable pub begin_root :
      {Uni Bidi : Type 0}
      → InvokeRoute Uni Bidi Peer
      → Node srv
      → String
      → String
      → Bool
      → String
      → Run (Rooted srv)
  begin_root route n host remote_addr written uuid = elim (parse (join "https://" host)) [
    | none ↦ panics
    | some url ↦ returns (
        transport_for route n remote_addr written uuid
          (get_domain_info srv codec n.etcd url.hostname))
  ]

  -- What the round trip leads to: after an error the invoker and the transport go.
  unfoldable pub finish_round_trip :
      Node srv → ℕ → Peer → HttpResponse ⊎ String → Answer × Node srv × List Effect
  finish_round_trip n p peer (inl resp) = (relays resp.status_code (relayed resp.header), n, [])
  finish_round_trip n p peer (inr message) =
      let deleted = delete_transport srv codec u n (key_of (get_elem? n.made p)) in
      (text 500 message, deleted.0, closes peer ∷ deleted.1)

  -- `OnHttpRoot` from the wait on, with what the round trip to the target gives.
  unfoldable pub end_root :
      Ended srv → Listen → HttpResponse ⊎ String → Run (Answer × Node srv × List Effect)
  unfolding finish_round_trip
  end_root (gives_up message n) listen round_trip = returns (text 200 message, n, [])
  end_root (serves p peer n) listen round_trip = elim (parse listen.target_addr) [
    | none ↦ panics
    | some target_uri ↦ returns (finish_round_trip n p peer round_trip)
  ]
