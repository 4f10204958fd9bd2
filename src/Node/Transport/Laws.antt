-- ===== src/Node/Transport/Laws.antt =====
-- app/node/node.go: theorems about `getTransport` and `onInvokerTransferGo`.
use zhangyu.Base.{
  eq_false, eq_refl, ℕ, String, ◌≡◌, ◌≢◌, ap, ◌∙◌, none, some, refl, List, [], ◌∷◌, ◌++◌, length,
  get_elem?, get_elem?-append_last, get_elem?-set_self, length-append, set, arith, true,
}
use zhangyu.Base.Strings.{join, text_length}
use zhangyu.Base.Text.{CaseTable}
use zhangyu.Utils.Json.{JsonText}
use zhangyu.Utils.Cache
use zhangyu.Utils.Cache.{get_key}
use zhangyu.Utils.Cache.Valid.{IsValid, set_item-IsValid}
use zhangyu.Utils.Cache.Access.{get-set_item, get-set_expire}
use zhangyu.Etcd.Server.{Server}
use zhangyu.Rpc.Models.{InvokeRequest}
use zhangyu.Rpc.Records.{Listen}
use zhangyu.Rpc.Route.{InvokeRoute}
use zhangyu.Node.Peers.{Peer, HttpTransport, Node, Effect, writes, signals, get_invoker}
use zhangyu.Node.Transfer.{header_value, serve_transport, on_invoker_transfer_go}
use zhangyu.Node.Transport.{
  lost_message, asked, waits_for, serves, gives_up, ask_transport, enter_transport, transport_key,
  transport_request, add_transport, ask_transport, begin_transport, end_transport,
}

marked_ne : (s t : String) → join s (join "|" t) ≢ ""
marked_ne String.[] t e = let long = ap text_length e in omega arith
marked_ne (String.◌∷◌ c s) t e = let long = ap text_length e in omega arith

module _ (srv : Server) (codec : JsonText) (u : CaseTable) where
  -- The target's connection, with the key attached.
  abbrev pub attached : Peer → String → Peer
  attached peer key = record peer { http_trans_key = some key }

  get-add_transport :
      (n : Node srv) (key : String)
      → IsValid u n.transports
      → Cache.get u (add_transport srv codec u n key).transports key ≡ some (length n.made)
  get-add_transport n key v =
      get-set_expire u (Cache.set_item u n.transports key (length n.made))
        (set_item-IsValid u n.transports key (length n.made) v) key 20 key
      ∙ get-set_item u n.transports v key (length n.made) key
      ∙ rw (eq_refl (get_key u key))

  -- The node after the target has connected.
  abbrev pub served : Node srv → String → Peer → Node srv
  served n key peer = record (add_transport srv codec u n key) {
    made =
        set (n.made ++ record { key = key; invoker = none } ∷ []) (length n.made)
          (record { key = key; invoker = some (attached peer key) });
  }

  serve-at :
      (n : Node srv) (key : String) (peer : Peer) (p : ℕ) (t : HttpTransport)
      → Cache.get u n.transports key ≡ some p
      → get_elem? n.made p ≡ some t
      → serve_transport srv u n key peer ≡ (
        record n { made = set n.made p (record t { invoker = some (attached peer key) }) },
        signals p ∷ [],
      )
  unfolding serve_transport
  serve-at n key peer p t e at_p = rw (e, serve_transport, at_p)

  serve_transport-add_transport :
      (n : Node srv) (key : String) (peer : Peer)
      → IsValid u n.transports
      → serve_transport srv u (add_transport srv codec u n key) key peer
        ≡ (served n key peer, signals (length n.made) ∷ [])
  serve_transport-add_transport n key peer v =
      serve-at (add_transport srv codec u n key) key peer (length n.made)
        (record { key = key; invoker = none }) (get-add_transport n key v)
        (get_elem?-append_last n.made (record { key = key; invoker = none }))

  end-served :
      (n : Node srv) (peer : Peer) (listen : Listen) (addr : String)
      → end_transport srv codec u
          (served n (transport_key listen addr) peer)
          (length n.made)
          listen
          addr
        ≡ serves
            (length n.made)
            (attached peer (transport_key listen addr))
            (served n (transport_key listen addr) peer)
  unfolding end_transport
  end-served n peer listen addr = rw (
    get_elem?-set_self (n.made ++ record { key = transport_key listen addr; invoker = none } ∷ [])
        (length n.made)
        (record {
          key = transport_key listen addr;
          invoker = some (attached peer (transport_key listen addr));
        })
        (omega (
          arith,
          length-append n.made (record { key = transport_key listen addr; invoker = none } ∷ []),
        )),
    end_transport,
  )

  -- The node after a wait for a new transport has ended in vain.
  abbrev given_up : Node srv → String → Node srv
  given_up n key =
      let added = add_transport srv codec u n key in
      record added { transports = Cache.delete added.transports key }

  module _ {Uni Bidi : Type 0} (route : InvokeRoute Uni Bidi Peer) (n : Node srv) (listen : Listen)
      (addr uuid : String) (target : Peer) where
    -- Without a transport, a target that is online is asked.
    ask-asked :
        Cache.get u n.transports (transport_key listen addr) ≡ none
        → get_invoker srv codec u route n.etcd listen.target_client_id ≡ some target
        → ask_transport srv codec u route n listen addr true uuid
          ≡ asked (writes target (transport_request srv codec u uuid listen addr) ∷ [])
    unfolding ask_transport
    ask-asked absent online = rw (absent, ask_transport, online)

    -- And if nothing comes in between, the visitor waits for a new transport.
    pub begin-waits :
        Cache.get u n.transports (transport_key listen addr) ≡ none
        → get_invoker srv codec u route n.etcd listen.target_client_id ≡ some target
        → begin_transport srv codec u route n listen addr true uuid
          ≡ waits_for
              (length n.made)
              (add_transport srv codec u n (transport_key listen addr))
              (writes target (transport_request srv codec u uuid listen addr) ∷ [])
    unfolding begin_transport
    begin-waits absent online =
        ap (enter_transport srv codec u n listen addr) (ask-asked absent online)

    -- A connection of the target that comes after the request is written, and before the transport is
    -- in the cache, is lost: it changes nothing, and the visitor's wait that begins then ends with
    -- an error if no other connection comes.
    early_connection_lost :
        {Uni' Bidi' : Type 0} (later : InvokeRoute Uni' Bidi' Peer) (peer : Peer)
        (request : InvokeRequest)
        → Cache.get u n.transports (transport_key listen addr) ≡ none
        → get_invoker srv codec u route n.etcd listen.target_client_id ≡ some target
        → header_value request.header "HttpTransKey" ≡ transport_key listen addr
        → (effects : List Effect) × (m : Node srv) × (ask_transport srv codec u route n listen addr
              true uuid
            ≡ asked effects)
          × (on_invoker_transfer_go srv codec u later n peer request ≡ (m, []))
          × (enter_transport srv codec u m listen addr (asked effects)
              ≡ waits_for
                  (length n.made)
                  (add_transport srv codec u n (transport_key listen addr))
                  effects)
          × (end_transport srv codec u
                (add_transport srv codec u n (transport_key listen addr))
                (length n.made)
                listen
                addr
              ≡ gives_up (lost_message listen) (given_up n (transport_key listen addr)))
    unfolding on_invoker_transfer_go serve_transport end_transport
    early_connection_lost later peer request absent online e = (
      _,
      n,
      ask-asked absent online,
      rw (e, eq_false (transport_key listen addr) "" (marked_ne listen.target_tunnel_id addr))
          (rw (absent, serve_transport) refl),
      refl,
      rw
          (
            get_elem?-append_last n.made
                (record { key = transport_key listen addr; invoker = none }),
            end_transport,
          )
          refl,
    )

  module _ {Uni Bidi : Type 0} (route later : InvokeRoute Uni Bidi Peer) (n : Node srv)
      (listen : Listen) (addr uuid : String) (target peer : Peer) (request : InvokeRequest) where
    go-serves :
        IsValid u n.transports
        → header_value request.header "HttpTransKey" ≡ transport_key listen addr
        → on_invoker_transfer_go srv codec u later
            (add_transport srv codec u n (transport_key listen addr))
            peer
            request
          ≡ (served n (transport_key listen addr) peer, signals (length n.made) ∷ [])
    unfolding on_invoker_transfer_go
    go-serves v e =
        rw (e, eq_false (transport_key listen addr) "" (marked_ne listen.target_tunnel_id addr))
          (serve_transport-add_transport n (transport_key listen addr) peer v)

    -- In a node whose cache of transports is valid, a visitor's request for a target that is
    -- online, with no transport under its key and a write that succeeds, asks the target and waits
    -- for a new transport. Once a connection of any peer names that key, that very wait is
    -- signalled, and ends with this connection serving the transport.
    pub transport_served :
        IsValid u n.transports
        → Cache.get u n.transports (transport_key listen addr) ≡ none
        → get_invoker srv codec u route n.etcd listen.target_client_id ≡ some target
        → header_value request.header "HttpTransKey" ≡ transport_key listen addr
        → (p : ℕ) × (waiting after : Node srv) × (begin_transport srv codec u route n listen addr
              true uuid
            ≡ waits_for p waiting
                (writes target (transport_request srv codec u uuid listen addr) ∷ []))
          × (on_invoker_transfer_go srv codec u later waiting peer request
              ≡ (after, signals p ∷ []))
          × (end_transport srv codec u after p listen addr
              ≡ serves p (attached peer (transport_key listen addr)) after)
    transport_served v absent online e = (
      length n.made,
      add_transport srv codec u n (transport_key listen addr),
      served n (transport_key listen addr) peer,
      begin-waits route n listen addr uuid target absent online,
      go-serves v e,
      end-served n peer listen addr,
    )
