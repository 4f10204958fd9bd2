-- ===== src/Node/ListenAdd/Laws.antt =====
-- app/node/node.go: theorems about `httpHandler_ListenAdd`.
use zhangyu.Base.{ℕ, String, ◌≡◌, refl, ◌⊎◌, Bool, Option, some, List, Option-cases, inl, inr, []}
use zhangyu.Base.Text.{CaseTable}
use zhangyu.Utils.Json.{JsonText}
use zhangyu.Etcd.Server.{Server}
use zhangyu.Etcd.Listens.{Url, add_listen_with_tunnel}
use zhangyu.Rpc.Records.{Listen, ListenRequest}
use zhangyu.Rpc.Route.{InvokeRoute}
use zhangyu.Node.Login.{success_response, err_response}
use zhangyu.Node.Peers.{Peer, get_invoker}
use zhangyu.Node.ListenAdd.{
  Address, Added, answered, crashes, still_draws, listen_address, add_and_tell, tell, listen_notice,
  answer_address, http_listen_add,
}
use zhangyu.Node.ListenAdd.Grounds.{
  Authorized, Refusal, Chosen, NilUrl, Undrawn, AddressIs, is_refused, is_address, is_nil,
  is_undrawn, refusal-cases, address-cases, not_stored,
}

module _ (srv : Server) (codec : JsonText) (parse : String → Option Url) (domain : String)
    (draws : List ℕ) where
  open srv use {State}

  module _ (s : State) (req : ListenRequest) (client_id : String) where
    module _ (u : CaseTable) {Uni Bidi : Type 0} (route : InvokeRoute Uni Bidi Peer)
        (written : Bool) (uuid : String) (now : ℕ) where
      -- A request that is answered with a listen.
      pub record IsAdded (result : Added srv) : Type 0 where
        pub authorized : (Authorized srv codec parse domain draws s req client_id)
        pub addr : String
        pub before : State
        pub chosen : Chosen srv codec parse domain draws s req client_id addr before
        pub listen : Listen
        pub after : State
        pub stored :
            add_listen_with_tunnel srv codec parse before req.target_tunnel_id client_id addr
              req.target_addr now
            ≡ some (listen, after)
        pub answer :
            result
            ≡ answered (success_response listen) after (
                tell srv codec u route written
                  (listen_notice srv codec uuid req client_id addr)
                  (get_invoker srv codec u route after req.listen_client_id))

      -- A request that is answered with an error, and changes nothing.
      abbrev pub IsRefused : Added srv → Type 0
      IsRefused result =
          (Refusal srv codec parse domain draws s req client_id)
          × (message : String) × (result ≡ answered (err_response message) s [])

      -- A request that is not answered.
      abbrev pub IsUnanswered : Added srv → Type 0
      IsUnanswered result =
          ((NilUrl srv codec parse domain draws s req client_id) × (result ≡ crashes))
          ⊎ ((Undrawn srv codec parse domain draws s req client_id) × (result ≡ still_draws))

      abbrev pub result : Added srv
      result =
          http_listen_add srv codec u route parse s (some req) client_id domain draws written uuid
            now

      abbrev Outcome : Added srv → Type 0
      Outcome r = IsRefused r ⊎ (IsUnanswered r ⊎ IsAdded r)

      add-cases :
          (addr : String) (s' : State)
          → (Authorized srv codec parse domain draws s req client_id)
          → Chosen srv codec parse domain draws s req client_id addr s'
          → Outcome (add_and_tell srv codec u route parse written uuid now req client_id addr s')
      unfolding add_and_tell
      add-cases addr s' ok chosen =
          elim (Option-cases (
            add_listen_with_tunnel srv codec parse s' req.target_tunnel_id client_id addr
              req.target_addr now)) [
                | inl nil ↦ inr (
                    inl (
                      inl (
                        not_stored srv codec parse domain draws s req client_id addr s' now nil,
                        rw (nil, add_and_tell),
                      )))
                | inr ((listen, after), e) ↦ inr (
                    inr (record {
                      authorized = ok;
                      addr = addr;
                      before = s';
                      chosen = chosen;
                      listen = listen;
                      after = after;
                      stored = e;
                      answer = rw (e, add_and_tell);
                    }))
              ]

      answer-cases :
          (a : Address srv)
          → (Authorized srv codec parse domain draws s req client_id)
          → AddressIs srv codec parse domain draws s req client_id a
          → Outcome (answer_address srv codec u route parse s written uuid now req client_id a)
      unfolding answer_address
      answer-cases _ ok (is_refused message why) = inl (why, message, refl)
      answer-cases _ ok (is_address addr s' chosen) = add-cases addr s' ok chosen
      answer-cases _ ok (is_nil bad) = inr (inl (inl (bad, refl)))
      answer-cases _ ok (is_undrawn taken) = inr (inl (inr (taken, refl)))

      -- A request to listen has one of three outcomes. It is refused with an error and changes
      -- nothing, and then it names another client, or no tunnel, or a tunnel that is unknown or has
      -- another code, or an HTTP target under a host name that ends in the node's domain, or has no
      -- listening address though its target is empty or one of TCP or UDP. Or it is not answered:
      -- the handler crashes, and then the target address is not empty, and it or a listening
      -- address does not parse; or it draws on, and then a name is to be drawn for an HTTP target
      -- and all that were drawn are taken. Or it names no client but the caller and has the
      -- authorization code of its target tunnel; the address is, for an HTTP target, the host name
      -- of the request or a drawn name, and else the listening address of the request; what
      -- `AddListenWithTunnel` stores under this address for the caller is the answer; and the one
      -- effect is the notice to the invoker of the request's `ListenClientId`.
      pub http_listen_add-cases : IsRefused result ⊎ (IsUnanswered result ⊎ IsAdded result)
      unfolding http_listen_add
      http_listen_add-cases = elim (refusal-cases srv codec parse domain draws s req client_id) [
        | inl (message, bad, why) ↦ inl (why, message, rw (bad, http_listen_add))
        | inr (free, ok) ↦
            rw (free, http_listen_add)
              (answer-cases (listen_address srv codec parse domain draws s req) ok
                (address-cases srv codec parse domain draws s req client_id))
      ]
