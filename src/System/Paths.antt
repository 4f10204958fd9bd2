-- ===== src/System/Paths.antt =====
-- app/node/node.go, app/client/client.go: the handlers that the requests of a forwarded connection reach.
use zhangyu.Base.{
  String, ◌≡◌, refl, ◌∙◌, ◌==◌, false, Option, some, List, [], ◌∷◌, returns, All, eq_refl,
}
use zhangyu.Base.Text.{CaseTable}
use zhangyu.Utils.Json.{JsonText}
use zhangyu.Etcd.Listens.{Url}
use zhangyu.Rpc.InvokePath.{
  transfer_go, transfer_listen_in, transfer_target_out, transfer_listen_add,
}
use zhangyu.Rpc.Models.{InvokeRequest, listen, target}
use zhangyu.Rpc.Records.{Listen}
use zhangyu.Rpc.Route.{InvokeRoute, path_key, add_uni_handler, get_uni_handler}
use zhangyu.Rpc.Route.Laws.{handlers-add}
use zhangyu.Node.Peers.{Peer}
use zhangyu.Node.Transfer.{target_out}
use zhangyu.Node.Handlers.{
  UniHandler, BidiHandler, listen_in, go, login, init_handlers, call_handler, connection_in,
}
use zhangyu.Client.Handlers.{ClientHandler, dial_out, listen_add, init_client_handlers}
use zhangyu.Client.Listens.{listen_in_request}
use zhangyu.Client.DialOut.{go_request}

module _ (u : CaseTable) where
  -- A path that is its own key.
  abbrev pub Kept : String → Type 0
  Kept path = path_key u path ≡ path

  -- The paths of a forwarded connection, and the one that a client adds last.
  abbrev pub paths : List String
  paths = transfer_go ∷ transfer_listen_in ∷ transfer_target_out ∷ transfer_listen_add ∷ []

  module _ {Uni Bidi : Type 0} (r : InvokeRoute Uni Bidi Peer) (path : String) (h : Uni) where
    pub added : Bidi → get_uni_handler u (add_uni_handler u r path h) path ≡ some h
    added b = (handlers-add u r path h b path).0 ∙ rw (eq_refl (path_key u path))

    pub get-apart :
        (b : Bidi) (p : String)
        → Kept path
        → Kept p
        → path == p ≡ false
        → get_uni_handler u (add_uni_handler u r path h) p ≡ get_uni_handler u r p
    get-apart b p k kp differ = (handlers-add u r path h b p).0 ∙ rw (k, kp) (rw differ)

  finds_listen_in :
      (r : InvokeRoute UniHandler BidiHandler Peer)
      → All Kept paths
      → get_uni_handler u (init_handlers u r) transfer_listen_in ≡ some listen_in
  unfolding init_handlers
  finds_listen_in r (k_go, (k_in, _)) =
      get-apart _ transfer_go go login transfer_listen_in k_go k_in refl
      ∙ added _ transfer_listen_in listen_in login

  finds_go :
      (r : InvokeRoute UniHandler BidiHandler Peer)
      → get_uni_handler u (init_handlers u r) transfer_go ≡ some go
  unfolding init_handlers
  finds_go r = added _ transfer_go go login

  finds_dial_out :
      (c : InvokeRoute ClientHandler BidiHandler Peer)
      → All Kept paths
      → get_uni_handler u (init_client_handlers u c) transfer_target_out ≡ some dial_out
  unfolding init_client_handlers
  finds_dial_out c (_, (_, (k_out, (k_add, _)))) =
      get-apart _ transfer_listen_add listen_add login transfer_target_out k_add k_out refl
      ∙ added _ transfer_target_out dial_out login

  call-found :
      (r : InvokeRoute UniHandler BidiHandler Peer) (request : InvokeRequest) (h : UniHandler)
      → get_uni_handler u (init_handlers u r) request.path ≡ some h
      → call_handler u (init_handlers u r) (some request) ≡ returns (some h)
  call-found r request h e = rw (e, call_handler)

  module _ (codec : JsonText) (parse : String → Option Url)
      (r : InvokeRoute UniHandler BidiHandler Peer)
      (c : InvokeRoute ClientHandler BidiHandler Peer) where
    -- If folding keeps the paths of a forwarded connection as they are, then with the handlers that
    -- a node and a client add at their start the listener's request reaches the node's handler for
    -- it, the request that goes on reaches the client's dial, and the request that comes back
    -- reaches the node's copy.
    pub paths_served :
        (uuid : String) (l : Listen) (listener : Peer)
        → All Kept paths
        → (connection_in u (init_handlers u r) listen (some (listen_in_request codec parse uuid l))
            ≡ returns (some listen_in))
          × (get_uni_handler u
                (init_client_handlers u c)
                (target_out listener (listen_in_request codec parse uuid l)).path
              ≡ some dial_out)
          × (connection_in u
                (init_handlers u r)
                target
                (some (go_request (target_out listener (listen_in_request codec parse uuid l))))
              ≡ returns (some go))
    unfolding connection_in
    paths_served uuid l listener kept = (
      call-found r (listen_in_request codec parse uuid l) listen_in (finds_listen_in r kept),
      finds_dial_out c kept,
      call-found r (go_request (target_out listener (listen_in_request codec parse uuid l))) go
          (finds_go r),
    )
