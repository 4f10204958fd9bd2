-- ===== src/Rpc/Route/Laws.antt =====
-- rpc/invoke.go: theorems about the handlers of `InvokeRoute` and about `DispatchInvoke`.
use zhangyu.Base.{
  Bool-cases, ◌⊎◌, eq_refl, String, ◌≡◌, refl, ◌∙◌, true, false, none, some, List, [], ◌∷◌, ◌++◌,
  if◌then◌else◌, inl, inr, ◌==◌,
}
use zhangyu.Base.Dict.{lookup-insert, lookup-delete}
use zhangyu.Base.Text.{CaseTable, to_lower-trim_space}
use zhangyu.Rpc.Models.{InvokeRequest, InvokeResponse}
use zhangyu.Utils.Cache.{get_key}
use zhangyu.Rpc.Route.{
  path_key, InvokeRoute, add_rpc_handler, remove_rpc_handler, get_bidi_handler, add_uni_handler,
  remove_uni_handler, get_uni_handler, Action, run_uni, run_bidi, close_invoker, Round,
  handle_request, handle_incoming, is_close, dispatch_invoke, has_invoke, receive, no_handler,
  remove_invoker_of, request, response, read_error,
}

-- Handlers and the cache fold their keys in another order, and to the same effect.
path_key-get_key : (u : CaseTable) (s : String) → path_key u s ≡ get_key u s
unfolding path_key get_key
path_key-get_key u s = to_lower-trim_space u s

module _ {ℓ} {Uni Bidi Invoker : Type ℓ} (u : CaseTable) (r : InvokeRoute Uni Bidi Invoker) where
  -- A handler that was added is found under every spelling of its path, up to case and outer white
  -- space, and other paths as before; handlers of the one kind do not disturb those of the other.
  pub handlers-add :
      (path : String) (uni : Uni) (bidi : Bidi) (p : String)
      → (get_uni_handler u (add_uni_handler u r path uni) p
          ≡ (if path_key u path == path_key u p then some uni else get_uni_handler u r p))
        × (get_bidi_handler u (add_rpc_handler u r path bidi) p
            ≡ (if path_key u path == path_key u p then some bidi else get_bidi_handler u r p))
        × (get_bidi_handler u (add_uni_handler u r path uni) p ≡ get_bidi_handler u r p)
        × (get_uni_handler u (add_rpc_handler u r path bidi) p ≡ get_uni_handler u r p)
  unfolding get_uni_handler get_bidi_handler add_uni_handler add_rpc_handler
  handlers-add path uni bidi p = (
    lookup-insert (path_key u path) (path_key u p) uni r.uni_handlers,
    lookup-insert (path_key u path) (path_key u p) bidi r.bidi_handlers,
    refl,
    refl,
  )

  -- A handler that was removed is gone under every spelling of its path, and the handlers of other
  -- paths stay.
  handlers-remove :
      (path : String) (p : String)
      → (get_uni_handler u (remove_uni_handler u r path) p
          ≡ (if path_key u path == path_key u p then none else get_uni_handler u r p))
        × (get_bidi_handler u (remove_rpc_handler u r path) p
            ≡ (if path_key u path == path_key u p then none else get_bidi_handler u r p))
  unfolding get_uni_handler get_bidi_handler remove_uni_handler remove_rpc_handler
  handlers-remove path p = (
    lookup-delete (path_key u path) (path_key u p) r.uni_handlers,
    lookup-delete (path_key u path) (path_key u p) r.bidi_handlers,
  )

module _ {ℓ} {Uni Bidi Invoker : Type ℓ} (u : CaseTable) where
  handle_request-uni :
      (r : InvokeRoute Uni Bidi Invoker) (req : InvokeRequest) (h : Uni)
      → get_uni_handler u r req.path ≡ some h
      → handle_request u r req ≡ run_uni h req
  unfolding handle_request
  handle_request-uni r req h e = rw (e, handle_request)

  handle_request-bidi :
      (r : InvokeRoute Uni Bidi Invoker) (req : InvokeRequest) (h : Bidi)
      → get_uni_handler u r req.path ≡ none
      → get_bidi_handler u r req.path ≡ some h
      → handle_request u r req ≡ run_bidi h req
  unfolding handle_request
  handle_request-bidi r req h e e' = rw (e, handle_request, e')

  handle_request-none :
      (r : InvokeRoute Uni Bidi Invoker) (req : InvokeRequest)
      → get_uni_handler u r req.path ≡ none
      → get_bidi_handler u r req.path ≡ none
      → handle_request u r req ≡ no_handler req.path
  unfolding handle_request
  handle_request-none r req e e' = rw (e, handle_request, e')

module _ {ℓ} {Uni Bidi Invoker : Type ℓ} (u : CaseTable) (r : InvokeRoute Uni Bidi Invoker) where
  -- With handlers of both kinds for its path a request goes to the one-way handler; once that is
  -- removed, under any spelling of the path, it goes to the two-way handler.
  handle_request-order :
      (path spelled : String) (uni : Uni) (bidi : Bidi) (req : InvokeRequest)
      → path_key u path ≡ path_key u req.path
      → path_key u spelled ≡ path_key u req.path
      → (handle_request u (add_rpc_handler u (add_uni_handler u r path uni) path bidi) req
          ≡ run_uni uni req)
        × (handle_request u
              (remove_uni_handler u
                (add_rpc_handler u (add_uni_handler u r path uni) path bidi)
                spelled)
              req
            ≡ run_bidi bidi req)
  unfolding get_uni_handler get_bidi_handler add_uni_handler add_rpc_handler remove_uni_handler
  handle_request-order path spelled uni bidi req e e' = (
    handle_request-uni u _ req uni (
        lookup-insert (path_key u path) (path_key u req.path) uni r.uni_handlers
        ∙ rw (e, eq_refl (path_key u req.path))),
    handle_request-bidi u _ req bidi
        (lookup-delete (path_key u spelled) (path_key u req.path) _
          ∙ rw (e', eq_refl (path_key u req.path)))
        (lookup-insert (path_key u path) (path_key u req.path) bidi r.bidi_handlers
          ∙ rw (e, eq_refl (path_key u req.path))),
  )

module _ {ℓ} {Uni Bidi Invoker : Type ℓ} (u : CaseTable) (id : String) where
  -- What a round has to do that reads a message: a response is received, and a request goes to the one-way
  -- handler of its path, else to the two-way handler, else to none.
  pub data Handles (round : Round Uni Bidi Invoker) : Action Uni Bidi → Type ℓ where
    responds :
        (resp : InvokeResponse) → round.incoming ≡ response resp → Handles round (receive resp)
    one_way :
        (req : InvokeRequest) (h : Uni)
        → round.incoming ≡ request req
        → get_uni_handler u round.route req.path ≡ some h
        → Handles round (run_uni h req)
    two_way :
        (req : InvokeRequest) (h : Bidi)
        → round.incoming ≡ request req
        → get_uni_handler u round.route req.path ≡ none
        → get_bidi_handler u round.route req.path ≡ some h
        → Handles round (run_bidi h req)
    unknown :
        (req : InvokeRequest)
        → round.incoming ≡ request req
        → get_uni_handler u round.route req.path ≡ none
        → get_bidi_handler u round.route req.path ≡ none
        → Handles round (no_handler req.path)

  -- Rounds that keep the loop running, with what they do.
  pub data Runs : List (Round Uni Bidi Invoker) → List (Action Uni Bidi) → Type ℓ where
    idle : Runs [] []
    again :
        {round : Round Uni Bidi Invoker} {rounds : List (Round Uni Bidi Invoker)}
        {action : Action Uni Bidi} {actions : List (Action Uni Bidi)}
        → has_invoke u round.route id ≡ true
        → round.ctx_done ≡ false
        → Handles round action
        → Runs rounds actions
        → Runs (round ∷ rounds) (action ∷ actions)

  -- A round that ends it, with what it does.
  pub data Ends (round : Round Uni Bidi Invoker) : List (Action Uni Bidi) → Type ℓ where
    off_route : has_invoke u round.route id ≡ false → Ends round []
    fails :
        has_invoke u round.route id ≡ true
        → (round.ctx_done ≡ true) ⊎ (round.incoming ≡ read_error)
        → Ends round (close_invoker ∷ remove_invoker_of id ∷ [])

  Handles-incoming :
      {action : Action Uni Bidi} (round : Round Uni Bidi Invoker)
      → Handles round action
      → (handle_incoming u round.route false round.incoming ≡ action) × (is_close action ≡ false)
  unfolding handle_incoming
  Handles-incoming round (responds resp e) = (rw (e, handle_incoming), refl)
  Handles-incoming round (one_way req h e uni) =
      (rw (e, handle_incoming) (handle_request-uni u round.route req h uni), refl)
  Handles-incoming round (two_way req h e no_uni bidi) =
      (rw (e, handle_incoming) (handle_request-bidi u round.route req h no_uni bidi), refl)
  Handles-incoming round (unknown req e no_uni no_bidi) =
      (rw (e, handle_incoming) (handle_request-none u round.route req no_uni no_bidi), refl)

  last :
      {actions : List (Action Uni Bidi)} (round : Round Uni Bidi Invoker)
      (after : List (Round Uni Bidi Invoker))
      → Ends round actions
      → dispatch_invoke u id (round ∷ after) ≡ actions
  unfolding dispatch_invoke handle_incoming
  last round after (off_route gone) = rw gone refl
  last round after (fails here (inl done)) = rw (here, done) refl
  last round after (fails here (inr failed)) = elim (Bool-cases round.ctx_done) [
    | inl done ↦ rw (here, done) refl
    | inr live ↦ rw (here, live, failed) refl
  ]

  -- While the invoker is on the route and its context is not done, the dispatch loop handles every
  -- message that it reads, in order: a response is received, and a request goes to the one-way
  -- handler of its path, else to the two-way handler, else to none. With the first round that finds
  -- the invoker off the route it ends. With the first one that finds the context done or fails to
  -- read it closes the invoker, takes it off the route and ends. It reads nothing that comes later.
  pub dispatch_invoke-Ends :
      {before : List (Round Uni Bidi Invoker)} {actions final : List (Action Uni Bidi)}
      (after : List (Round Uni Bidi Invoker)) (round : Round Uni Bidi Invoker)
      → Runs before actions
      → Ends round final
      → dispatch_invoke u id (before ++ round ∷ after) ≡ actions ++ final
  unfolding dispatch_invoke
  dispatch_invoke-Ends after round idle e = last round after e
  dispatch_invoke-Ends after round (again {round = first} here live handles runs) e =
      let (does, open_) = Handles-incoming first handles in
      rw (here, live, does, open_, dispatch_invoke-Ends after round runs e) refl
