-- ===== src/Rpc/Route.antt =====
-- rpc/invoke.go, `InvokeRoute`: handlers by path, and the loop that reads from an invoker.
pub mod Laws
use zhangyu.Base.{
  ℕ, String, Bool, true, false, Option, none, some, List, [], ◌∷◌, if◌then◌else◌, nat_eq,
}
use zhangyu.Base.Dict
use zhangyu.Base.Text.{CaseTable, to_lower, trim_space}
use zhangyu.Rpc.Models.{InvokeRequest, InvokeResponse}
use zhangyu.Utils.Cache.{Cache}
use zhangyu.Utils.Cache

-- The key of a handler: `strings.ToLower(strings.TrimSpace(path))`.
unfoldable pub path_key : CaseTable → String → String
path_key u path = to_lower u (trim_space path)

-- `InvokeRoute`, over the handlers' types and the type of pointers to invokers; nil is `none`.
pub record InvokeRoute {ℓ} (Uni Bidi Invoker : Type ℓ) : Type ℓ where
  pub bidi_handlers : List (String × Bidi)
  pub uni_handlers : List (String × Uni)
  pub invokes : Cache Invoker
  pub default_invoker : Option Invoker
  pub lease_seconds : ℕ

-- `NewInvokeRoute`.
abbrev pub new_invoke_route {ℓ} : {Uni Bidi Invoker : Type ℓ} → InvokeRoute Uni Bidi Invoker
new_invoke_route = record {
  bidi_handlers = [];
  uni_handlers = [];
  invokes = Cache.new_cache;
  default_invoker = none;
  lease_seconds = 0;
}

-- `SetLeaseSeconds`.
unfoldable pub set_lease_seconds {ℓ} :
    {Uni Bidi Invoker : Type ℓ} → InvokeRoute Uni Bidi Invoker → ℕ → InvokeRoute Uni Bidi Invoker
set_lease_seconds r n = record r { lease_seconds = n }

-- `getLeaseDuration`, in seconds: it stores the default where none was set.
unfoldable pub get_lease_duration {ℓ} :
    {Uni Bidi Invoker : Type ℓ} → InvokeRoute Uni Bidi Invoker → ℕ × InvokeRoute Uni Bidi Invoker
get_lease_duration r =
    if nat_eq r.lease_seconds 0 then (30, record r { lease_seconds = 30 }) else (r.lease_seconds, r)

module _ {ℓ} {Uni Bidi Invoker : Type ℓ} (u : CaseTable) where
  -- `AddRpcHandler`, `RemoveRpcHandler` and `GetBidiHandler`.
  unfoldable pub add_rpc_handler :
      InvokeRoute Uni Bidi Invoker → String → Bidi → InvokeRoute Uni Bidi Invoker
  add_rpc_handler r path h = record r {
    bidi_handlers = Dict.insert (path_key u path) h r.bidi_handlers;
  }

  unfoldable pub remove_rpc_handler :
      InvokeRoute Uni Bidi Invoker → String → InvokeRoute Uni Bidi Invoker
  remove_rpc_handler r path = record r {
    bidi_handlers = Dict.delete (path_key u path) r.bidi_handlers;
  }

  unfoldable pub get_bidi_handler : InvokeRoute Uni Bidi Invoker → String → Option Bidi
  get_bidi_handler r path = Dict.lookup (path_key u path) r.bidi_handlers

  -- `AddUniHandler`, `RemoveUniHandler` and `GetUniHandler`.
  unfoldable pub add_uni_handler :
      InvokeRoute Uni Bidi Invoker → String → Uni → InvokeRoute Uni Bidi Invoker
  add_uni_handler r path h = record r {
    uni_handlers = Dict.insert (path_key u path) h r.uni_handlers;
  }

  unfoldable pub remove_uni_handler :
      InvokeRoute Uni Bidi Invoker → String → InvokeRoute Uni Bidi Invoker
  remove_uni_handler r path = record r {
    uni_handlers = Dict.delete (path_key u path) r.uni_handlers;
  }

  unfoldable pub get_uni_handler : InvokeRoute Uni Bidi Invoker → String → Option Uni
  get_uni_handler r path = Dict.lookup (path_key u path) r.uni_handlers

  -- `AddAcceptInvoker` and `AddDialInvoker` put their invoker under its identifier; `SetDefaultInvoker`.
  abbrev pub add_invoker :
      InvokeRoute Uni Bidi Invoker → String → Invoker → InvokeRoute Uni Bidi Invoker
  add_invoker r invoker_id invoker = record r {
    invokes = Cache.set_item u r.invokes invoker_id invoker;
  }

  abbrev pub set_default_invoker :
      InvokeRoute Uni Bidi Invoker → Invoker → InvokeRoute Uni Bidi Invoker
  set_default_invoker r invoker = record r { default_invoker = some invoker }

  -- `GetInvoker`, `HasInvoke`, `RemoveInvoker` and `SetExpire`.
  unfoldable pub get_invoker : InvokeRoute Uni Bidi Invoker → String → Option Invoker
  get_invoker r invoker_id = Cache.get u r.invokes invoker_id

  unfoldable pub has_invoke : InvokeRoute Uni Bidi Invoker → String → Bool
  has_invoke r invoker_id = Cache.has_key r.invokes invoker_id

  unfoldable pub remove_invoker :
      InvokeRoute Uni Bidi Invoker → String → InvokeRoute Uni Bidi Invoker
  remove_invoker r invoker_id = record r { invokes = Cache.delete r.invokes invoker_id }

  unfoldable pub set_expire :
      InvokeRoute Uni Bidi Invoker → String → ℕ → InvokeRoute Uni Bidi Invoker
  set_expire r invoker_id duration = record r {
    invokes = (Cache.set_expire u r.invokes invoker_id duration).0;
  }

-- What `ReadInvoke` returns.
pub data Incoming : Type 0 where
  request : InvokeRequest → Incoming
  response : InvokeResponse → Incoming
  read_error : Incoming

-- What one round of `DispatchInvoke` starts or does: it hands a response on, starts a handler or finds none, or
-- closes the invoker and takes it off the route. What the goroutine of a two-way handler does after a failed
-- write is not followed.
pub data Action {ℓ} (Uni Bidi : Type ℓ) : Type ℓ where
  receive : InvokeResponse → Action Uni Bidi
  run_uni : Uni → InvokeRequest → Action Uni Bidi
  run_bidi : Bidi → InvokeRequest → Action Uni Bidi
  no_handler : String → Action Uni Bidi
  close_invoker : Action Uni Bidi
  remove_invoker_of : String → Action Uni Bidi

abbrev pub is_close {ℓ} : {Uni Bidi : Type ℓ} → Action Uni Bidi → Bool
is_close close_invoker = true
is_close _ = false

-- What a round meets: the route as other goroutines have left it, whether the invoker's context is
-- done, and what the read gives.
pub record Round {ℓ} (Uni Bidi Invoker : Type ℓ) : Type ℓ where
  pub route : InvokeRoute Uni Bidi Invoker
  pub ctx_done : Bool
  pub incoming : Incoming

module _ {ℓ} {Uni Bidi Invoker : Type ℓ} (u : CaseTable) where
  -- The branch of a request: a one-way handler is looked up first.
  unfoldable pub handle_request : InvokeRoute Uni Bidi Invoker → InvokeRequest → Action Uni Bidi
  handle_request r req = elim (get_uni_handler u r req.path) [
    | some h ↦ run_uni h req
    | none ↦ elim (get_bidi_handler u r req.path) [
      | some h ↦ run_bidi h req
      | none ↦ no_handler req.path
    ]
  ]

  -- What a round does once it has read, or found the context done.
  unfoldable pub handle_incoming : InvokeRoute Uni Bidi Invoker → Bool → Incoming → Action Uni Bidi
  unfolding handle_request
  handle_incoming r true i = close_invoker
  handle_incoming r false read_error = close_invoker
  handle_incoming r false (response resp) = receive resp
  handle_incoming r false (request req) = handle_request r req

  -- `DispatchInvoke`: it ends when the route no longer has the invoker, or with the round that fails,
  -- which closes the invoker and takes it off the route.
  unfoldable pub dispatch_invoke : String → List (Round Uni Bidi Invoker) → List (Action Uni Bidi)
  dispatch_invoke invoker_id [] = []
  dispatch_invoke invoker_id (round ∷ rounds) =
      let action = handle_incoming round.route round.ctx_done round.incoming in
      let rest = dispatch_invoke invoker_id rounds in
      if has_invoke u round.route invoker_id
      then (if is_close action then action ∷ remove_invoker_of invoker_id ∷ [] else action ∷ rest)
      else []
