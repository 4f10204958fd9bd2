-- ===== src/Rpc/Calls.antt =====
-- rpc/invoke.go, `Invoke`, `getResponseChan`, `receiveResponse` and `RemoveResponseChan`: calls of one
-- invoker that wait for their responses, as steps of its goroutines. What runs under `invokeMapLock`
-- is one step, but for the send of `receiveResponse`, which waits for a receiver with the lock held.
pub mod Invariant
pub mod Blocked
use zhangyu.Base.{
  true, false, ℕ, String, ◌≡◌, Bool, Option, none, some, List, [], ◌∷◌, ◌++◌, length,
}
use zhangyu.Base.Dict
use zhangyu.Rpc.Models.{InvokeRequest, InvokeResponse}

-- Where a call of `Invoke` stands: in its `select`, or past it, with the response that it received or
-- with none, and about to run the deferred `RemoveResponseChan`.
pub data Phase : Type 0 where
  waiting : Phase
  leaving : Option InvokeResponse → Phase

pub record Caller : Type 0 where
  pub request_id : String
  pub chan : ℕ
  pub phase : Phase

-- A channel is an index into `chans`, which keeps the identifier that each was made for.
pub record Calls : Type 0 where
  pub invoke_map : List (String × ℕ)
  pub chans : List String
  pub callers : List Caller
  pub arrived : List InvokeResponse
  -- The goroutine that holds the lock and waits to send its response on a channel.
  pub sending : Option (ℕ × InvokeResponse)
  -- What the calls have returned, the latest first: the identifier, and the response or an error.
  pub returned : List (String × Option InvokeResponse)

abbrev pub no_calls : Calls
no_calls = record {
  invoke_map = [];
  chans = [];
  callers = [];
  arrived = [];
  sending = none;
  returned = [];
}

-- `getResponseChan`: the channel, and the state with the map.
unfoldable pub get_response_chan : Calls → String → ℕ × Calls
get_response_chan s id = elim (Dict.lookup id s.invoke_map) [
  | some v ↦ (v, s)
  | none ↦ (
    length s.chans,
    record s {
      invoke_map = Dict.insert id (length s.chans) s.invoke_map;
      chans = s.chans ++ id ∷ [];
    },
  )
]

-- `RemoveResponseChan`.
unfoldable pub remove_response_chan : Calls → String → Calls
remove_response_chan s id = record s { invoke_map = Dict.delete id s.invoke_map }

-- `receiveResponse` up to its send: a response to an unknown identifier is dropped.
unfoldable pub receive_response : Calls → InvokeResponse → Calls
receive_response s resp = elim (Dict.lookup resp.request_id s.invoke_map) [
  | some v ↦ record s { sending = some (v, resp) }
  | none ↦ s
]

abbrev pub start_phase : Bool → Phase
start_phase true = waiting
start_phase false = leaving none

-- The start of `Invoke`; where the write of the request fails the call is past its `select` at once.
unfoldable pub begin_invoke : Calls → String → Bool → Calls
begin_invoke s id written =
    let (ch, s') = get_response_chan s id in
    record s' {
      callers = record { request_id = id; chan = ch; phase = start_phase written } ∷ s'.callers;
    }

-- A step of one goroutine. A lock that is held stops those that want it.
pub data Step (s : Calls) : Calls → Type 0 where
  begins : (id : String) (written : Bool) → s.sending ≡ none → Step s (begin_invoke s id written)
  -- `DispatchInvoke` has read a response and started a goroutine for it.
  arrives : (resp : InvokeResponse) → Step s (record s { arrived = resp ∷ s.arrived })
  receives :
      (xs ys : List InvokeResponse) (resp : InvokeResponse)
      → s.arrived ≡ xs ++ resp ∷ ys
      → s.sending ≡ none
      → Step s (receive_response (record s { arrived = xs ++ ys }) resp)
  -- The send and a waiting `select` meet; the lock is released.
  delivers :
      (xs ys : List Caller) (c : Caller) (resp : InvokeResponse)
      → s.callers ≡ xs ++ c ∷ ys
      → c.phase ≡ waiting
      → s.sending ≡ some (c.chan, resp)
      → Step s (record s {
        callers = xs ++ record c { phase = leaving (some resp) } ∷ ys;
        sending = none;
      })
  -- The context of the invoker is done.
  cancels :
      (xs ys : List Caller) (c : Caller)
      → s.callers ≡ xs ++ c ∷ ys
      → c.phase ≡ waiting
      → Step s (record s { callers = xs ++ record c { phase = leaving none } ∷ ys })
  -- The deferred `RemoveResponseChan`, and the return.
  leaves :
      (xs ys : List Caller) (c : Caller) (result : Option InvokeResponse)
      → s.callers ≡ xs ++ c ∷ ys
      → c.phase ≡ leaving result
      → s.sending ≡ none
      → Step s (
          remove_response_chan
            (record s { callers = xs ++ ys; returned = (c.request_id, result) ∷ s.returned })
            c.request_id)

-- Any number of steps.
pub data Steps (s : Calls) : Calls → Type 0 where
  here : Steps s s
  next : {t w : Calls} → Steps s t → Step t w → Steps s w
