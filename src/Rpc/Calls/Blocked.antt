-- ===== src/Rpc/Calls/Blocked.antt =====
-- rpc/invoke.go: theorems about `receiveResponse` and the lock that it holds while it sends.
use zhangyu.Base.{
  ℕ, ◌≡◌, refl, ◌∙◌, ◌≢◌, true, Option, none, some, [], ◌∷◌, All, All-middle, All-put, arith,
  eq_refl,
}
use zhangyu.Base.Dict
use zhangyu.Rpc.Models.{InvokeResponse}
use mathlib.Core.Path.{subst}
use zhangyu.Rpc.Calls.{
  waiting, leaving, Calls, no_calls, get_response_chan, receive_response, begin_invoke, Step,
  begins, arrives, receives, delivers, cancels, leaves, Steps, here, next,
}

-- The lock is held for a send on a channel on which no call waits.
pub record Stuck (ch : ℕ) (resp : InvokeResponse) (s : Calls) : Type 0 where
  pub held : s.sending ≡ some (ch, resp)
  unheard : All (λ c. c.phase ≡ waiting → c.chan ≢ ch) s.callers

waiting-ne-leaving : {r : Option InvokeResponse} → leaving r ≢ waiting
waiting-ne-leaving e = cc

module _ (ch : ℕ) (resp : InvokeResponse) where
  Step-Stuck :
      {s t : Calls} → Step s t → Stuck ch resp s → Stuck ch resp t × (t.returned ≡ s.returned)
  Step-Stuck (begins id written free) h = absurd (cc (free, h.held))
  Step-Stuck (arrives r) h = (record { held = h.held; unheard = h.unheard }, refl)
  Step-Stuck (receives xs ys r e free) h = absurd (cc (free, h.held))
  Step-Stuck (delivers xs ys c r e w sending) h =
      let (deaf, _) = All-middle _ xs ys c (rw e at h.unheard) in absurd (deaf w (ground arith))
  Step-Stuck (cancels xs ys c e w) h =
      let (_, rest) = All-middle _ xs ys c (rw e at h.unheard) in
      (
        record {
          held = h.held;
          unheard = All-put _ xs ys _ (λ p. absurd (waiting-ne-leaving p)) rest;
        },
        refl,
      )
  Step-Stuck (leaves xs ys c result e w free) h = absurd (cc (free, h.held))

  -- An invoker whose lock is held for a send on a channel on which no call waits stays so in every
  -- run: whatever its goroutines do, no call returns any more.
  pub Steps-Stuck :
      {s t : Calls} → Steps s t → Stuck ch resp s → Stuck ch resp t × (t.returned ≡ s.returned)
  Steps-Stuck here h = (h, refl)
  Steps-Stuck (next before st) h =
      let (h', same) = Steps-Stuck before h in
      let (h'', same') = Step-Stuck st h' in (h'', same' ∙ same)

-- A call that is cancelled just before its response is handed over.
abbrev cancelled : InvokeResponse → Calls
cancelled resp = record {
  invoke_map = (resp.request_id, 0) ∷ [];
  chans = resp.request_id ∷ [];
  callers = record { request_id = resp.request_id; chan = 0; phase = leaving none } ∷ [];
  arrived = [];
  sending = some (0, resp);
  returned = [];
}

module _ (resp : InvokeResponse) where
  -- The states on the way: the call waits, the context is done, the response has come.
  abbrev called : Calls
  called = record {
    invoke_map = (resp.request_id, 0) ∷ [];
    chans = resp.request_id ∷ [];
    callers = record { request_id = resp.request_id; chan = 0; phase = waiting } ∷ [];
    arrived = [];
    sending = none;
    returned = [];
  }

  abbrev left : Calls
  left = record called {
    callers = record { request_id = resp.request_id; chan = 0; phase = leaving none } ∷ [];
  }

  first : Step no_calls called
  unfolding begin_invoke get_response_chan Dict.lookup Dict.insert
  first = begins resp.request_id true refl

  second : Step called left
  second =
      cancels [] [] (record { request_id = resp.request_id; chan = 0; phase = waiting }) refl refl

  third : Step left (record left { arrived = resp ∷ [] })
  third = arrives resp

  taken : receive_response left resp ≡ cancelled resp
  unfolding receive_response Dict.lookup
  taken = rw (eq_refl resp.request_id, receive_response)

  fourth : Step (record left { arrived = resp ∷ [] }) (cancelled resp)
  fourth =
      subst (λ s. Step (record left { arrived = resp ∷ [] }) s) taken
        (receives [] [] resp refl refl)

  cancelled-Steps : Steps no_calls (cancelled resp)
  cancelled-Steps = next (next (next (next here first) second) third) fourth

cancelled-Stuck : (resp : InvokeResponse) → Stuck 0 resp (cancelled resp)
cancelled-Stuck resp = record { held = refl; unheard = ((λ p. absurd (waiting-ne-leaving p)), tt) }

-- For every response there is a run from the start of an invoker that ends with the lock held for a
-- send on a channel on which no call waits: the one call was cancelled, and its response took the
-- lock before the call did.
pub invoke_deadlock :
    (resp : InvokeResponse)
    → (s : Calls) × Steps no_calls s
      × (s.callers ≡ record { request_id = resp.request_id; chan = 0; phase = leaving none } ∷ [])
      × Stuck 0 resp s
invoke_deadlock resp = (cancelled resp, cancelled-Steps resp, refl, cancelled-Stuck resp)
