-- ===== src/Utils/Closer/Runs.antt =====
-- utils/closer.go: the runs of a closer.
use zhangyu.Base.{ℕ, ◌+◌, ◌≤◌, ◌≡◌, ap, none, some, List, [], ◌∷◌, ◌++◌, arith}
use zhangyu.Utils.Closer.{
  Watcher, starting, watching, closing, Closer, new_closer, set_on_close, set_ctx, ctx_cancel,
  close, call_handler, finish_close, Step, sets_handler, sets_ctx, closes, ends, reads, wakes,
  finishes, Steps, here, next,
}

-- How many goroutines have not called the handler.
abbrev pending : List Watcher → ℕ
pending [] = 0
pending (starting ∷ ws) = pending ws + 1
pending (watching i ∷ ws) = pending ws + 1
pending (closing ∷ ws) = pending ws

pending-append : (xs ys : List Watcher) → pending (xs ++ ys) ≡ pending xs + pending ys
pending-append [] ys = omega arith
pending-append (starting ∷ xs) ys = omega (arith, pending-append xs ys)
pending-append (watching i ∷ xs) ys = omega (arith, pending-append xs ys)
pending-append (closing ∷ xs) ys = omega (arith, pending-append xs ys)

abbrev Inv : Closer → Type 0
Inv c = c.calls + pending c.watchers ≤ c.sets

Step-Inv : {c d : Closer} → Step c d → Inv c → Inv d
unfolding set_on_close set_ctx close ctx_cancel call_handler finish_close
Step-Inv sets_handler h = h
Step-Inv (sets_ctx none) h = h
Step-Inv (sets_ctx (some p)) h = omega arith
Step-Inv closes h = ground arith
Step-Inv (ends i) h = h
Step-Inv (reads xs ys i e at_ctx) h =
    omega
      (arith, ap pending e, pending-append xs (starting ∷ ys), pending-append xs (watching i ∷ ys))
Step-Inv (wakes xs ys i e is_done free) h =
    ground (arith, ap pending e, pending-append xs (watching i ∷ ys), pending-append xs ys)
Step-Inv (finishes xs ys e held) h =
    omega (arith, ap pending e, pending-append xs (closing ∷ ys), pending-append xs ys)

Steps-Inv : {c d : Closer} → Steps c d → Inv c → Inv d
Steps-Inv here h = h
Steps-Inv (next before st) h = Step-Inv st (Steps-Inv before h)

-- In every run of a closer the close handler has been called at most as often as `SetCtx` made a
-- context.
closer_calls-le-sets : {c : Closer} → Steps new_closer c → c.calls ≤ c.sets
closer_calls-le-sets r = let h = Steps-Inv r (omega arith) in omega arith
