-- ===== src/Samples/RpcTests.antt =====
-- rpc/invoke.go: runs at concrete inputs.
use zhangyu.Base.{
  All, ℕ, ◌≡◌, refl, true, false, none, some, [], ◌∷◌, ◌++◌, inr, arith, returns, panics,
}
use zhangyu.Base.Dict
use zhangyu.Base.Text.{to_lower, trim_space}
use zhangyu.Utils.Bytes.{int_to_bytes}
use zhangyu.Utils.Cache
use zhangyu.Rpc.Models.{InvokeRequest, InvokeResponse, new_invoke_request, new_success_response}
use zhangyu.Rpc.Frame.{got, read_invoke_str, read_many, write_frame, write_many}
use zhangyu.Rpc.Frame.Laws.{
  read_invoke_str-write_frame, read_many-write_many, read_invoke_str_misfit,
}
use zhangyu.Rpc.Calls.{
  waiting, leaving, Calls, no_calls, get_response_chan, remove_response_chan, receive_response,
  begin_invoke, Step, begins, arrives, receives, delivers, leaves, Steps, here, next,
}
use zhangyu.Rpc.Calls.Invariant.{Answers, Steps-Answers}
use zhangyu.Rpc.Calls.Blocked.{Stuck, Steps-Stuck, invoke_deadlock}
use zhangyu.Rpc.Route.{
  InvokeRoute, new_invoke_route, path_key, add_uni_handler, get_uni_handler, close_invoker,
  remove_invoker_of, run_uni, Round, request, read_error, has_invoke, dispatch_invoke,
}
use zhangyu.Rpc.Route.Laws.{again, idle, one_way, fails, dispatch_invoke-Ends}
use zhangyu.Samples.Ascii.{ascii, ascii_lower}

abbrev answer : InvokeResponse
answer = new_success_response "r1" "done"

-- A call, its cancellation, and its late response.
invoke_deadlock_example :
    (s : Calls) × Steps no_calls s
    × (s.callers ≡ record { request_id = "r1"; chan = 0; phase = leaving none } ∷ [])
    × Stuck 0 answer s
invoke_deadlock_example = invoke_deadlock answer

abbrev stuck : Calls
stuck = (invoke_deadlock answer).0

Steps-Stuck_example :
    Stuck 0 answer (record stuck { arrived = answer ∷ stuck.arrived })
    × (stuck.returned ≡ stuck.returned)
Steps-Stuck_example = Steps-Stuck 0 answer (next here (arrives answer)) (invoke_deadlock answer).3

-- A call that gets its response: it waits, the response comes and is handed over, and it returns.
abbrev waits : Calls
waits = record {
  invoke_map = ("r1", 0) ∷ [];
  chans = "r1" ∷ [];
  callers = record { request_id = "r1"; chan = 0; phase = waiting } ∷ [];
  arrived = [];
  sending = none;
  returned = [];
}

abbrev served : Calls
served = record waits {
  callers = record { request_id = "r1"; chan = 0; phase = leaving (some answer) } ∷ [];
}

abbrev finished : Calls
finished = record no_calls { chans = "r1" ∷ []; returned = ("r1", some answer) ∷ [] }

begins_waiting : Step no_calls waits
unfolding begin_invoke get_response_chan Dict.lookup Dict.insert
begins_waiting = begins "r1" true refl

takes_lock :
    Step (record waits { arrived = answer ∷ [] }) (record waits { sending = some (0, answer) })
unfolding receive_response Dict.lookup
takes_lock = receives [] [] answer refl refl

hands_over : Step (record waits { sending = some (0, answer) }) served
hands_over =
    delivers [] [] (record { request_id = "r1"; chan = 0; phase = waiting }) answer refl refl refl

returns_answer : Step served finished
unfolding remove_response_chan Dict.delete
returns_answer =
    leaves [] [] (record { request_id = "r1"; chan = 0; phase = leaving (some answer) })
      (some answer) refl refl refl

finished-Steps : Steps no_calls finished
finished-Steps =
    next (next (next (next (next here begins_waiting) (arrives answer)) takes_lock) hands_over)
      returns_answer

Steps-Answers_example : All (λ r. Answers r.0 r.1) finished.returned
Steps-Answers_example = Steps-Answers finished-Steps

read_invoke_str-write_frame_example :
    read_invoke_str 1000 (write_frame (104 ∷ 105 ∷ []) ++ 7 ∷ [])
    ≡ returns (got (104 ∷ 105 ∷ []) (7 ∷ []))
read_invoke_str-write_frame_example =
    read_invoke_str-write_frame 1000 (104 ∷ 105 ∷ []) (7 ∷ []) (omega arith) (omega arith)

read_many-write_many_example :
    read_many 1000 2 (write_many ((1 ∷ []) ∷ (2 ∷ 3 ∷ []) ∷ []) ++ 9 ∷ [])
    ≡ returns (got ((1 ∷ []) ∷ (2 ∷ 3 ∷ []) ∷ []) (9 ∷ []))
read_many-write_many_example =
    read_many-write_many 1000 ((1 ∷ []) ∷ (2 ∷ 3 ∷ []) ∷ []) (9 ∷ []) (ground arith) (omega arith)

-- A length of -1.
read_invoke_str_misfit_example :
    read_invoke_str 1000 (int_to_bytes 18446744073709551615 ++ 1 ∷ []) ≡ panics
read_invoke_str_misfit_example =
    read_invoke_str_misfit 1000 18446744073709551615 (1 ∷ []) (omega arith) (omega arith)

-- A route with one handler of each kind for a path, and one invoker.
abbrev empty_route : InvokeRoute ℕ ℕ ℕ
empty_route = new_invoke_route

abbrev some_route : InvokeRoute ℕ ℕ ℕ
some_route =
    add_uni_handler ascii
      (record empty_route { invokes = Cache.set_item ascii Cache.new_cache "i" 3 }) "/Listen/In" 8

abbrev listen_in : InvokeRequest
listen_in = new_invoke_request "r2" "/listen/IN"

-- Two rounds: a request is handled, and the next read fails.
abbrev good_round : Round ℕ ℕ ℕ
good_round = record { route = some_route; ctx_done = false; incoming = request listen_in }

abbrev bad_round : Round ℕ ℕ ℕ
bad_round = record { route = some_route; ctx_done = false; incoming = read_error }

dispatch_invoke-Ends_example :
    dispatch_invoke ascii "i" ((good_round ∷ []) ++ bad_round ∷ good_round ∷ [])
    ≡ (run_uni 8 listen_in ∷ []) ++ close_invoker ∷ remove_invoker_of "i" ∷ []
unfolding has_invoke Cache.has_key Cache.find Dict.lookup add_uni_handler Cache.set_item Dict.insert
    Cache.get_key trim_space to_lower ascii_lower get_uni_handler path_key
dispatch_invoke-Ends_example =
    dispatch_invoke-Ends ascii "i" (good_round ∷ []) bad_round
      (again refl refl (one_way listen_in 8 refl refl) idle) (fails refl (inr refl))
