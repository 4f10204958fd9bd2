-- ===== src/Rpc/Calls/Invariant.antt =====
-- rpc/invoke.go: the invariant of the channels that calls wait on.
use zhangyu.Base.{
  ℕ, String, ◌≡◌, refl, sym, ◌∙◌, Bool, true, false, Option, none, some, List, [], ◌∷◌, ◌++◌,
  length, get_elem?, All, All-middle, All-put, All-map, arith, get_elem?-append_left,
  get_elem?-append_last, get_elem?-lt, Option-cases, inl, inr, Bool-cases, eq_iff, ◌==◌,
}
use zhangyu.Base.Dict
use zhangyu.Base.Dict.{lookup-insert, lookup-delete}
use zhangyu.Rpc.Models.{InvokeResponse}
use mathlib.Core.Option.{some-injective}
use zhangyu.Rpc.Calls.{
  start_phase, Phase, waiting, leaving, Caller, Calls, no_calls, get_response_chan,
  remove_response_chan, receive_response, begin_invoke, Step, begins, arrives, receives, delivers,
  cancels, leaves, Steps, here, next,
}

-- A response that belongs to a request, if there is one.
abbrev pub Answers : String → Option InvokeResponse → Type 0
Answers id none = Unit
Answers id (some resp) = resp.request_id ≡ id

abbrev PhaseAnswers : String → Phase → Type 0
PhaseAnswers id waiting = Unit
PhaseAnswers id (leaving r) = Answers id r

abbrev CallerOk : List String → Caller → Type 0
CallerOk chans c = (get_elem? chans c.chan ≡ some c.request_id) × PhaseAnswers c.request_id c.phase

-- Every channel in use was made for the identifier that it is used with.
pub record Inv (s : Calls) : Type 0 where
  pub mapped :
      (id : String) (ch : ℕ)
      → Dict.lookup id s.invoke_map ≡ some ch
      → get_elem? s.chans ch ≡ some id
  pub callers : All (CallerOk s.chans) s.callers
  pub sent :
      (ch : ℕ) (resp : InvokeResponse)
      → s.sending ≡ some (ch, resp)
      → get_elem? s.chans ch ≡ some resp.request_id
  pub returned : All (λ r. Answers r.0 r.1) s.returned

no_calls-Inv : Inv no_calls
unfolding Dict.lookup
no_calls-Inv = record {
  mapped = λ id ch e. absurd (ground arith);
  callers = tt;
  sent = λ ch resp e. absurd (ground arith);
  returned = tt;
}

PhaseAnswers-start_phase : (id : String) (written : Bool) → PhaseAnswers id (start_phase written)
PhaseAnswers-start_phase id true = tt
PhaseAnswers-start_phase id false = tt

-- `getResponseChan` keeps the invariant, and its channel was made for the identifier.
get_response_chan-Inv :
    (s : Calls) (id : String)
    → Inv s
    → Inv (get_response_chan s id).1
      × (get_elem? (get_response_chan s id).1.chans (get_response_chan s id).0 ≡ some id)
      × ((get_response_chan s id).1.sending ≡ s.sending)
unfolding get_response_chan
get_response_chan-Inv s id v = elim (Option-cases (Dict.lookup id s.invoke_map)) [
  | inr (ch, old) ↦ rw (old, get_response_chan) (v, v.mapped id ch old, refl)
  | inl fresh ↦
      rw (fresh, get_response_chan)
        (
          record {
            mapped = known;
            callers = All-map (λ c ok. (longer c.chan c.request_id ok.0, ok.1)) s.callers v.callers;
            sent = λ ch resp e. longer ch resp.request_id (v.sent ch resp e);
            returned = v.returned;
          },
          get_elem?-append_last s.chans id,
          refl,
        )
]
  where
    longer :
        (ch : ℕ) (j : String)
        → get_elem? s.chans ch ≡ some j
        → get_elem? (s.chans ++ id ∷ []) ch ≡ some j
    longer ch j e = get_elem?-append_left s.chans (id ∷ []) ch (get_elem?-lt s.chans ch j e) ∙ e

    known :
        (j : String) (ch : ℕ)
        → Dict.lookup j (Dict.insert id (length s.chans) s.invoke_map) ≡ some ch
        → get_elem? (s.chans ++ id ∷ []) ch ≡ some j
    known j ch e = elim (Bool-cases (id == j)) [
      | inl same ↦
          let last : length s.chans ≡ ch =
            some-injective _ _ (rw (lookup-insert id j (length s.chans) s.invoke_map, same) at e) in
          rw (← last, ← (eq_iff id j).0 same) (get_elem?-append_last s.chans id)
      | inr differ ↦
          longer ch j
            (v.mapped j ch (rw (lookup-insert id j (length s.chans) s.invoke_map, differ) at e))
    ]

Step-Inv : {s t : Calls} → Step s t → Inv s → Inv t
unfolding begin_invoke remove_response_chan receive_response
Step-Inv {s} (begins id written free) v =
    let (v', made, _) = get_response_chan-Inv s id v in
    record {
      mapped = v'.mapped;
      callers = ((made, PhaseAnswers-start_phase id written), v'.callers);
      sent = v'.sent;
      returned = v'.returned;
    }
Step-Inv {s} (arrives resp) v = record {
  mapped = v.mapped;
  callers = v.callers;
  sent = v.sent;
  returned = v.returned;
}
Step-Inv {s} (receives xs ys resp e free) v =
    elim (Option-cases (Dict.lookup resp.request_id s.invoke_map)) [
      | inl unknown ↦
          rw (unknown, receive_response)
            (record {
              mapped = v.mapped;
              callers = v.callers;
              sent = v.sent;
              returned = v.returned;
            })
      | inr (ch, found) ↦
          rw (found, receive_response)
            (record {
              mapped = v.mapped;
              callers = v.callers;
              sent = λ ch' resp' same.
                  let made : get_elem? s.chans ch ≡ some resp.request_id =
                    v.mapped resp.request_id ch found in
                  ground arith;
              returned = v.returned;
            })
    ]
Step-Inv {s} (delivers xs ys c resp e w sending) v = record {
  mapped = v.mapped;
  callers =
      let (ok, rest) = All-middle (CallerOk s.chans) xs ys c (rw e at v.callers) in
      let own : resp.request_id ≡ c.request_id =
        some-injective _ _ (sym (v.sent c.chan resp sending) ∙ ok.0) in
      All-put (CallerOk s.chans) xs ys (record c { phase = leaving (some resp) }) (ok.0, own) rest;
  sent = λ ch r none_some. absurd (ground arith);
  returned = v.returned;
}
Step-Inv {s} (cancels xs ys c e w) v = record {
  mapped = v.mapped;
  callers =
      let (ok, rest) = All-middle (CallerOk s.chans) xs ys c (rw e at v.callers) in
      All-put (CallerOk s.chans) xs ys (record c { phase = leaving none }) (ok.0, tt) rest;
  sent = v.sent;
  returned = v.returned;
}
Step-Inv {s} (leaves xs ys c result e w free) v =
    let (ok, rest) = All-middle (CallerOk s.chans) xs ys c (rw e at v.callers) in
    record {
      mapped = λ id ch found.
          v.mapped id ch (ground (arith, lookup-delete c.request_id id s.invoke_map));
      callers = rest;
      sent = v.sent;
      returned = (rw w at ok.1, v.returned);
    }

-- In every run of an invoker's goroutines from its start, each response that `Invoke` has returned
-- carries the identifier of the request it was returned for.
pub Steps-Answers : {s : Calls} → Steps no_calls s → All (λ r. Answers r.0 r.1) s.returned
Steps-Answers {s} r = (run r).returned
  where
    run : {t : Calls} → Steps no_calls t → Inv t
    run here = no_calls-Inv
    run (next before st) = Step-Inv st (run before)
