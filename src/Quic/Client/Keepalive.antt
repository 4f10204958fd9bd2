-- ===== src/Quic/Client/Keepalive.antt =====
-- rpc/quic/cli/client.go: the goroutines that `ConnectTo` starts to keep the connection.
use zhangyu.Base.{ℕ, suc, ◌+◌, ◌≤◌, ◌≡◌, refl, Bool, true, false, ◌⊎◌, inl, inr, arith}

-- How many goroutines stand before the test of `keepaliveRun`, between the test and the assignment, and in
-- the loop, and how many heartbeats were started.
pub record Loops : Type 0 where
  pub keepalive_run : Bool
  pub pending : ℕ
  pub passed : ℕ
  pub looping : ℕ
  pub heartbeats : ℕ

-- After the one call of `ConnectTo` that is not in the loop.
abbrev pub connecting : Loops
connecting = record { keepalive_run = false; pending = 1; passed = 0; looping = 0; heartbeats = 0 }

-- One statement of one goroutine; a loop may call `ConnectTo` whenever it finds no connection.
pub data Step (l : Loops) : Loops → Type 0 where
  returns : (n : ℕ) → l.pending ≡ suc n → l.keepalive_run ≡ true → Step l (record l { pending = n })
  passes :
      (n : ℕ)
      → l.pending ≡ suc n
      → l.keepalive_run ≡ false
      → Step l (record l { pending = n; passed = suc l.passed; heartbeats = suc l.heartbeats })
  enters :
      (n : ℕ)
      → l.passed ≡ suc n
      → Step l (record l { passed = n; keepalive_run = true; looping = suc l.looping })
  reconnects : (n : ℕ) → l.looping ≡ suc n → Step l (record l { pending = suc l.pending })
  ends : (n : ℕ) → l.looping ≡ suc n → Step l (record l { looping = n })

pub data Steps (l : Loops) : Loops → Type 0 where
  here : Steps l l
  next : {m n : Loops} → Steps l m → Step m n → Steps l n

abbrev Waits : Loops → Type 0
Waits l =
    (l.keepalive_run ≡ false)
    × (l.looping ≡ 0)
    × (l.pending + l.passed ≤ 1)
    × (l.heartbeats ≡ l.passed)

abbrev Runs : Loops → Type 0
Runs l = (l.keepalive_run ≡ true) × (l.passed ≡ 0) × (l.looping ≤ 1) × (l.heartbeats ≡ 1)

Step-Waits : {l m : Loops} → Step l m → Waits l → Waits m ⊎ Runs m
Step-Waits (returns n e run) (off, none_loops, few, same) = absurd (cc (run, off))
Step-Waits (passes n e run) (off, none_loops, few, same) =
    inl (off, none_loops, omega (arith, e), omega (arith, same))
Step-Waits (enters n e) (off, none_loops, few, same) =
    inr (refl, omega (arith, e), omega (arith, none_loops), omega (arith, e, same))
Step-Waits (reconnects n e) (off, none_loops, few, same) = absurd (omega (arith, e, none_loops))
Step-Waits (ends n e) (off, none_loops, few, same) = absurd (omega (arith, e, none_loops))

Step-Runs : {l m : Loops} → Step l m → Runs l → Runs m
Step-Runs (returns n e run) (on, none_pass, one, beats) = (on, none_pass, one, beats)
Step-Runs (passes n e run) (on, none_pass, one, beats) = absurd (cc (run, on))
Step-Runs (enters n e) (on, none_pass, one, beats) = absurd (omega (arith, e, none_pass))
Step-Runs (reconnects n e) (on, none_pass, one, beats) = (on, none_pass, one, beats)
Step-Runs (ends n e) (on, none_pass, one, beats) = (on, none_pass, omega (arith, e), beats)

Steps-cases : {l : Loops} → Steps connecting l → Waits l ⊎ Runs l
Steps-cases here = inl (refl, refl, omega arith, refl)
Steps-cases (next before st) = elim (Steps-cases before) [
  | inl w ↦ Step-Waits st w
  | inr r ↦ inr (Step-Runs st r)
]

-- However often the loop reconnects, at most one goroutine runs the loop that keeps the connection,
-- and at most one heartbeat was started, if the program calls `ConnectTo` once itself.
pub keepalive_single : {l : Loops} → Steps connecting l → (l.looping ≤ 1) × (l.heartbeats ≤ 1)
keepalive_single r = elim (Steps-cases r) [
  | inl (_, none_loops, few, same) ↦ (omega (arith, none_loops), omega (arith, few, same))
  | inr (_, _, one, beats) ↦ (one, omega (arith, beats))
]
