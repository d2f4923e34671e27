-- ===== src/Pipe/Tests.antt =====
-- Runs of the pipe functions, and the theorems at concrete pipes.
use risc_v_os.Base.{
  ℕ, ◌-◌, ◌≡◌, refl, true, false, Option, none, some, List, [], ◌∷◌, ◌++◌, arith, inr,
  if◌then◌else◌, ltb,
}
use risc_v_os.Base.Outcome.{done, panic, asleep}
use risc_v_os.Locks.{initlock, acquire_lock, release_lock}
use risc_v_os.Process.{Process, running, runnable, sleeping, get_process_struct, sleep, wakeup}
use risc_v_os.Process.Wakeup.{OthersFree, woken_from}
use risc_v_os.Pipe.{Pipe, State, pipewrite, piperead}
use risc_v_os.Pipe.Ring.{IsValid}
use risc_v_os.Pipe.Critical.{Ready}
use risc_v_os.Pipe.Write.{Wrote, append_fetched, pipewrite_lem}
use risc_v_os.Pipe.Read.{DidRead, deliver, piperead_lem}
use risc_v_os.Pipe.Stream.{piperead-pipewrite}
use risc_v_os.Pipe.Close.{pipewrite-panic}

-- Both counters are one byte below the wrap.
abbrev fresh : Pipe
fresh = record {
  bytes = λ i. 0;
  num_read = 4294967295;
  num_write = 4294967295;
  read_open = true;
  write_open = true;
}

abbrev caller : Process
caller = record {
  lock = initlock;
  state = running;
  sleep_channel = 0;
  killed = false;
  exit_state = 0;
  process_id = 3;
  parent = none;
}

-- Process 0 sleeps until the pipe at address 0 has bytes.
abbrev reader : Process
reader = record caller { state = sleeping; sleep_channel = 524 }

abbrev state : State
state = record {
  lock = initlock;
  pipe = fresh;
  proc = caller;
  cpu = record { depth_lock_intr_disable = 0; intr_prev_state = false; intr = true };
  self = 1;
  procs = reader ∷ caller ∷ [];
}

-- Bytes 65, 66, … at address 100 and after; nothing is mapped from 103 on.
abbrev source : ℕ → Option ℕ
source a = if ltb a 103 then some (a - 35) else none

abbrev sink : ℕ → ℕ → List ℕ → Option (List ℕ)
sink a ch mem = some (mem ++ (ch ∷ []))

state_others : OthersFree 1 0 (reader ∷ caller ∷ [])
state_others = (λ other. refl, (λ other. refl, tt))

Ready-state : Ready state
Ready-state = record { free = refl; depth = refl; others = state_others }

fresh-IsValid : IsValid fresh
fresh-IsValid = omega arith

pipewrite_lem_example :
    (r : ℕ × State) × (pipewrite 0 0 source [] 5 100 state ≡ done r)
    × Wrote 0 state (append_fetched source 100 5 0 []) r
pipewrite_lem_example =
    pipewrite_lem 0 0 source 100 [] 5 state Ready-state fresh-IsValid refl (omega arith)

fetched_three : append_fetched source 100 5 0 [] ≡ (3, 65 ∷ 66 ∷ 67 ∷ [])
unfolding append_fetched
fetched_three = refl

piperead_lem_example :
    (r : Option ℕ × List ℕ × State) × (piperead 0 0 sink [] 4 0 []
        (record state { pipe = record fresh { write_open = false } })
      ≡ done r)
    × DidRead (deliver sink 0 4 0 [] []) (woken_from 1 528 0 (reader ∷ caller ∷ [])) r
piperead_lem_example =
    piperead_lem 0 0 sink 0 [] 4 [] (record state { pipe = record fresh { write_open = false } })
      (record { free = refl; depth = refl; others = state_others }) (omega arith) (inr refl)

-- Two bytes across the wrap of the counters.
piperead-pipewrite_example :
    (t : State) × (pipewrite 0 0 source [] 2 100 state ≡ done (2, t))
    × ((r : Option ℕ × List ℕ × State) × (piperead 0 0 sink [] 2 0 [] t ≡ done r)
        × DidRead (deliver sink 0 2 0 [] (65 ∷ 66 ∷ [])) (woken_from t.self 528 0 t.procs) r)
piperead-pipewrite_example =
    piperead-pipewrite 0 0 source 100 sink 0 2 [] (65 ∷ 66 ∷ []) state Ready-state fresh-IsValid
      refl (refl, (refl, tt)) (omega arith) (omega arith)

delivered_in_order : deliver sink 0 2 0 [] (65 ∷ 66 ∷ []) ≡ (2, 65 ∷ 66 ∷ [], [])
unfolding deliver
delivered_in_order = refl

pipewrite-panic_example :
    pipewrite 0 0 source [] 1 100 (record state { pipe = record fresh { read_open = false } })
    ≡ panic
pipewrite-panic_example =
    pipewrite-panic 0 0 source 100 [] 0 (record state { pipe = record fresh { read_open = false } })
      (record { free = refl; depth = refl; others = state_others }) refl refl

-- The sleeping reader is woken by the end of a write.
wakes_reader :
    woken_from 1 524 0 (reader ∷ caller ∷ []) ≡ record reader { state = runnable } ∷ caller ∷ []
wakes_reader = refl

-- A full ring and no reader to come.
full_pipe_sleeps :
    pipewrite 0 0 source [] 1 100 (record state { pipe = record fresh { num_write = 511 } })
    ≡ asleep
unfolding pipewrite get_process_struct sleep wakeup acquire_lock release_lock
full_pipe_sleeps = refl
