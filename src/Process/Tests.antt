-- ===== src/Process/Tests.antt =====
-- Runs of the process functions, and the theorems at a small table.
use risc_v_os.Base.{ℕ, ◌≡◌, refl, true, false, none, List, [], ◌∷◌}
use risc_v_os.Base.Outcome.{done}
use risc_v_os.Locks.{Cpu, initlock}
use risc_v_os.Locks.Intr.{IsValid}
use risc_v_os.Locks.Spin.{held_by}
use risc_v_os.Process.{Process, ProcState, sleeping, running, runnable, unused, wakeup, sleep}
use risc_v_os.Process.Wakeup.{SameCpu, woken_from, wakeup_lem, has_pid}
use risc_v_os.Process.Sleep.{sleep_lem}

abbrev idle : Cpu
idle = record { depth_lock_intr_disable = 0; intr_prev_state = false; intr = true }

idle-IsValid : IsValid idle
idle-IsValid = record { masked = λ h. elim h [ ] }

abbrev one_deep : Cpu
one_deep = record { depth_lock_intr_disable = 1; intr_prev_state = true; intr = false }

abbrev proc_with : ProcState → ℕ → ℕ → Process
proc_with state channel pid = record {
  lock = initlock;
  state = state;
  sleep_channel = channel;
  killed = false;
  exit_state = 0;
  process_id = pid;
  parent = none;
}

abbrev table : List Process
table = proc_with running 0 1 ∷ proc_with sleeping 40 2 ∷ proc_with sleeping 44 3 ∷ []

wakeup_lem_example :
    (d : Cpu) × (wakeup 0 0 40 table idle ≡ done (woken_from 0 40 0 table, d)) × SameCpu idle d
wakeup_lem_example =
    wakeup_lem 0 0 40 table idle idle-IsValid ((λ h. refl), ((λ h. refl), ((λ h. refl), tt)))

woken_one :
    woken_from 0 40 0 table
    ≡ proc_with running 0 1 ∷ proc_with runnable 40 2 ∷ proc_with sleeping 44 3 ∷ []
woken_one = refl

-- An unused slot has the id 0, so `kill(0)` marks it and reports success.
kill_unused_slot : has_pid 0 (proc_with unused 0 0 ∷ []) ≡ true
unfolding has_pid
kill_unused_slot = refl

sleep_lem_example :
    sleep {S = ℕ} 0 40 (λ (k, l, n). (true, l, 7)) (held_by 0, 5) (proc_with running 0 1) one_deep
    ≡ done (
      (held_by 0, 7),
      record (proc_with running 0 1) {
        lock = initlock;
        state = running;
        sleep_channel = 0;
        killed = true;
      },
      one_deep,
    )
sleep_lem_example =
    sleep_lem 0 40 (λ (k, l, n). (true, l, 7)) 5 7 true (proc_with running 0 1)
      (record { depth = refl; intr = refl }) refl refl
