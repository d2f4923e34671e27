-- ===== src/Log/Tests.antt =====
-- Runs of the log, and the theorems at a log that starts at block 2.
use risc_v_os.Base.{ℕ, ◌+◌, ◌≡◌, ◌≢◌, ◌<◌, ◌≤◌, ◌*◌, inr, refl, true, false, [], arith}
use risc_v_os.Base.Family.{update}
use risc_v_os.Base.Outcome.{done, asleep}
use risc_v_os.Log.{
  Log, State, logsize, maxlogops, write_log, commit, recover_from_log, init_log, log_write,
  must_wait, enter, begin_op,
}
use risc_v_os.Log.Blocks.{IsValid}
use risc_v_os.Log.Commit.{logged}
use risc_v_os.Log.Recover.{rebooted, recover_from_log_lem, init_log-loses_commit}
use risc_v_os.Log.Write.{HasRoom, Logged, log_write_lem}
use risc_v_os.Log.Operation.{begin_op_lem}

-- A log whose entry `j` is block `50 + j`, a cache of ones over a disk of zeros.
abbrev log_of : ℕ → ℕ → Log
log_of count calls = record {
  start = 2;
  size = 1000;
  commit = false;
  num_syscalls = calls;
  count = count;
  block = λ j. 50 + j;
}

abbrev state_of : ℕ → ℕ → State
state_of count calls = record {
  log = log_of count calls;
  cache = λ b i. 1;
  disk = λ b i. 0;
  pins = λ b. 0;
}

log_of-IsValid : (count calls : ℕ) → count ≤ 30 → IsValid (log_of count calls)
log_of-IsValid count calls h = record {
  few = h;
  home = λ j lt. inr (omega arith);
  distinct = λ j k hj hk e. omega arith;
}

log_of-HasRoom : (count : ℕ) → count < 30 → HasRoom (log_of count 1)
log_of-HasRoom count h = record { below = h; fits = omega arith; inside = omega arith }

commit_runs : (commit (state_of 2 0)).disk 51 7 ≡ 1
unfolding commit update
commit_runs = refl

recovery_keeps : (recover_from_log (rebooted (logged (state_of 2 0)).disk)).disk 51 7 ≡ 0
unfolding recover_from_log update write_log
recovery_keeps = refl

recover_from_log_lem_example :
    ((b : ℕ)
      → 2 ≢ b
      → ((recover_from_log (state_of 0 0)).disk b ≡ (state_of 0 0).disk b)
        × ((recover_from_log (state_of 0 0)).cache b ≡ (state_of 0 0).cache b))
    × ((recover_from_log (state_of 0 0)).disk 2 0 ≡ 0)
recover_from_log_lem_example = recover_from_log_lem (state_of 0 0) refl

init_log-loses_commit_example :
    ((logged (state_of 2 0)).disk 2 0 ≡ 2)
    × ((init_log 2 1000 (rebooted (logged (state_of 2 0)).disk)).disk 2 0 ≡ 0)
    × ((j : ℕ)
        → j < 2
        → (init_log 2 1000 (rebooted (logged (state_of 2 0)).disk)).disk (50 + j)
          ≡ (state_of 2 0).disk (50 + j))
init_log-loses_commit_example =
    init_log-loses_commit (state_of 2 0) 1000 (log_of-IsValid 2 0 (omega arith)) (omega arith)

log_write_lem_example :
    (t : State) × (log_write 51 (state_of 2 1) ≡ done t) × Logged 51 (state_of 2 1) t
log_write_lem_example =
    log_write_lem 51 (state_of 2 1) (log_of-IsValid 2 1 (omega arith))
      (log_of-HasRoom 2 (omega arith)) (inr (omega arith))

begin_op_lem_example :
    (must_wait (log_of 2 0) ≡ false → begin_op [] (state_of 2 0) ≡ done (enter (state_of 2 0)))
    × (must_wait (log_of 2 0) ≡ true → begin_op [] (state_of 2 0) ≡ asleep)
    × ((t : State)
        → begin_op [] (state_of 2 0) ≡ done t
        → (t.log.commit ≡ false)
          × (0 < t.log.num_syscalls)
          × (t.log.count + t.log.num_syscalls * maxlogops ≤ logsize))
begin_op_lem_example = begin_op_lem [] (state_of 2 0)
