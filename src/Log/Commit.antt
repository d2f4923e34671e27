-- ===== src/Log/Commit.antt =====
-- The state of `commit` once its log blocks and its header are written.
use risc_v_os.Base.{◌≡◌, sym, ap}
use risc_v_os.Log.{Log, State, write_log, write_header}
use risc_v_os.Log.Blocks.{log-write_log_from}

-- The state of `commit` on a log that is not empty, after its log blocks and its header.
abbrev pub logged : State → State
logged s = write_header (write_log s)

pub log-write_log : (s : State) → s.log ≡ (write_log s).log
unfolding write_log
log-write_log s = sym (log-write_log_from s.log.count 0 s)

pub start_of : {l m : Log} → l ≡ m → l.start ≡ m.start
start_of e = ap (λ l. l.start) e
