-- ===== src/Log/Recover.antt =====
-- What `recover_from_log` does after a restart, when the count in memory is 0.
use risc_v_os.Base.{ℕ, ◌<◌, ◌≡◌, ◌≢◌, refl, subst, sym, ap, ◌∙◌, true, false, arith}
use risc_v_os.Log.{
  Block, Log, State, read_header_from, read_header, cpy_from, cpy_log_to_home, write_header,
  clear_count, recover_from_log, init_log, write_log,
}
use risc_v_os.Log.Blocks.{IsValid, write_header-other, write_header-count, write_log-other}
use risc_v_os.Log.Commit.{logged, log-write_log, start_of}

recover-empty : (s : State) → s.log.count ≡ 0 → recover_from_log s ≡ write_header (clear_count s)
unfolding recover_from_log
recover-empty s e = ap (λ t. write_header (clear_count t)) (ap (cpy_log_to_home true) read ∙ copied)
  where
    read : read_header s ≡ s
    read = ap (λ n. read_header_from n 0 s) e

    copied : cpy_log_to_home true s ≡ s
    copied = ap (λ n. cpy_from true n 0 s) e

-- After a restart recovery replays nothing: it changes no block but the header, in which it sets
-- the count to 0, whatever count and entries the header on disk holds.
pub recover_from_log_lem :
    (s : State)
    → s.log.count ≡ 0
    → ((b : ℕ)
        → s.log.start ≢ b
        → ((recover_from_log s).disk b ≡ s.disk b) × ((recover_from_log s).cache b ≡ s.cache b))
      × ((recover_from_log s).disk s.log.start 0 ≡ 0)
recover_from_log_lem s e = (
  λ b ne. (
    ap (λ t. t.disk b) (recover-empty s e) ∙ (write_header-other b (clear_count s) ne).1,
    ap (λ t. t.cache b) (recover-empty s e) ∙ (write_header-other b (clear_count s) ne).0,
  ),
  ap (λ t. t.disk s.log.start 0) (recover-empty s e) ∙ write_header-count (clear_count s),
)

-- The machine after a crash: the memory is fresh, the disk is kept.
abbrev pub rebooted : (ℕ → Block) → State
rebooted disk = record {
  log = record { start = 0; size = 0; commit = false; num_syscalls = 0; count = 0; block = λ _. 0 };
  cache = disk;
  disk = disk;
  pins = λ _. 0;
}

-- A crash right after the commit point, with the log and its header on disk and nothing copied
-- home: after the restart the header says that the log is empty, and every block that the
-- transaction wrote is what it was before. The committed transaction is lost.
pub init_log-loses_commit :
    (s : State) (size : ℕ)
    → IsValid s.log
    → 0 < s.log.count
    → ((logged s).disk s.log.start 0 ≡ s.log.count)
      × ((init_log s.log.start size (rebooted (logged s).disk)).disk s.log.start 0 ≡ 0)
      × ((j : ℕ)
          → j < s.log.count
          → (init_log s.log.start size (rebooted (logged s).disk)).disk (s.log.block j)
            ≡ s.disk (s.log.block j))
unfolding init_log
init_log-loses_commit s size v h =
    let b : State = record (rebooted (logged s).disk) {
      log = record ((rebooted (logged s).disk).log) { start = s.log.start; size = size };
    } in
    let (same, zeroed) = recover_from_log_lem b refl in
    (
      subst (λ (l : Log). (logged s).disk l.start 0 ≡ l.count) (sym (log-write_log s))
          (write_header-count (write_log s)),
      zeroed,
      λ j lt.
          let out = v.home j lt in
          let home = write_log-other s s.log v refl (s.log.block j) out in
          let header =
            write_header-other (s.log.block j) (write_log s)
              (omega (arith, start_of (log-write_log s))) in
          (same (s.log.block j) (omega arith)).0 ∙ header.1 ∙ home.1,
    )
