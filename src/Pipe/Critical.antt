-- ===== src/Pipe/Critical.antt =====
-- The critical section of a pipe's lock: entering, waking other processes inside it, and leaving.
use risc_v_os.Base.{ℕ, ◌≡◌, refl, ap, ◌∙◌, arith}
use risc_v_os.Base.Outcome.{done, ◌>>=◌}
use risc_v_os.Locks.{Cpu, initlock, lock_intr_disable}
use risc_v_os.Locks.Intr.{settled, settled-IsValid}
use risc_v_os.Locks.Intr
use risc_v_os.Locks.Spin.{held_by, acquire_lock-free}
use risc_v_os.Process.Wakeup.{
  get_process_struct_lem, SameCpu, OthersFree, woken_from, woken_from-OthersFree, wakeup_lem,
}
use risc_v_os.Process.Sleep.{OneDeep, OneDeep-IsValid, opened, release_lock-opened}
use risc_v_os.Pipe.{State, acquire, release, wake}

-- A caller outside every critical section, with the pipe's lock and the locks of the other
-- processes free.
pub record Ready (s : State) : Type 0 where
  pub free : s.lock ≡ initlock
  pub depth : s.cpu.depth_lock_intr_disable ≡ 0
  pub others : OthersFree s.self 0 s.procs

-- The caller inside the critical section of the pipe's lock.
pub record Inside (hart : ℕ) (s : State) : Type 0 where
  pub held : s.lock ≡ held_by hart
  pub one : OneDeep s.cpu
  pub others : OthersFree s.self 0 s.procs

abbrev pub entered : State → ℕ → State
entered s hart = record s { lock = held_by hart; cpu = lock_intr_disable (settled s.cpu) }

module _ (hart : ℕ) where
  pub entered-Inside : (s : State) → Ready s → Inside hart (entered s hart)
  unfolding lock_intr_disable
  entered-Inside s r = record {
    held = refl;
    one = record { depth = omega (arith, r.depth); intr = refl };
    others = r.others;
  }

  Ready-IsValid : (s : State) → Ready s → Intr.IsValid s.cpu
  Ready-IsValid s r = record { masked = λ h. absurd (omega (arith, r.depth)) }

  pub acquire_lem : (s : State) → Ready s → acquire hart s ≡ done (entered s hart)
  unfolding acquire
  acquire_lem s r = rw (
    get_process_struct_lem s.cpu (Ready-IsValid s r),
    acquire_lock-free hart s.lock (settled s.cpu) (settled-IsValid s.cpu (Ready-IsValid s r))
        (ap (λ l. l.locked) r.free),
  )

  pub release_lem :
      (s : State) (i : Inside hart s)
      → release hart s ≡ done (record s { lock = initlock; cpu = opened i.one })
  unfolding release
  release_lem s i = rw (i.held, release_lock-opened i.one hart)

-- After a wakeup on the channel.
abbrev pub after_wake : ℕ → State → Cpu → State
after_wake channel s c = record s { procs = woken_from s.self channel 0 s.procs; cpu = c }

module _ (hart : ℕ) where
  pub wake_lem :
      (channel : ℕ) (s : State)
      → Intr.IsValid s.cpu
      → OthersFree s.self 0 s.procs
      → (d : Cpu) × (wake hart channel s ≡ done (after_wake channel s d)) × SameCpu s.cpu d
  unfolding wake
  wake_lem channel s v free =
      let (d, e, same) = wakeup_lem hart s.self channel s.procs s.cpu v free in (d, rw e refl, same)

  -- Inside the critical section a wakeup stays there.
  pub wake-Inside :
      (channel : ℕ) (s : State)
      → Inside hart s
      → (d : Cpu) × (wake hart channel s ≡ done (after_wake channel s d))
        × Inside hart (after_wake channel s d)
  wake-Inside channel s i =
      let (d, e, same) = wake_lem channel s (OneDeep-IsValid i.one) i.others in
      (
        d,
        e,
        record {
          held = i.held;
          one = record { depth = same.depth ∙ i.one.depth; intr = same.intr ∙ i.one.intr };
          others = woken_from-OthersFree s.self channel 0 s.procs i.others;
        },
      )

  -- A wakeup and then the release of the lock, which leaves the hart outside.
  pub wake-release :
      (channel : ℕ) (s : State)
      → Inside hart s
      → (d : Cpu) × ((wake hart channel s >>= release hart)
          ≡ done
              (record s { lock = initlock; procs = woken_from s.self channel 0 s.procs; cpu = d }))
        × (d.depth_lock_intr_disable ≡ 0)
  wake-release channel s i =
      let (d, e, in_wake) = wake-Inside channel s i in
      (opened in_wake.one, rw e (release_lem hart (after_wake channel s d) in_wake), refl)
