-- ===== src/Process/Sleep.antt =====
-- What `sleep` promises its caller.
use risc_v_os.Base.{ℕ, ◌≡◌, refl, ap, ◌∙◌, Bool, false, [], arith, ==-self}
use risc_v_os.Base.Outcome.{done}
use risc_v_os.Locks.{
  Cpu, Spinlock, initlock, lock_intr_disable, lock_intr_enable, acquire_lock, release_lock,
}
use risc_v_os.Locks.Intr.{IsValid, settled, is_holding_lem}
use risc_v_os.Locks.Spin.{acquire_lock-free, release_lock-held, release_lock-done, held_by}
use risc_v_os.Process.{Process, sleeping, running, scheduler, sleep}
use risc_v_os.Process.Wakeup.{get_process_struct_lem}

-- A hart inside exactly one critical section.
pub record OneDeep (c : Cpu) : Type 0 where
  pub depth : c.depth_lock_intr_disable ≡ 1
  pub intr : c.intr ≡ false

module _ {c : Cpu} (one : OneDeep c) where
  pub OneDeep-IsValid : IsValid c
  OneDeep-IsValid = record { masked = λ h. one.intr }

  pub OneDeep-settled : settled c ≡ c
  OneDeep-settled = ground arith

  -- The state after the last enclosing lock is released.
  abbrev pub opened : Cpu
  opened = record c { depth_lock_intr_disable = 0; intr = c.intr_prev_state }

  pub lock_intr_enable-opened : lock_intr_enable c ≡ done opened
  unfolding lock_intr_enable
  lock_intr_enable-opened = ground arith

  pub lock_intr_disable-opened : lock_intr_disable opened ≡ c
  unfolding lock_intr_disable
  lock_intr_disable-opened = ground arith

  pub release_lock-opened :
      (hart : ℕ) → release_lock hart (held_by hart) c ≡ done (initlock, opened)
  release_lock-opened hart =
      release_lock-done hart (held_by hart) c OneDeep-IsValid opened (==-self hart)
        (ap lock_intr_enable OneDeep-settled ∙ lock_intr_enable-opened)

  pub acquire_lock-opened :
      (hart : ℕ) → acquire_lock hart [] initlock opened ≡ done (held_by hart, c)
  acquire_lock-opened hart =
      acquire_lock-free hart initlock opened (record { masked = λ h. elim h [ ] }) refl
      ∙ ap (λ d. done (held_by hart, d)) lock_intr_disable-opened

  scheduler_lem :
      (hart : ℕ) (proc : Process)
      → proc.lock ≡ held_by hart
      → proc.state ≡ sleeping
      → scheduler hart proc c ≡ done (record proc { state = running }, c)
  unfolding scheduler
  scheduler_lem hart proc l s =
      rw
        (
          is_holding_lem hart proc.lock c OneDeep-IsValid,
          OneDeep-settled,
          l,
          one.depth,
          one.intr,
          s,
        )
        (rw (==-self hart))

-- A caller that holds one lock, with its own process lock free, and with `others` leaving the
-- caller's lock free when the process is scheduled again: `sleep` panics nowhere and returns with
-- the lock held again and what the others did to the shared object and the `killed` mark in place;
-- the process is running, on no channel, and the hart's state is as before the call.
pub sleep_lem {ℓ} :
    {S : Type ℓ} (hart channel : ℕ) (others : Bool × Spinlock × S → Bool × Spinlock × S) (s s' : S)
    (k : Bool) (proc : Process) {c : Cpu}
    → OneDeep c
    → proc.lock ≡ initlock
    → others (proc.killed, initlock, s) ≡ (k, initlock, s')
    → sleep hart channel others (held_by hart, s) proc c
      ≡ done (
        (held_by hart, s'),
        record proc { lock = initlock; state = running; sleep_channel = 0; killed = k },
        c,
      )
unfolding sleep
sleep_lem hart channel others s s' k proc {c} one free e = rw (
  get_process_struct_lem c (OneDeep-IsValid one),
  OneDeep-settled one,
  acquire_lock-free hart proc.lock c (OneDeep-IsValid one) (ap (λ l. l.locked) free),
  release_lock-held hart c (OneDeep-IsValid one),
  OneDeep-settled one,
  scheduler_lem one hart
      (record proc { lock = held_by hart; sleep_channel = channel; state = sleeping }) refl refl,
  e,
  release_lock-opened one hart,
  acquire_lock-opened one hart,
)
