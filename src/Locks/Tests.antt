-- ===== src/Locks/Tests.antt =====
-- Runs of the lock functions, and the theorems at concrete states.
use risc_v_os.Base.{ℕ, ◌+◌, ◌≡◌, ◌↔◌, refl, true, false, [], ◌∷◌, ap}
use risc_v_os.Base.Family.{update, update_self}
use risc_v_os.Base.Outcome.{done, panic, asleep, ◌>>=◌}
use risc_v_os.Locks.{Cpu, Spinlock, initlock, lock_intr_disable, lock_intr_enable, acquire_lock}
use risc_v_os.Locks.Intr.{IsValid}
use risc_v_os.Locks.Spin.{held_by, acquire_lock_lem}
use risc_v_os.Locks.Mutex.{
  outside, spinning, taken, critical, System, in_section, test, win, own, Reach, begin, next,
  mutual_exclusion,
}

-- A hart with interrupts on, outside every section.
abbrev idle : Cpu
idle = record { depth_lock_intr_disable = 0; intr_prev_state = false; intr = true }

idle-IsValid : IsValid idle
idle-IsValid = record { masked = λ h. elim h [ ] }

-- A second `lock_intr_enable` has no section to leave.
unmatched_enable : (lock_intr_enable (lock_intr_disable idle) >>= lock_intr_enable) ≡ panic
unfolding lock_intr_disable lock_intr_enable
unmatched_enable = refl

waits_for_other : acquire_lock 0 ((λ l. l) ∷ []) (held_by 1) idle ≡ asleep
unfolding acquire_lock
waits_for_other = refl

takes_after_other :
    acquire_lock 0 ((λ l. l) ∷ (λ _. initlock) ∷ []) (held_by 1) idle
    ≡ done (held_by 0, record { depth_lock_intr_disable = 1; intr_prev_state = true; intr = false })
unfolding acquire_lock
takes_after_other = refl

acquire_lock_lem_example :
    ((acquire_lock 0 [] initlock idle ≡ panic) ↔ (false ≡ true))
    × ((l : Spinlock) (d : Cpu)
        → acquire_lock 0 [] initlock idle ≡ done (l, d)
        → (l ≡ held_by 0) × (d.depth_lock_intr_disable ≡ 0 + 1) × (d.intr ≡ false))
acquire_lock_lem_example = acquire_lock_lem 0 initlock idle idle-IsValid []

abbrev tested : System
tested = record { lock = initlock; phase = update (λ _. outside) 2 spinning }

abbrev won : System
won = record {
  lock = record { locked = true; cpu = initlock.cpu };
  phase = update tested.phase 2 taken;
}

abbrev owning : System
owning = record { lock = held_by 2; phase = update won.phase 2 critical }

-- Hart 2 takes the free lock.
Reach-owning : Reach owning
unfolding update
Reach-owning =
    next {s = won} (next {s = tested} (next begin (test 2 refl refl)) (win 2 refl refl))
      (own 2 refl)

mutual_exclusion_example : ◌≡◌ {A = ℕ} 2 2
mutual_exclusion_example =
    mutual_exclusion {s = owning} 2 2 Reach-owning
      (ap in_section (update_self won.phase 2 critical))
      (ap in_section (update_self won.phase 2 critical))
