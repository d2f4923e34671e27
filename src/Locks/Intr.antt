-- ===== src/Locks/Intr.antt =====
-- Matched disabling and enabling of interrupts (`lock_intr_disable`, `lock_intr_enable`).
use risc_v_os.Base.{ℕ, zero, suc, ◌<◌, ◌≡◌, refl, ap, ◌∙◌, false, arith, ◌==◌, if◌then◌else◌}
use risc_v_os.Base.Outcome.{Outcome, done, ◌>>=◌}
use risc_v_os.Locks.{Cpu, lock_intr_disable, lock_intr_enable, is_holding, holds, Spinlock}

-- Interrupts are off on a hart that is inside a disabled section.
pub record IsValid (c : Cpu) : Type 0 where
  pub masked : 0 < c.depth_lock_intr_disable → c.intr ≡ false

pub lock_intr_disable-IsValid : (c : Cpu) → IsValid (lock_intr_disable c)
unfolding lock_intr_disable
lock_intr_disable-IsValid c = record { masked = λ h. refl }

-- What a matched pair leaves: at depth 0 the interrupt state has been recorded.
abbrev pub settled : Cpu → Cpu
settled c = record c {
  intr_prev_state = if c.depth_lock_intr_disable == 0 then c.intr else c.intr_prev_state;
}

pub lock_intr_pair :
    (c : Cpu) → IsValid c → lock_intr_enable (lock_intr_disable c) ≡ done (settled c)
unfolding lock_intr_disable lock_intr_enable
lock_intr_pair c v = ground (arith, v.masked)

pub settled-IsValid : (c : Cpu) → IsValid c → IsValid (settled c)
settled-IsValid c v = record { masked = v.masked }

-- Whatever `lock_intr_enable` accepts, it leaves a valid state.
pub lock_intr_enable-IsValid : (c : Cpu) {d : Cpu} → lock_intr_enable c ≡ done d → IsValid d
unfolding lock_intr_enable
lock_intr_enable-IsValid c e = record { masked = λ h. ground arith }

pub is_holding_lem :
    (hart : ℕ) (lock : Spinlock) (c : Cpu)
    → IsValid c
    → is_holding hart lock c ≡ done (holds hart lock, settled c)
unfolding is_holding
is_holding_lem hart lock c v = rw (lock_intr_pair c v)

unfoldable pub disable_times : ℕ → Cpu → Cpu
disable_times zero c = c
disable_times (suc n) c = disable_times n (lock_intr_disable c)

unfoldable pub enable_times : ℕ → Cpu → Outcome Cpu
enable_times zero c = done c
enable_times (suc n) c = enable_times n c >>= lock_intr_enable

nested-settled : (c : Cpu) → settled (lock_intr_disable c) ≡ lock_intr_disable c
unfolding lock_intr_disable
nested-settled c = ground arith

-- Any depth of matched calls never panics and gives back the depth and the interrupt state that
-- stood before them.
pub enable_times-disable_times :
    (n : ℕ) (c : Cpu)
    → IsValid c
    → (d : Cpu) × (enable_times n (disable_times n c) ≡ done d)
      × (d.depth_lock_intr_disable ≡ c.depth_lock_intr_disable)
      × (d.intr ≡ c.intr)
unfolding disable_times enable_times
enable_times-disable_times zero c v = (c, refl, refl, refl)
enable_times-disable_times (suc n) c v =
    (settled c, rw (balanced n c v) (lock_intr_pair c v), refl, refl)
  where
    balanced :
        (n : ℕ) (c : Cpu)
        → IsValid c
        → enable_times n (disable_times n (lock_intr_disable c)) ≡ done (lock_intr_disable c)
    balanced zero c v = refl
    balanced (suc n) c v = rw (balanced n (lock_intr_disable c) (lock_intr_disable-IsValid c)) (
        lock_intr_pair (lock_intr_disable c) (lock_intr_disable-IsValid c)
        ∙ ap done (nested-settled c))
