-- ===== src/Locks.antt =====
-- src/kernel/locks.c: the interrupt nesting of a hart, spinlocks and who holds them.
-- `Cpu` is `struct cpu` with the hart's SIE bit (`get_intr`, `enable_intr`, `disable_intr` of
-- src/kernel/regs.h); `hart` is the index that `get_cpu_struct` reads from tp, so `lock->cpu` is an
-- optional hart. Names of locks are only printed and are left out.
pub mod Intr
pub mod Spin
pub mod Mutex
mod Tests
use risc_v_os.Base.{
  ℕ, ◌+◌, ◌-◌, Bool, true, false, ◌&&◌, not, Option, none, some, List, [], ◌∷◌, ◌==◌, if◌then◌else◌,
}
use risc_v_os.Base.Outcome.{Outcome, done, panic, asleep, panic_if, ◌>>=◌, ◌>>◌}

pub record Cpu : Type 0 where
  pub depth_lock_intr_disable : ℕ
  pub intr_prev_state : Bool
  pub intr : Bool

pub record Spinlock : Type 0 where
  pub locked : Bool
  pub cpu : Option ℕ

abbrev pub initlock : Spinlock
initlock = record { locked = false; cpu = none }

unfoldable pub lock_intr_disable : Cpu → Cpu
lock_intr_disable c = record {
  depth_lock_intr_disable = c.depth_lock_intr_disable + 1;
  intr_prev_state = if c.depth_lock_intr_disable == 0 then c.intr else c.intr_prev_state;
  intr = false;
}

-- A depth of 0 would become negative, at which the code panics.
unfoldable pub lock_intr_enable : Cpu → Outcome Cpu
lock_intr_enable c =
    if c.intr
    then panic
    else if c.depth_lock_intr_disable == 0
    then panic
    else done (record c {
      depth_lock_intr_disable = c.depth_lock_intr_disable - 1;
      intr = if (c.depth_lock_intr_disable == 1) && c.intr_prev_state then true else c.intr;
    })

abbrev pub is_cpu : Option ℕ → ℕ → Bool
is_cpu none hart = false
is_cpu (some h) hart = h == hart

-- `lock->locked && lock->cpu == get_cpu_struct()`
abbrev pub holds : ℕ → Spinlock → Bool
holds hart lock = lock.locked && is_cpu lock.cpu hart

unfoldable pub is_holding : ℕ → Spinlock → Cpu → Outcome (Bool × Cpu)
unfolding lock_intr_disable lock_intr_enable
is_holding hart lock c = do c' ← lock_intr_enable (lock_intr_disable c); done (holds hart lock, c')

-- The atomic test-and-set loop. Each item of the list is what the other harts do to the lock
-- between two attempts; when none is left the hart still spins.
unfoldable pub spin : List (Spinlock → Spinlock) → Spinlock → Outcome Spinlock
spin [] lock = if lock.locked then asleep else done (record lock { locked = true })
spin (others ∷ rest) lock =
    let later = spin rest (others lock) in
    if lock.locked then later else done (record lock { locked = true })

unfoldable pub acquire_lock :
    ℕ → List (Spinlock → Spinlock) → Spinlock → Cpu → Outcome (Spinlock × Cpu)
unfolding is_holding spin
acquire_lock hart others lock c = do
  (held, c') ← is_holding hart lock (lock_intr_disable c)
  panic_if held
  lock' ← spin others lock
  done (record lock' { cpu = some hart }, c')

unfoldable pub release_lock : ℕ → Spinlock → Cpu → Outcome (Spinlock × Cpu)
unfolding is_holding
release_lock hart lock c = do
  (held, c') ← is_holding hart lock c
  panic_if (not held)
  c'' ← lock_intr_enable c'
  done (record { locked = false; cpu = none }, c'')
