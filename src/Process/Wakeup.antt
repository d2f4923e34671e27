-- ===== src/Process/Wakeup.antt =====
-- What `wakeup` and `kill` do to the process table.
use risc_v_os.Base.{
  ℕ, ◌+◌, ◌≡◌, ◌≢◌, refl, ap, ◌∙◌, Bool, true, false, ◌&&◌, ◌||◌, List, [], ◌∷◌, arith, ◌==◌,
  if◌then◌else◌, Bool-cases, inl, inr,
}
use risc_v_os.Base.Outcome.{done}
use risc_v_os.Locks.{Cpu, initlock}
use risc_v_os.Locks.Intr.{IsValid, settled, lock_intr_pair, settled-IsValid}
use risc_v_os.Locks.Spin.{acquire_lock-free, release_lock-held}
use risc_v_os.Process.{
  Process, runnable, is_sleeping, get_process_struct, wake_one, wakeup_from, wakeup, kill,
}

-- Nothing but the recorded interrupt state may differ.
pub record SameCpu (c d : Cpu) : Type 0 where
  pub valid : IsValid d
  pub depth : d.depth_lock_intr_disable ≡ c.depth_lock_intr_disable
  pub intr : d.intr ≡ c.intr

pub SameCpu-trans : {c d e : Cpu} → SameCpu c d → SameCpu d e → SameCpu c e
SameCpu-trans p q = record { valid = q.valid; depth = q.depth ∙ p.depth; intr = q.intr ∙ p.intr }

pub SameCpu-settled : (c : Cpu) → IsValid c → SameCpu c (settled c)
SameCpu-settled c v = record { valid = settled-IsValid c v; depth = refl; intr = refl }

-- The lock of every process but the caller's is free.
abbrev pub OthersFree : ℕ → ℕ → List Process → Type 0
OthersFree self i [] = Unit
OthersFree self i (proc ∷ rest) = (i ≢ self → proc.lock ≡ initlock) × OthersFree self (i + 1) rest

-- The effect of a wakeup on one process, and on the table from process `i` on.
abbrev pub woken : ℕ → Process → Process
woken channel proc =
    if is_sleeping proc.state && (proc.sleep_channel == channel)
    then record proc { state = runnable }
    else proc

abbrev pub woken_from : ℕ → ℕ → ℕ → List Process → List Process
woken_from self channel i [] = []
woken_from self channel i (proc ∷ rest) =
    (if i == self then proc else woken channel proc) ∷ woken_from self channel (i + 1) rest

-- A wakeup takes no lock away.
pub woken_from-OthersFree :
    (self channel i : ℕ) (procs : List Process)
    → OthersFree self i procs
    → OthersFree self i (woken_from self channel i procs)
woken_from-OthersFree self channel i [] free = tt
woken_from-OthersFree self channel i (proc ∷ rest) free =
    let kept : (woken channel proc).lock ≡ proc.lock =
      (elim (Bool-cases (is_sleeping proc.state && (proc.sleep_channel == channel))) [
        | inl hit ↦ rw hit refl
        | inr miss ↦ rw miss refl
      ]) in
    (
      λ other. let test : (i == self) ≡ false = ground arith in rw test (kept ∙ free.0 other),
      woken_from-OthersFree self channel (i + 1) rest free.1,
    )

settled-settled : (c : Cpu) → settled (settled c) ≡ settled c
settled-settled c = ground arith

pub get_process_struct_lem : (c : Cpu) → IsValid c → get_process_struct c ≡ done (settled c)
unfolding get_process_struct
get_process_struct_lem c v = lock_intr_pair c v

module _ (hart : ℕ) where
  pub wake_one_lem :
      (channel : ℕ) (proc : Process) (c : Cpu)
      → IsValid c
      → proc.lock ≡ initlock
      → wake_one hart channel proc c ≡ done (woken channel proc, settled c)
  unfolding wake_one
  wake_one_lem channel proc c v h =
      rw (acquire_lock-free hart proc.lock c v (ap (λ l. l.locked) h), release_lock-held hart c v)
        (ground arith)

  -- `wakeup` over the rest of the table.
  pub wakeup_from_lem :
      (self channel i : ℕ) (procs : List Process) (c : Cpu)
      → IsValid c
      → OthersFree self i procs
      → (d : Cpu) × (wakeup_from hart self channel i procs c
          ≡ done (woken_from self channel i procs, d))
        × SameCpu c d
  unfolding wakeup_from
  wakeup_from_lem self channel i [] c v free =
      (c, refl, record { valid = v; depth = refl; intr = refl })
  wakeup_from_lem self channel i (proc ∷ rest) c v free =
      let own = settled-IsValid c v in
      let (d, e, same) = wakeup_from_lem self channel (i + 1) rest (settled c) own free.1 in
      elim (Bool-cases (i == self)) [
        | inl here ↦
            (d, rw (get_process_struct_lem c v, here, e), SameCpu-trans (SameCpu-settled c v) same)
        | inr other ↦ (
          d,
          rw (
            get_process_struct_lem c v,
            other,
            wake_one_lem channel proc (settled c) own (free.0 (ground arith)),
            settled-settled c,
            e,
          ),
          SameCpu-trans (SameCpu-settled c v) same,
        )
      ]

  -- If no lock of another process is held, `wakeup` never panics or waits; it makes runnable exactly
  -- the other processes that sleep on the channel, and changes nothing else, the caller's entry and
  -- the hart's interrupt state included.
  pub wakeup_lem :
      (self channel : ℕ) (procs : List Process) (c : Cpu)
      → IsValid c
      → OthersFree self 0 procs
      → (d : Cpu) × (wakeup hart self channel procs c ≡ done (woken_from self channel 0 procs, d))
        × SameCpu c d
  unfolding wakeup
  wakeup_lem self channel procs c v free = wakeup_from_lem self channel 0 procs c v free

abbrev pub AllFree : List Process → Type 0
AllFree [] = Unit
AllFree (proc ∷ rest) = (proc.lock ≡ initlock) × AllFree rest

-- Some process of the table has the id.
unfoldable pub has_pid : ℕ → List Process → Bool
has_pid pid [] = false
has_pid pid (proc ∷ rest) = (proc.process_id == pid) || has_pid pid rest

abbrev pub slain : Process → Process
slain proc = record proc {
  killed = true;
  state = if is_sleeping proc.state then runnable else proc.state;
}

-- The first process with the id is marked, and made runnable if it sleeps.
unfoldable pub slay : ℕ → List Process → List Process
slay pid [] = []
slay pid (proc ∷ rest) = if proc.process_id == pid then slain proc ∷ rest else proc ∷ slay pid rest

-- With no lock of the table held, `kill` never panics or waits; it returns 0 exactly when a process
-- has the id, marks the first such process as killed and makes it runnable if it sleeps, and leaves
-- every other process and the hart's interrupt state alone.
pub kill_lem :
    (hart pid : ℕ) (procs : List Process) (c : Cpu)
    → IsValid c
    → AllFree procs
    → (d : Cpu) × (kill hart pid procs c ≡ done (has_pid pid procs, slay pid procs, d))
      × SameCpu c d
unfolding kill has_pid slay
kill_lem hart pid [] c v free = (c, refl, record { valid = v; depth = refl; intr = refl })
kill_lem hart pid (proc ∷ rest) c v (h, free) =
    let own = settled-IsValid c v in
    let (d, e, same) = kill_lem hart pid rest (settled c) own free in
    elim (Bool-cases (proc.process_id == pid)) [
      | inl here ↦ (
        settled c,
        rw
            (
              acquire_lock-free hart proc.lock c v (ap (λ l. l.locked) h),
              release_lock-held hart c v,
              here,
            )
            (ground arith),
        SameCpu-settled c v,
      )
      | inr other ↦ (
        d,
        rw
            (
              acquire_lock-free hart proc.lock c v (ap (λ l. l.locked) h),
              release_lock-held hart c v,
              other,
              e,
            )
            (ground arith),
        SameCpu-trans (SameCpu-settled c v) same,
      )
    ]
