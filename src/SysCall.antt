-- ===== src/SysCall.antt =====
-- src/kernel/syscall.c: the arguments of a system call and its dispatch; and the copies of
-- src/kernel/process.c, lines 455 to 477, that take the side of the user or of the kernel.
-- A caller is its size, its page table and the registers a0 to a7 of its trap frame.
pub mod Dispatch
mod Tests
use risc_v_os.Base.{
  ℕ, ◌+◌, ◌-◌, ◌%◌, ◌^◌, Bool, true, false, not, ◌&&◌, ◌||◌, Option, none, some, ◌==◌, ltb, leb,
  if◌then◌else◌,
}
use risc_v_os.Base.Family.{update}
use risc_v_os.Base.Outcome.{Outcome, done, panic, ◌>>=◌}
use risc_v_os.Libc.{Memory, memmove, strlen}
use risc_v_os.Paging.{Allocator}
use risc_v_os.Paging as PagingLayer
use risc_v_os.Paging.Copy.{copyto, copyout, copyinstr}

abbrev pub u32_mod : ℕ
u32_mod = 2 ^ 32

-- The number of entries of `syscall`, of which the first is empty.
abbrev pub num_syscalls : ℕ
num_syscalls = 22

pub record Caller : Type 0 where
  pub mem_size : ℕ
  pub pagetable : ℕ
  pub register : ℕ → ℕ

-- `argraw`, and `argint` and `argaddr`, which always succeed.
unfoldable pub argraw : ℕ → Caller → Outcome ℕ
argraw n proc = if ltb n 6 then done (proc.register n) else panic

unfoldable pub argint : ℕ → Caller → Outcome (Option ℕ)
argint n proc = do w ← argraw n proc; done (some w)

unfoldable pub argaddr : ℕ → Caller → Outcome (Option ℕ)
argaddr n proc = do w ← argraw n proc; done (some w)

-- `argptr`; `size` is not negative.
unfoldable pub argptr : ℕ → ℕ → Caller → Outcome (Option ℕ)
argptr n size proc = do
  i ← argraw n proc
  done (if leb proc.mem_size i || ltb proc.mem_size ((i + size) % u32_mod) then none else some i)

module _ {A : Type 0} (al : Allocator A) (proc : Caller) (s : PagingLayer.State A) where
  -- The value is `true` for 0 and `false` for -1; the word goes to the kernel's address `ip`.
  unfoldable pub fetchaddr : ℕ → ℕ → Memory → Outcome (Bool × Memory)
  fetchaddr addr ip mem =
      if leb proc.mem_size addr || ltb proc.mem_size ((addr + 4) % u32_mod)
      then done (false, mem)
      else copyto al proc.pagetable s ip addr 4 mem

  -- The length of the string in `buf`, none for -1.
  unfoldable pub fetchstr : ℕ → ℕ → ℕ → Memory → Outcome (Option ℕ × Memory)
  fetchstr addr buf max mem = do
    (ok, mem) ← copyinstr al proc.pagetable s buf addr max mem
    done (if ok then strlen (λ k. mem (buf + k)) else none, mem)

  unfoldable pub argstr : ℕ → ℕ → ℕ → Memory → Outcome (Option ℕ × Memory)
  argstr n buf max mem = do addr ← argraw n proc; fetchstr addr buf max mem

  unfoldable pub either_copyin : ℕ → Bool → ℕ → ℕ → Memory → Outcome (Bool × Memory)
  either_copyin dst user_src src len mem =
      if user_src
      then copyto al proc.pagetable s dst src len mem
      else done (true, memmove dst src len mem)

  unfoldable pub either_copyout : Bool → ℕ → ℕ → ℕ → Memory → Outcome (Bool × Memory)
  either_copyout user_dst dst src len mem =
      if user_dst
      then copyout al proc.pagetable s dst src len mem
      else done (true, memmove dst src len mem)

-- `handle_syscall`: `call` is what the entry of that number in `syscall` does to the rest `R` of the
-- system. The value goes to a0, and -1 when there is no such call. A number below 0 is a word above
-- all entries.
unfoldable pub handle_syscall :
    {R : Type 0} → (ℕ → R → Outcome (ℕ × R)) → Caller → R → Outcome (Caller × R)
handle_syscall call proc r =
    let number = proc.register 7 in
    if ltb 0 number && ltb number num_syscalls
    then (do
      (value, r) ← call number r
      done (record proc { register = update proc.register 0 value }, r))
    else done (record proc { register = update proc.register 0 (u32_mod - 1) }, r)
