-- ===== src/Paging/Space.antt =====
-- src/kernel/process.c, lines 92 to 110, 144 to 160 and 266 to 273, and `sys_sbrk` of
-- src/kernel/sysproc.c: the address space of a process. `uvec` is the address of the assembly that a
-- trap enters.
use risc_v_os.Base.{
  ℕ, ◌+◌, ◌-◌, ◌%◌, ◌^◌, Bool, false, not, Option, none, some, ◌==◌, ltb, if◌then◌else◌,
}
use risc_v_os.Base.Outcome.{Outcome, done, ◌>>=◌}
use risc_v_os.Pmm.{u32_mod}
use risc_v_os.Paging.{
  Allocator, State, map_pages, upaging_create, uvmunmap, uvmdealloc, uvmalloc, uvmfree,
}

abbrev pub uservec : ℕ
uservec = 0xfffff000

abbrev pub trapframe_address : ℕ
trapframe_address = 0xffffe000

-- A 32-bit `int` as it is written: what it adds, or what it takes away.
abbrev pub is_negative : ℕ → Bool
is_negative n = ltb (2 ^ 31 - 1) n

module _ {A : Type 0} (al : Allocator A) where
  -- The page table, 0 when a page could not be mapped.
  unfoldable pub proc_pagetable : ℕ → ℕ → State A → Outcome (ℕ × State A)
  proc_pagetable uvec trapframe s = do
    (pt, s) ← upaging_create al s
    if pt == 0 then done (0, s) else (do
      (ok, s) ← map_pages al pt uservec uvec 4096 10 s
      if not ok then (do s ← uvmfree al pt 0 s; done (0, s)) else (do
        (ok, s) ← map_pages al pt trapframe_address trapframe 4096 6 s
        if ok
            then done (pt, s)
            else (do s ← uvmunmap al pt uservec 1 false s; s ← uvmfree al pt 0 s; done (0, s))))

  -- A process of size 0 keeps its page tables.
  unfoldable pub proc_freepagetable : ℕ → ℕ → State A → Outcome (State A)
  proc_freepagetable pt size s = do
    s ← uvmunmap al pt uservec 1 false s
    s ← uvmunmap al pt trapframe_address 1 false s
    if ltb 0 size then uvmfree al pt size s else done s

  -- The new size of the process, none for -1.
  unfoldable pub growproc : ℕ → ℕ → ℕ → State A → Outcome (Option ℕ × State A)
  growproc pt mem_size n s =
      let target = (mem_size + n) % u32_mod in
      if is_negative n
      then (do (size, s) ← uvmdealloc al pt mem_size target s; done (some size, s))
      else if ltb 0 n
      then (do
        (size, s) ← uvmalloc al pt mem_size target s
        done (if size == 0 then none else some size, s))
      else done (some mem_size, s)

  -- The old size, none for -1, and the size after the call.
  unfoldable pub sys_sbrk : ℕ → ℕ → ℕ → State A → Outcome (Option ℕ × ℕ × State A)
  sys_sbrk pt mem_size n s = do
    (grown, s) ← growproc pt mem_size n s
    done (elim grown [ none ↦ (none, mem_size, s) | some size ↦ (some mem_size, size, s) ])
