-- ===== src/Paging/Copy.antt =====
-- `copyto`, `copyout` and `copyinstr`: bytes between the kernel and a user's pages. Data bytes are
-- the memory of Libc; the words of page tables are kept apart, since no copy writes to a table.
-- Each round of a loop moves at least one byte, so that `len + 1` rounds end it.
use risc_v_os.Base.{
  ℕ, zero, suc, ◌+◌, ◌-◌, ◌%◌, Bool, true, false, Option, none, some, ◌==◌, ltb, if◌then◌else◌,
}
use risc_v_os.Base.Outcome.{Outcome, done, asleep, ◌>>=◌}
use risc_v_os.Base.Family.{update}
use risc_v_os.Libc.{Memory, memmove}
use risc_v_os.Pmm.{u32_mod}
use risc_v_os.Paging.{Allocator, State, fetch_pa_addr, page_down}

-- The bytes of a page from `addr` on, at most `len`.
abbrev pub chunk : ℕ → ℕ → ℕ
chunk addr len = if ltb len (4096 - addr % 4096) then len else 4096 - addr % 4096

-- The inner loop of `copyinstr`: the rest of the budget, or `none` once a zero has been copied.
unfoldable pub copy_string : ℕ → ℕ → ℕ → ℕ → Memory → Option (ℕ × ℕ) × Memory
copy_string zero max dst p mem = (some (max, dst), mem)
copy_string (suc n) max dst p mem =
    let mem' = update mem dst (mem p) in
    let rest = copy_string n (max - 1) (dst + 1) (p + 1) mem' in
    if mem p == 0 then (none, update mem dst 0) else rest

module _ {A : Type 0} (al : Allocator A) (pt : ℕ) (s : State A) where
  unfoldable pub copyto_loop : ℕ → ℕ → ℕ → ℕ → Memory → Outcome (Bool × Memory)
  copyto_loop zero dst srcaddr len mem = asleep
  copyto_loop (suc rounds) dst srcaddr len mem = if len == 0 then done (true, mem) else (do
    pa ← fetch_pa_addr al pt (page_down srcaddr) s
    let n = chunk srcaddr len
    let rest =
        copyto_loop rounds (dst + n) ((page_down srcaddr + 4096) % u32_mod) (len - n)
          (memmove dst (pa + srcaddr % 4096) n mem)
    if pa == 0 then done (false, mem) else rest)

  unfoldable pub copyto : ℕ → ℕ → ℕ → Memory → Outcome (Bool × Memory)
  copyto dst srcaddr len mem = copyto_loop (len + 1) dst srcaddr len mem

  unfoldable pub copyout_loop : ℕ → ℕ → ℕ → ℕ → Memory → Outcome (Bool × Memory)
  copyout_loop zero dstaddr src len mem = asleep
  copyout_loop (suc rounds) dstaddr src len mem = if len == 0 then done (true, mem) else (do
    pa ← fetch_pa_addr al pt (page_down dstaddr) s
    let n = chunk dstaddr len
    let rest =
        copyout_loop rounds ((page_down dstaddr + 4096) % u32_mod) (src + n) (len - n)
          (memmove (pa + dstaddr % 4096) src n mem)
    if pa == 0 then done (false, mem) else rest)

  unfoldable pub copyout : ℕ → ℕ → ℕ → Memory → Outcome (Bool × Memory)
  copyout dstaddr src len mem = copyout_loop (len + 1) dstaddr src len mem

  unfoldable pub copyinstr_loop : ℕ → ℕ → ℕ → ℕ → Memory → Outcome (Bool × Memory)
  copyinstr_loop zero dst srcva max mem = asleep
  copyinstr_loop (suc rounds) dst srcva max mem = if max == 0 then done (false, mem) else (do
    pa ← fetch_pa_addr al pt (page_down srcva) s
    let r = copy_string (chunk srcva max) max dst (pa + srcva % 4096) mem
    if pa == 0 then done (false, mem) else (elim r.0 [
      | none ↦ done (true, r.1)
      | some (max', dst') ↦ copyinstr_loop rounds dst' ((page_down srcva + 4096) % u32_mod) max' r.1
    ]))

  unfoldable pub copyinstr : ℕ → ℕ → ℕ → Memory → Outcome (Bool × Memory)
  copyinstr dst srcva max mem = copyinstr_loop (max + 1) dst srcva max mem
