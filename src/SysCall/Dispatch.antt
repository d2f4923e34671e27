-- ===== src/SysCall/Dispatch.antt =====
-- What `handle_syscall` and `fetchaddr` leave alone.
use risc_v_os.Base.{
  ℕ, ◌+◌, ◌%◌, ◌≤◌, ◌≡◌, inl, inr, refl, ◌∙◌, true, false, ◌||◌, arith, ltb, leb, Bool-cases,
}
use risc_v_os.Base.Outcome.{done}
use risc_v_os.Libc.{Memory}
use risc_v_os.Paging.{Allocator}
use risc_v_os.Paging as PagingLayer
use risc_v_os.SysCall.{Caller, u32_mod, fetchaddr}

-- In a process that ends at least four bytes below 2^32, `fetchaddr` reads a word only when all four
-- of its bytes lie in the memory of the process, and otherwise fails without a change.
pub fetchaddr-within :
    {A : Type 0} (al : Allocator A) (proc : Caller) (s : PagingLayer.State A) (addr ip : ℕ)
    (mem mem' : Memory)
    → proc.mem_size + 4 ≤ u32_mod
    → fetchaddr al proc s addr ip mem ≡ done (true, mem')
    → addr + 4 ≤ proc.mem_size
unfolding fetchaddr
fetchaddr-within al proc s addr ip mem mem' small ran =
    elim (Bool-cases (leb proc.mem_size addr || ltb proc.mem_size ((addr + 4) % u32_mod))) [
      | inl out ↦ let failed : done (false, mem) ≡ done (true, mem') = rw out refl ∙ ran in cc
      | inr inside ↦ ground (arith, inside, small)
    ]
