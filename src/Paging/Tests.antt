-- ===== src/Paging/Tests.antt =====
-- The theorems on page tables at an empty table and at one with a mapped page.
use risc_v_os.Base.{
  ℕ, ◌+◌, ◌-◌, ◌*◌, ◌/◌, ◌%◌, ◌≤◌, ◌<◌, ◌≡◌, ◌⊎◌, refl, ap, ◌∙◌, true, false, arith, ◌==◌, ltb,
  if◌then◌else◌,
}
use risc_v_os.Base.Outcome.{done}
use risc_v_os.Locks.{initlock}
use risc_v_os.Pmm.{page_address, maxva}
use risc_v_os.Pmm.Free.{IsKernelEnd}
use risc_v_os.Paging.{Allocator, State, pte_of, page_down, walk, map_pages, fetch_pa_addr}
use risc_v_os.Libc.{Memory}
use risc_v_os.Paging.Copy.{copyout}
use risc_v_os.Paging.Copyout.{Frames, Delivered, copyout_lem}
use risc_v_os.Paging.Pages.{Heap, pages}
use risc_v_os.Paging.Drawn.{Exhausted}
use risc_v_os.Paging.Map.{IsOwned, IsRange, Mapped, map_pages_lem}
use risc_v_os.Paging.Unmap.{fetch_pa_addr-map_pages}

abbrev kernel_end : ℕ
kernel_end = 0x80020000

kernel_end-IsKernelEnd : IsKernelEnd kernel_end
kernel_end-IsKernelEnd = omega arith

-- Pages 0 to 7 are taken; page 0 is an empty page table.
abbrev heap : Heap
heap = record {
  pmm = record { lock = initlock; bitmap = λ k. if k == 0 then 255 else 0 };
  cpu = record { depth_lock_intr_disable = 0; intr_prev_state = false; intr = true };
  valid = record { masked = λ h. elim h [ ] };
  free = refl;
  bytes = λ k. ground arith;
}

abbrev al : Allocator Heap
al = pages kernel_end 0 kernel_end-IsKernelEnd

abbrev root : ℕ
root = page_address kernel_end 0

abbrev empty : State Heap
empty = record { words = λ a. 0; heap = heap }

empty-IsOwned : IsOwned al empty root
unfolding page_address
empty-IsOwned = record {
  table = record { aligned = refl; apart = λ va w. ground arith; single = λ va vb w. ground arith };
  root = (0, omega arith, refl, λ e. ground (arith, e));
  children = λ va w. ground arith;
}

four_pages : IsRange 0x1000 (0x1000 + (4 - 1) * 4096) 0x80100000
four_pages = omega arith

map_pages_lem_example :
    ((t : State Heap) × (map_pages al root 0x1000 0x80100000 (4 * 4096) 22 empty ≡ done (true, t))
      × Mapped al root 0x1000 (0x1000 + (4 - 1) * 4096) 0x80100000 22 empty t)
    ⊎ Exhausted al (4 - 1) heap (map_pages al root 0x1000 0x80100000 (4 * 4096) 22 empty)
map_pages_lem_example =
    map_pages_lem al root 0x1000 4 0x80100000 22 empty (omega arith) four_pages empty-IsOwned
      (λ vb lo hi. refl)

fetch_pa_addr-map_pages_example :
    ((t : State Heap) × (map_pages al root 0x1000 0x80100000 (4 * 4096) 22 empty ≡ done (true, t))
      × ((va : ℕ)
          → 0x1000 ≤ va
          → va < 0x5000
          → va < maxva
          → fetch_pa_addr al root va t ≡ done (0x80100000 + (va / 4096 * 4096 - 0x1000))))
    ⊎ Exhausted al (4 - 1) heap (map_pages al root 0x1000 0x80100000 (4 * 4096) 22 empty)
fetch_pa_addr-map_pages_example =
    fetch_pa_addr-map_pages al root 0x1000 4 0x80100000 22 empty (omega arith) four_pages
      empty-IsOwned (λ vb lo hi. refl) (omega arith) refl

-- The first 4 MB are mapped, all to one page, by the table after the root.
abbrev full_words : ℕ → ℕ
full_words a =
    if a == root
    then (root + 4096) / 4096 * 1024 + 1
    else if ltb a (root + 4096)
    then 0
    else pte_of 0x80100000 22

abbrev full : State Heap
full = record { words = full_words; heap = heap }

abbrev one_frame : ℕ → ℕ
one_frame k = 0x80100000

first_page : fetch_pa_addr al root 0x1000 full ≡ done 0x80100000
unfolding fetch_pa_addr walk page_address
first_page = refl

full-Frames : Frames al root full one_frame 0x1010 0x80000000 100
full-Frames = record {
  fetched = λ va lo hi.
      let page : page_down va ≡ 0x1000 = omega arith in
      ap (λ a. fetch_pa_addr al root a full) page ∙ first_page;
  aligned = λ va lo hi. refl;
  above = λ va lo hi. omega arith;
  close = λ va lo hi. omega arith;
  apart = λ va vb lo hi lo' hi' e. omega arith;
  in_range = omega arith;
}

copyout_lem_example :
    (mem' : Memory) × (copyout al root full 0x1010 0x80000000 100 (λ a. a % 256)
      ≡ done (true, mem'))
    × Delivered one_frame 0x1010 0x80000000 100 (λ a. a % 256) mem'
copyout_lem_example =
    copyout_lem al root full one_frame 0x1010 0x80000000 100 (λ a. a % 256) full-Frames
