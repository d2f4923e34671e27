-- ===== src/Pmm/Tests.antt =====
-- Runs of the page allocator, and the theorems at a kernel that ends at 0x80020000.
use risc_v_os.Base.{ℕ, ◌-◌, ◌≡◌, ◌≢◌, ◌≤◌, ◌<◌, refl, true, false, arith, ◌⊎◌, ◌==◌, if◌then◌else◌}
use risc_v_os.Base.Outcome.{done, panic, fault}
use risc_v_os.Locks.{Cpu, initlock}
use risc_v_os.Locks.Intr.{IsValid}
use risc_v_os.Process.Wakeup.{SameCpu}
use risc_v_os.Pmm.{
  Pmm, is_set, num_pages, page_address, free_index, is_in_bitmap, kalloc, kfree, phystop,
}
use risc_v_os.Pmm.Alloc.{Allocated, kalloc_lem}
use risc_v_os.Pmm.Free.{IsKernelEnd, kfree-page_address, page_address-phystop}

abbrev idle : Cpu
idle = record { depth_lock_intr_disable = 0; intr_prev_state = false; intr = true }

idle-IsValid : IsValid idle
idle-IsValid = record { masked = λ h. elim h [ ] }

-- Pages 0 to 7 are taken.
abbrev pmm : Pmm
pmm = record { lock = initlock; bitmap = λ k. if k == 0 then 255 else 0 }

abbrev kernel_end : ℕ
kernel_end = 0x80020000

kernel_end-IsKernelEnd : IsKernelEnd kernel_end
kernel_end-IsKernelEnd = omega arith

kalloc_lem_example :
    ((i : ℕ) × (out : ℕ × Pmm × Cpu) × (kalloc kernel_end 0 pmm idle ≡ done out)
      × Allocated kernel_end pmm idle i out)
    ⊎ ((kalloc kernel_end 0 pmm idle ≡ panic)
        × ((j : ℕ) → j < num_pages kernel_end → is_set pmm.bitmap j ≢ 0))
kalloc_lem_example = kalloc_lem kernel_end 0 pmm idle idle-IsValid refl (λ k. ground arith)

kfree-page_address_example :
    ((is_in_bitmap kernel_end (free_index kernel_end (page_address kernel_end 130)) ≡ true)
      × (out : Pmm × Cpu) × (kfree kernel_end 0 (page_address kernel_end 130) pmm idle ≡ done out)
      × (is_set out.0.bitmap 130 ≡ 0)
      × ((j : ℕ)
          → is_set out.0.bitmap j ≡ (
              if free_index kernel_end (page_address kernel_end 130) == j
              then 0
              else is_set pmm.bitmap j))
      × SameCpu idle out.1)
    ⊎ ((is_in_bitmap kernel_end (free_index kernel_end (page_address kernel_end 130)) ≡ false)
        × (kfree kernel_end 0 (page_address kernel_end 130) pmm idle ≡ fault))
kfree-page_address_example =
    kfree-page_address kernel_end 0 130 pmm idle kernel_end-IsKernelEnd (omega arith) idle-IsValid
      refl (λ k. ground arith)

-- The index of page 130 is 10, and that of page 3 lies outside the bitmap.
index_of_130 : free_index kernel_end (page_address kernel_end 130) ≡ 10
unfolding free_index page_address
index_of_130 = refl

first_pages_outside :
    is_in_bitmap kernel_end (free_index kernel_end (page_address kernel_end 3)) ≡ false
unfolding free_index page_address is_in_bitmap
first_pages_outside = refl

page_address-phystop_example :
    (0 < num_pages kernel_end) × (phystop ≤ page_address kernel_end (num_pages kernel_end - 1))
page_address-phystop_example = page_address-phystop kernel_end kernel_end-IsKernelEnd
