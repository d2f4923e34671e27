-- ===== src/Pmm/Free.antt =====
-- `kfree` computes the start of the pages in another way than `kalloc`: what that does.
use risc_v_os.Base.{
  ℕ, ◌-◌, ◌%◌, ◌≤◌, ◌<◌, ◌≡◌, ◌≢◌, ◌⊎◌, inl, inr, refl, ap, ◌∙◌, true, false, Bool-cases, arith,
  ◌==◌, if◌then◌else◌,
}
use risc_v_os.Base.Outcome.{done, fault}
use risc_v_os.Locks.{Cpu, initlock}
use risc_v_os.Locks.Intr.{IsValid, settled}
use risc_v_os.Locks.Spin.{acquire_lock-free, release_lock-held}
use risc_v_os.Process.Wakeup.{SameCpu, SameCpu-settled}
use risc_v_os.Pmm.{
  pgesize, phystop, is_set, unmark, Pmm, num_pages, page_address, free_index, is_in_bitmap, kfree,
}
use risc_v_os.Pmm.Alloc.{IsBytes, is_set-unmark}

-- The kernel's image ends inside the first 112 MB of RAM.
pub record IsKernelEnd (mem_end : ℕ) : Type 0 where
  pub above : 0x80000000 ≤ mem_end
  pub below : mem_end ≤ 0x87000000

pub free_index-page_address :
    (mem_end k : ℕ)
    → IsKernelEnd mem_end
    → k < num_pages mem_end
    → free_index mem_end (page_address mem_end k) ≢ k
unfolding free_index page_address
free_index-page_address mem_end k e h q = omega arith

-- With the lock free, `kfree` of a page that `kalloc` hands out never clears the bit of that page.
-- When the index that it computes lies in the bitmap it returns, has cleared the bit of that other
-- index and kept all others, that of the page among them; when it does not, as for the first pages,
-- `kfree` writes outside the bitmap.
pub kfree-page_address :
    (mem_end hart k : ℕ) (m : Pmm) (c : Cpu)
    → IsKernelEnd mem_end
    → k < num_pages mem_end
    → IsValid c
    → m.lock ≡ initlock
    → IsBytes m.bitmap
    → ((is_in_bitmap mem_end (free_index mem_end (page_address mem_end k)) ≡ true)
        × (out : Pmm × Cpu) × (kfree mem_end hart (page_address mem_end k) m c ≡ done out)
        × (is_set out.0.bitmap k ≡ is_set m.bitmap k)
        × ((j : ℕ)
            → is_set out.0.bitmap j
              ≡ (if free_index mem_end (page_address mem_end k) == j then 0 else is_set m.bitmap j))
        × SameCpu c out.1)
      ⊎ ((is_in_bitmap mem_end (free_index mem_end (page_address mem_end k)) ≡ false)
          × (kfree mem_end hart (page_address mem_end k) m c ≡ fault))
unfolding kfree
kfree-page_address mem_end hart k m c e h v free b =
    let wrong = free_index-page_address mem_end k e h in
    let i = free_index mem_end (page_address mem_end k) in
    let taken = acquire_lock-free hart m.lock c v (ap (λ l. l.locked) free) in
    elim (Bool-cases (is_in_bitmap mem_end i)) [
      | inl inside ↦ inl (
        inside,
        (record { lock = initlock; bitmap = unmark m.bitmap i }, settled c),
        rw (taken, inside, release_lock-held hart c v) refl,
        is_set-unmark m.bitmap i k b ∙ other i wrong,
        λ j. is_set-unmark m.bitmap i j b,
        SameCpu-settled c v,
      )
      | inr outside ↦ inr (outside, rw (taken, outside) refl)
    ]
  where
    other : (i : ℕ) → i ≢ k → (if i == k then 0 else is_set m.bitmap k) ≡ is_set m.bitmap k
    other i ne = ground arith

-- The page with the last index that `kalloc` may hand out lies wholly beyond PHYSTOP, outside the
-- memory that the kernel maps.
pub page_address-phystop :
    (mem_end : ℕ)
    → IsKernelEnd mem_end
    → (0 < num_pages mem_end) × (phystop ≤ page_address mem_end (num_pages mem_end - 1))
unfolding page_address
page_address-phystop mem_end e = omega arith

-- The pages that `kalloc` hands out are whole pages: aligned, and two indices in range have
-- different addresses.
pub page_address-injective :
    (mem_end i j : ℕ)
    → IsKernelEnd mem_end
    → i < num_pages mem_end
    → j < num_pages mem_end
    → (page_address mem_end i % pgesize ≡ 0)
      × (page_address mem_end i ≡ page_address mem_end j → i ≡ j)
unfolding page_address
page_address-injective mem_end i j e h k = (omega arith, omega arith)
