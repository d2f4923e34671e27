-- ===== src/Pmm.antt =====
-- src/kernel/pmm.c: the physical page allocator, one bit for each page.
-- `mem_end` is the linker's symbol, a parameter. The bitmap is an array of 32-bit words at
-- `start_addr`, eight pages to a word (`i / 8`, `i % 8`), so only the low byte of a word is used.
pub mod Alloc
pub mod Free
mod Tests
use risc_v_os.Base.{
  ℕ, zero, suc, ◌+◌, ◌-◌, ◌*◌, ◌/◌, ◌%◌, ◌^◌, Bool, true, false, Option, none, some, List, [], ◌==◌,
  ltb, if◌then◌else◌,
}
use risc_v_os.Base.Outcome.{Outcome, done, panic, fault, ◌>>=◌}
use risc_v_os.Base.Family.{update}
use risc_v_os.Base.Bits.{bit, set_bit, clear_bit}
use risc_v_os.Locks.{Cpu, Spinlock, acquire_lock, release_lock}

abbrev pub pgesize : ℕ
pgesize = 4096

abbrev pub u32_mod : ℕ
u32_mod = 2 ^ 32

abbrev pub maxva : ℕ
maxva = 0xffffffff

abbrev pub phystop : ℕ
phystop = 0x88000000

-- `((sz) + PGESIZE - 1) & ~(PGESIZE - 1)` on 32 bits.
abbrev pub pgroundup : ℕ → ℕ
pgroundup sz = (sz + 4095) % u32_mod / 4096 * 4096

abbrev pub Bitmap : Type 0
Bitmap = ℕ → ℕ

-- `IS_SET(i)`, `SET_BIT(i)` and `CLEAR_BITS(i)`.
abbrev pub is_set : Bitmap → ℕ → ℕ
is_set bitmap i = bit (bitmap (i / 8)) (i % 8)

unfoldable pub mark : Bitmap → ℕ → Bitmap
mark bitmap i = update bitmap (i / 8) (set_bit (bitmap (i / 8)) (i % 8))

unfoldable pub unmark : Bitmap → ℕ → Bitmap
unmark bitmap i = update bitmap (i / 8) (clear_bit (bitmap (i / 8)) (i % 8))

pub record Pmm : Type 0 where
  pub lock : Spinlock
  pub bitmap : Bitmap

-- The loop of `kalloc` from page `i` on, `left` pages to go: the first page whose bit is clear.
unfoldable pub first_clear : ℕ → ℕ → Bitmap → Option ℕ
first_clear zero i bitmap = none
first_clear (suc left) i bitmap =
    let later = first_clear left (i + 1) bitmap in if is_set bitmap i == 0 then some i else later

module _ (mem_end : ℕ) where
  abbrev pub start_addr : ℕ
  start_addr = pgroundup mem_end

  abbrev pub num_pages : ℕ
  num_pages = (phystop - start_addr) / pgesize

  -- `alloc_start` as `kalloc` computes it.
  abbrev pub alloc_start : ℕ
  alloc_start = pgroundup (mem_end + num_pages)

  -- `alloc_start` as `kfree` computes it, from `HEAP_SIZE / page_size`.
  abbrev pub free_start : ℕ
  free_start = pgroundup (mem_end + (maxva - mem_end) / pgesize)

  unfoldable pub page_address : ℕ → ℕ
  page_address i = (alloc_start + i * pgesize) % u32_mod

  -- The page index that `kfree` computes of an address.
  unfoldable pub free_index : ℕ → ℕ
  free_index ptr = (ptr + u32_mod - free_start) % u32_mod / pgesize

  -- The word of this index lies in the bitmap, below the pages that `kalloc` hands out.
  unfoldable pub is_in_bitmap : ℕ → Bool
  is_in_bitmap i = ltb (start_addr + i / 8 * 4) alloc_start

  module _ (hart : ℕ) where
    -- The address of the page; with no page left `kalloc` panics.
    unfoldable pub kalloc : Pmm → Cpu → Outcome (ℕ × Pmm × Cpu)
    kalloc m c = do
      (l, c) ← acquire_lock hart [] m.lock c
      elim (first_clear num_pages 0 m.bitmap) [
        | none ↦ do _ ← release_lock hart l c; panic
        | some i ↦ do
          (l, c) ← release_lock hart l c
          done (page_address i, record { lock = l; bitmap = mark m.bitmap i }, c)
      ]

    -- A `fault` is a write to a word outside the bitmap.
    unfoldable pub kfree : ℕ → Pmm → Cpu → Outcome (Pmm × Cpu)
    kfree ptr m c = do
      (l, c) ← acquire_lock hart [] m.lock c
      let i = free_index ptr
      let bitmap = unmark m.bitmap i
      if is_in_bitmap i
          then (do (l, c) ← release_lock hart l c; done (record { lock = l; bitmap = bitmap }, c))
          else fault
