-- ===== src/Paging.antt =====
-- src/kernel/paging.c: two-level Sv32 page tables in physical memory.
-- `words` is the 32-bit word at each address; a page table is the address of its first word. The
-- allocator is the interface `Allocator`, which Paging/Pages fills with `kalloc` and `kfree` of
-- src/kernel/pmm.c. A pointer that may be null is an `Option`.
pub mod View
pub mod Entry
pub mod Extend
pub mod Drawn
pub mod Map
pub mod Pages
pub mod Unmap
pub mod Copy
pub mod Space
pub mod Copyout
mod Tests
use risc_v_os.Base.{
  ℕ, zero, suc, ◌+◌, ◌-◌, ◌*◌, ◌/◌, ◌%◌, ◌^◌, ◌<◌, ◌≡◌, ◌≢◌, ◌⊎◌, ◌↔◌, Bool, true, false, ◌&&◌, not,
  Option, none, some, ◌==◌, ltb, leb, if◌then◌else◌,
}
use risc_v_os.Base.Outcome.{Outcome, done, panic, asleep, panic_if, ◌>>=◌, ◌>>◌}
use risc_v_os.Base.Family.{update}
use risc_v_os.Pmm.{pgesize, maxva, pgroundup, u32_mod}

-- What page tables need of the page allocator: a page that it hands out is aligned, not null, and
-- not one that is owned already.
pub record Allocator (A : Type 0) : Type 1 where
  pub kalloc : A → Outcome (ℕ × A)
  pub kfree : ℕ → A → Outcome A
  pub Owned : A → ℕ → Type 0
  pub aligned : {h h' : A} {page : ℕ} → kalloc h ≡ done (page, h') → page % 4096 ≡ 0
  pub in_range : {h h' : A} {page : ℕ} → kalloc h ≡ done (page, h') → (0 < page) × (page < 2 ^ 32)
  pub fresh : {h h' : A} {page : ℕ} → kalloc h ≡ done (page, h') → Owned h page → ⊥
  pub owned : {h h' : A} {page : ℕ} → kalloc h ≡ done (page, h') → Owned h' page
  pub keeps : {h h' : A} {page : ℕ} → kalloc h ≡ done (page, h') → (q : ℕ) → Owned h q → Owned h' q

pub record State (A : Type 0) : Type 0 where
  pub words : ℕ → ℕ
  pub heap : A

-- `(*pte >> 10) << 12`
abbrev pub page_of : ℕ → ℕ
page_of e = e / 1024 * 4096 % u32_mod

-- `perm | PTE_V`
abbrev pub with_v : ℕ → ℕ
with_v perm = perm + (1 - perm % 2)

-- `((pa >> 12) << 10) | perm | PTE_V`, for permissions in the low ten bits.
abbrev pub pte_of : ℕ → ℕ → ℕ
pte_of pa perm = pa / 4096 * 1024 % u32_mod + with_v perm

abbrev pub pte_v : ℕ → Bool
pte_v e = e % 2 == 1

abbrev pub pte_u : ℕ → Bool
pte_u e = e / 16 % 2 == 1

-- `va & ~(PGESIZE - 1)`
abbrev pub page_down : ℕ → ℕ
page_down va = va / 4096 * 4096

-- `memset(page, 0, PGESIZE)`
unfoldable pub clear_page : ℕ → (ℕ → ℕ) → ℕ → ℕ
clear_page page words a = if leb page a && ltb a (page + 4096) then 0 else words a

-- The entry of `va` in the table of the first level, and in one of the second.
abbrev pub first_slot : ℕ → ℕ → ℕ
first_slot pt va = pt + va / 2 ^ 22 % 1024 * 4

abbrev pub second_slot : ℕ → ℕ → ℕ
second_slot page va = page + va / 4096 % 1024 * 4

-- A loop over all pages of the address space has at most this many rounds.
abbrev pub all_pages : ℕ
all_pages = 2 ^ 20

module _ {A : Type 0} (al : Allocator A) where
  unfoldable pub walk : ℕ → ℕ → Bool → State A → Outcome (Option ℕ × State A)
  walk pt va alloc s =
      if leb maxva va
      then panic
      else if pte_v (s.words (first_slot pt va))
      then done (some (second_slot (page_of (s.words (first_slot pt va))) va), s)
      else if not alloc
      then done (none, s)
      else (do
        (page, heap) ← al.kalloc s.heap
        if page == 0
            then done (none, record s { heap = heap })
            else done (
              some (second_slot page va),
              record {
                words =
                    update (clear_page page s.words) (first_slot pt va) (page / 4096 * 1024 + 1);
                heap = heap;
              },
            ))

  -- 0 when the address is not mapped for the user.
  unfoldable pub fetch_pa_addr : ℕ → ℕ → State A → Outcome ℕ
  fetch_pa_addr pt va s = if leb maxva va then done 0 else (do
    (p, s) ← walk pt va false s
    elim p [
      | none ↦ done 0
      | some a ↦ done (
          if not (pte_v (s.words a))
          then 0
          else if not (pte_u (s.words a))
          then 0
          else page_of (s.words a))
    ])

  unfoldable pub fetch_kpa : ℕ → ℕ → State A → Outcome ℕ
  fetch_kpa kpagetable va s = do
    (p, s) ← walk kpagetable va false s
    elim p [
      | none ↦ panic
      | some a ↦ if not (pte_v (s.words a)) then panic else done (page_of (s.words a) + va % 4096)
    ]

  -- The loop of `map_pages`; `false` for its -1.
  unfoldable pub map_loop : ℕ → ℕ → ℕ → ℕ → ℕ → ℕ → State A → Outcome (Bool × State A)
  map_loop zero pt vir last pa perm s = asleep
  map_loop (suc rounds) pt vir last pa perm s = do
    (p, s) ← walk pt vir true s
    elim p [
      | none ↦ done (false, s)
      | some a ↦ do
        panic_if (pte_v (s.words a))
        let t = record s { words = update s.words a (pte_of pa perm) }
        let rest = map_loop rounds pt ((vir + 4096) % u32_mod) last ((pa + 4096) % u32_mod) perm t
        if vir == last then done (true, t) else rest
    ]

  unfoldable pub map_pages : ℕ → ℕ → ℕ → ℕ → ℕ → State A → Outcome (Bool × State A)
  map_pages pt vir_addr phy_addr size perm s = do
    panic_if (size == 0)
    map_loop all_pages pt (page_down vir_addr) (page_down ((vir_addr + size - 1) % u32_mod))
        phy_addr perm s

  unfoldable pub kmap : ℕ → ℕ → ℕ → ℕ → ℕ → State A → Outcome (State A)
  kmap kpagetable vir_addr phy_addr size perm s = do
    (ok, s) ← map_pages kpagetable vir_addr phy_addr size perm s
    if ok then done s else panic

  unfoldable pub upaging_create : State A → Outcome (ℕ × State A)
  upaging_create s = do
    (page, heap) ← al.kalloc s.heap
    panic_if (page == 0)
    done (page, record { words = clear_page page s.words; heap = heap })

  -- The loop of `uvmunmap`.
  unfoldable pub unmap_loop : ℕ → ℕ → ℕ → ℕ → Bool → State A → Outcome (State A)
  unmap_loop zero pt a last free s = asleep
  unmap_loop (suc rounds) pt a last free s = do
    (p, s) ← walk pt a false s
    elim p [
      | none ↦ panic
      | some q ↦ do
        panic_if (not (pte_v (s.words q)))
        panic_if (s.words q % 1024 == 1)
        heap ← if free then al.kfree (page_of (s.words q)) s.heap else done s.heap
        let t : State A = record { words = update s.words q 0; heap = heap }
        let rest = unmap_loop rounds pt ((a + 4096) % u32_mod) last free t
        if a == last then done t else rest
    ]

  -- The count of pages is added to the address as if it were a count of bytes.
  unfoldable pub uvmunmap : ℕ → ℕ → ℕ → Bool → State A → Outcome (State A)
  uvmunmap pt va num_pages free s = do
    panic_if (not (va % 4096 == 0))
    unmap_loop all_pages pt (page_down va) (page_down ((va + num_pages + u32_mod - 1) % u32_mod))
        free s

  unfoldable pub uvmdealloc : ℕ → ℕ → ℕ → State A → Outcome (ℕ × State A)
  uvmdealloc pt oldsize newsize s =
      if leb oldsize newsize
      then done (oldsize, s)
      else if ltb (pgroundup newsize) (pgroundup oldsize)
      then (do
        s ← uvmunmap pt (pgroundup newsize) ((pgroundup oldsize - pgroundup newsize) / 4096) true s
        done (newsize, s))
      else done (newsize, s)

  -- The loop of `uvmalloc` from address `a` on, with its two ways to give up.
  unfoldable pub grow_loop : ℕ → ℕ → ℕ → ℕ → ℕ → State A → Outcome (ℕ × State A)
  grow_loop zero pt oldsize newsize a s = asleep
  grow_loop (suc rounds) pt oldsize newsize a s = if leb newsize a then done (newsize, s) else (do
    (page, heap) ← al.kalloc s.heap
    let give_up : State A → Outcome (ℕ × State A) =
        λ s. (uvmdealloc pt a oldsize s >>= λ r. done (0, r.1))
    if page == 0 then give_up (record s { heap = heap }) else (do
      (ok, s) ←
          map_pages pt a page 4096 30 (record { words = clear_page page s.words; heap = heap })
      let rest = grow_loop rounds pt oldsize newsize ((a + 4096) % u32_mod) s
      if ok then rest else (do heap ← al.kfree page s.heap; give_up (record s { heap = heap }))))

  unfoldable pub uvmalloc : ℕ → ℕ → ℕ → State A → Outcome (ℕ × State A)
  uvmalloc pt oldsize newsize s =
      if ltb newsize oldsize
      then done (oldsize, s)
      else grow_loop all_pages pt (pgroundup oldsize) newsize (pgroundup oldsize) s

  unfoldable pub uvmclear : ℕ → ℕ → State A → Outcome (State A)
  uvmclear pt va s = do
    (p, s) ← walk pt va false s
    elim p [
      | none ↦ panic
      | some a ↦ done (record s {
        words = update s.words a (if pte_u (s.words a) then s.words a - 16 else s.words a);
      })
    ]

  -- `memmove(mem, (char *)pa, PGESIZE)` of a page of words.
  unfoldable pub copy_page : ℕ → ℕ → (ℕ → ℕ) → ℕ → ℕ
  copy_page dst src words a =
      if leb dst a && ltb a (dst + 4096) then words (src + (a - dst)) else words a

  -- The loop of `uvmcopy` from address `i` on, `false` for its -1.
  unfoldable pub copy_loop : ℕ → ℕ → ℕ → ℕ → ℕ → State A → Outcome (Bool × State A)
  copy_loop zero old new size i s = asleep
  copy_loop (suc rounds) old new size i s = if leb size i then done (true, s) else (do
    (p, s) ← walk old i false s
    elim p [
      | none ↦ panic
      | some q ↦ do
        panic_if (not (pte_v (s.words q)))
        let pa = page_of (s.words q)
        let flags = s.words q % 1024
        (page, heap) ← al.kalloc s.heap
        let give_up : State A → Outcome (Bool × State A) =
            λ s. (uvmunmap new 0 i true s >>= λ s. done (false, s))
        if page == 0 then give_up (record s { heap = heap }) else (do
          (ok, s) ←
              map_pages new i page 4096 flags
                (record { words = copy_page page pa s.words; heap = heap })
          let rest = copy_loop rounds old new size ((i + 4096) % u32_mod) s
          if ok then rest else (do heap ← al.kfree page s.heap; give_up (record s { heap = heap })))
    ])

  unfoldable pub uvmcopy : ℕ → ℕ → ℕ → State A → Outcome (Bool × State A)
  uvmcopy old new size s = copy_loop all_pages old new size 0 s

  -- `freewalk` with its loop: `left` entries to go, tables nested to `depth`.
  unfoldable pub freewalk_from : ℕ → ℕ → ℕ → ℕ → State A → Outcome (State A)
  freewalk_from zero left i pt s = asleep
  freewalk_from (suc depth) zero i pt s = do
    heap ← al.kfree pt s.heap
    done (record s { heap = heap })
  freewalk_from (suc depth) (suc left) i pt s = do
    let pte = s.words (pt + i * 4)
    s ←
        if pte_v pte && (pte / 2 % 8 == 0)
        then (do
          s ← freewalk_from depth 512 0 (page_of pte) s
          done (record s { words = update s.words (pt + i * 4) 0 }))
        else panic_if (pte_v pte) >>= λ _. done s
    freewalk_from (suc depth) left (i + 1) pt s

  -- Sv32 has two levels, below which a third table would be a cycle.
  unfoldable pub freewalk : ℕ → State A → Outcome (State A)
  freewalk pt s = freewalk_from 3 512 0 pt s

  unfoldable pub uvmfree : ℕ → ℕ → State A → Outcome (State A)
  uvmfree pt size s = do s ← if ltb 0 size then uvmunmap pt 0 size true s else done s; freewalk pt s
