-- ===== src/Paging/Pages.antt =====
-- `kalloc` and `kfree` of src/kernel/pmm.c as the allocator that page tables use.
use risc_v_os.Base.{
  ℕ, ◌%◌, ◌^◌, ◌<◌, ◌≡◌, ◌≢◌, ◌⊎◌, inl, inr, refl, sym, ap, subst, ◌∙◌, arith, Bool-cases,
  if◌then◌else◌,
}
use risc_v_os.Base.Outcome.{Outcome, done, panic, asleep, fault, ◌>>=◌}
use risc_v_os.Locks.{Cpu, initlock}
use risc_v_os.Locks.Intr.{IsValid, settled, settled-IsValid}
use risc_v_os.Locks.Spin.{acquire_lock-free, release_lock-held}
use risc_v_os.Pmm.{
  Pmm, is_set, unmark, num_pages, page_address, free_index, is_in_bitmap, kalloc, kfree,
}
use risc_v_os.Pmm.Alloc.{IsBytes, Allocated, kalloc_lem, unmark-IsBytes}
use risc_v_os.Pmm.Free.{IsKernelEnd, page_address-injective}
use risc_v_os.Paging.{Allocator}

-- The allocator between two calls on one hart: its lock is free.
pub record Heap : Type 0 where
  pub pmm : Pmm
  pub cpu : Cpu
  pub valid : IsValid cpu
  pub free : pmm.lock ≡ initlock
  pub bytes : IsBytes pmm.bitmap

-- What holds of a result, if there is one.
After {ℓ} : {B : Type ℓ} → (B → Type 0) → Outcome B → Type 0
After P (done b) = P b
After P panic = Unit
After P asleep = Unit
After P fault = Unit

module _ (mem_end hart : ℕ) (end : IsKernelEnd mem_end) where
  -- Page number `i` of those that `kalloc` may hand out is taken, and has this address.
  abbrev pub Taken : Heap → ℕ → Type 0
  Taken h page =
      (i : ℕ) × (i < num_pages mem_end)
      × (page_address mem_end i ≡ page)
      × (is_set h.pmm.bitmap i ≢ 0)

  pub Result : Heap → Type 0
  Result h =
      ((i : ℕ) × (out : ℕ × Pmm × Cpu) × (kalloc mem_end hart h.pmm h.cpu ≡ done out)
        × Allocated mem_end h.pmm h.cpu i out)
      ⊎ ((kalloc mem_end hart h.pmm h.cpu ≡ panic)
          × ((j : ℕ) → j < num_pages mem_end → is_set h.pmm.bitmap j ≢ 0))

  taken_heap : (h : Heap) (i : ℕ) (out : ℕ × Pmm × Cpu) → Allocated mem_end h.pmm h.cpu i out → Heap
  taken_heap h i out a = record {
    pmm = out.1;
    cpu = out.2;
    valid = a.same.valid;
    free = a.free;
    bytes = a.bytes;
  }

  pub pick : (h : Heap) → Result h → Outcome (ℕ × Heap)
  unfolding Result
  pick h (inl (i, out, e, a)) = done (out.0, taken_heap h i out a)
  pick h (inr full) = panic

  pub result : (h : Heap) → Result h
  unfolding Result
  result h = kalloc_lem mem_end hart h.pmm h.cpu h.valid h.free h.bytes

  unfoldable pub pages_kalloc : Heap → Outcome (ℕ × Heap)
  pages_kalloc h = pick h (result h)

  unfoldable pub pages_kfree : ℕ → Heap → Outcome Heap
  pages_kfree page h =
      let i = free_index mem_end page in
      if is_in_bitmap mem_end i
      then done (record {
        pmm = record { lock = initlock; bitmap = unmark h.pmm.bitmap i };
        cpu = settled h.cpu;
        valid = settled-IsValid h.cpu h.valid;
        free = refl;
        bytes = unmark-IsBytes h.pmm.bitmap i h.bytes;
      })
      else fault

  -- The two are `kalloc` and `kfree`.
  pub pages_kalloc-kalloc :
      (h : Heap)
      → (pages_kalloc h >>= λ r. done (r.0, r.1.pmm, r.1.cpu)) ≡ kalloc mem_end hart h.pmm h.cpu
  unfolding pages_kalloc pick Result taken_heap
  pages_kalloc-kalloc h = agrees (result h)
    where
      agrees :
          (r : Result h)
          → (pick h r >>= λ r. done (r.0, r.1.pmm, r.1.cpu)) ≡ kalloc mem_end hart h.pmm h.cpu
      agrees (inl (i, out, e, a)) = sym e
      agrees (inr (e, full)) = sym e

  pub pages_kfree-kfree :
      (page : ℕ) (h : Heap)
      → (pages_kfree page h >>= λ r. done (r.pmm, r.cpu)) ≡ kfree mem_end hart page h.pmm h.cpu
  unfolding pages_kfree kfree
  pages_kfree-kfree page h =
      let taken = acquire_lock-free hart h.pmm.lock h.cpu h.valid (ap (λ l. l.locked) h.free) in
      elim (Bool-cases (is_in_bitmap mem_end (free_index mem_end page))) [
        | inl inside ↦ rw (taken, inside, release_lock-held hart h.cpu h.valid) refl
        | inr outside ↦ rw (taken, outside) refl
      ]

  pub record Laws (h : Heap) (r : ℕ × Heap) : Type 0 where
    pub aligned : r.0 % 4096 ≡ 0
    pub in_range : (0 < r.0) × (r.0 < 2 ^ 32)
    pub fresh : Taken h r.0 → ⊥
    pub owned : Taken r.1 r.0
    pub keeps : (q : ℕ) → Taken h q → Taken r.1 q

  page_address-range :
      (i : ℕ)
      → i < num_pages mem_end
      → (0 < page_address mem_end i) × (page_address mem_end i < 2 ^ 32)
  unfolding page_address
  page_address-range i h = (omega (arith, end.above, end.below), omega arith)

  pick-Laws : (h : Heap) (r : Result h) → After (Laws h) (pick h r)
  unfolding Result pick taken_heap After
  pick-Laws h (inr full) = tt
  pick-Laws h (inl (i, out, e, a)) =
      let here = page_address-injective mem_end i i end a.in_range a.in_range in
      let range = page_address-range i a.in_range in
      let mine : is_set out.1.bitmap i ≢ 0 = ground (arith, a.taken i) in
      record {
        aligned = omega (arith, here.0, a.address);
        in_range = (omega (arith, range.0, a.address), omega (arith, range.1, a.address));
        fresh = λ (j, lt, at, set).
            let same = (page_address-injective mem_end j i end lt a.in_range).1 (at ∙ a.address) in
            set (ap (is_set h.pmm.bitmap) same ∙ a.was_free);
        owned = (i, a.in_range, sym a.address, mine);
        keeps = λ q (j, lt, at, set). (j, lt, at, ground (arith, a.taken j));
      }

  pub laws : {h h' : Heap} {page : ℕ} → pages_kalloc h ≡ done (page, h') → Laws h (page, h')
  unfolding pages_kalloc After
  laws {h = h} e = subst (After (Laws h)) e (pick-Laws h (result h))

  abbrev pub pages : Allocator Heap
  pages = record {
    kalloc = pages_kalloc;
    kfree = pages_kfree;
    Owned = Taken;
    aligned = λ e. (laws e).aligned;
    in_range = λ e. (laws e).in_range;
    fresh = λ e. (laws e).fresh;
    owned = λ e. (laws e).owned;
    keeps = λ e. (laws e).keeps;
  }
