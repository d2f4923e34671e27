-- ===== src/Paging/Unmap.antt =====
-- Reading a mapping back, and what `uvmunmap` and `uvmdealloc` take away.
use risc_v_os.Base.{
  ℕ, suc, ◌+◌, ◌-◌, ◌*◌, ◌/◌, ◌%◌, ◌^◌, ◌≤◌, ◌<◌, ◌≡◌, ◌⊎◌, inl, inr, refl, sym, ap, ◌∙◌, Bool,
  true, false, arith, ◌==◌, leb, if◌then◌else◌, Bool-cases,
}
use risc_v_os.Base.Outcome.{done}
use risc_v_os.Base.Family.{update}
use risc_v_os.Pmm.{maxva, u32_mod}
use risc_v_os.Paging.{
  Allocator, State, page_of, pte_v, pte_u, second_slot, fetch_pa_addr, map_pages, unmap_loop,
  uvmunmap, page_down, all_pages,
}
use risc_v_os.Paging.View.{top, view, IsTable, walk-found, fetch_pa_addr_lem}
use risc_v_os.Paging.Entry.{same_page, written-view, written-IsTable, pte_of-page}
use risc_v_os.Paging.Drawn.{Exhausted}
use risc_v_os.Paging.Map.{Mapped, IsRange, IsOwned, map_pages_lem}

module _ {A : Type 0} (al : Allocator A) where
  fetch_pa_addr-Mapped :
      (pt vir last phy perm : ℕ) (s t : State A)
      → IsRange vir last phy
      → Mapped al pt vir last phy perm s t
      → perm < 1024
      → perm / 16 % 2 ≡ 1
      → (va : ℕ) → vir ≤ va
      → va < last + 4096
      → va < maxva
      → fetch_pa_addr al pt va t ≡ done (phy + (va / 4096 * 4096 - vir))
  fetch_pa_addr-Mapped pt vir last phy perm s t r m small user va lo hi low =
      let pa = phy + (va / 4096 * 4096 - vir) in
      let below : leb maxva va ≡ false = ground arith in
      let in_range : pa < 2 ^ 32 = omega (arith, r.pa_low, r.last_aligned) in
      let (page, valid) = pte_of-page pa perm in_range small in
      let v : pte_v (view t.words pt va) ≡ true = ap pte_v (m.inside va lo hi) ∙ valid in
      let u : pte_u (view t.words pt va) ≡ true = ap pte_u (m.inside va lo hi) ∙ ground arith in
      fetch_pa_addr_lem al pt va t
      ∙ rw (below, v, u)
          (ap done
            (ap page_of (m.inside va lo hi) ∙ page ∙ omega (arith, r.pa_aligned, r.vir_aligned)))

  -- `map_pages` of whole pages, none of them mapped, with the user's permission, in a table whose
  -- pages are owned: either `map_pages` returns and afterwards `fetch_pa_addr` of each address in
  -- the range gives the physical page that lies as far from the first one as the page of the address
  -- from the first page; or, after fewer calls of `kalloc` than there are pages, the run of
  -- `map_pages` comes to a call of `kalloc` that does not return, and ends as that call does.
  pub fetch_pa_addr-map_pages :
      (pt vir pages phy perm : ℕ) (s : State A)
      → 0 < pages
      → IsRange vir (vir + (pages - 1) * 4096) phy
      → IsOwned al s pt
      → ((vb : ℕ) → vir ≤ vb → vb < vir + pages * 4096 → pte_v (view s.words pt vb) ≡ false)
      → perm < 1024
      → perm / 16 % 2 ≡ 1
      → ((t : State A) × (map_pages al pt vir phy (pages * 4096) perm s ≡ done (true, t))
          × ((va : ℕ)
              → vir ≤ va
              → va < vir + pages * 4096
              → va < maxva
              → fetch_pa_addr al pt va t ≡ done (phy + (va / 4096 * 4096 - vir))))
        ⊎ Exhausted al (pages - 1) s.heap (map_pages al pt vir phy (pages * 4096) perm s)
  fetch_pa_addr-map_pages pt vir pages phy perm s some_page r o blank small user =
      elim (map_pages_lem al pt vir pages phy perm s some_page r o blank) [
        | inr x ↦ inr x
        | inl (t, e, m) ↦ inl (
          t,
          e,
          λ va lo hi low.
              fetch_pa_addr-Mapped pt vir (vir + (pages - 1) * 4096) phy perm s t r m small user va
                lo (omega arith) low,
        )
      ]

  -- An entry that `uvmunmap` accepts.
  pub record IsLeaf (e : ℕ) : Type 0 where
    pub valid : pte_v e ≡ true
    pub leaf : (e % 1024 == 1) ≡ false

  view-valid :
      (words : ℕ → ℕ) (pt va : ℕ) → pte_v (view words pt va) ≡ true → pte_v (top words pt va) ≡ true
  view-valid words pt va v = elim (Bool-cases (pte_v (top words pt va))) [
    | inl w ↦ w
    | inr w ↦ let none_there : pte_v (view words pt va) ≡ false = rw w refl in cc
  ]

  abbrev erased : ℕ → ℕ → A → State A → State A
  erased pt va heap s = record {
    words = update s.words (second_slot (page_of (top s.words pt va)) va) 0;
    heap = heap;
  }

  unmap_last :
      (rounds pt va : ℕ) (free : Bool) (s : State A) (heap : A)
      → va < maxva
      → IsLeaf (view s.words pt va)
      → (if free then al.kfree (page_of (view s.words pt va)) s.heap else done s.heap) ≡ done heap
      → unmap_loop al (suc rounds) pt va va free s ≡ done (erased pt va heap s)
  unfolding unmap_loop
  unmap_last rounds pt va free s heap low leaf freed =
      let top_v = view-valid s.words pt va leaf.valid in
      let slot = second_slot (page_of (top s.words pt va)) va in
      let at : view s.words pt va ≡ s.words slot = rw top_v refl in
      let found = walk-found al pt va false s low top_v in
      let valid : pte_v (s.words slot) ≡ true = ap pte_v (sym at) ∙ leaf.valid in
      let is_leaf : (s.words slot % 1024 == 1) ≡ false =
        ap (λ e. e % 1024 == 1) (sym at) ∙ leaf.leaf in
      let give : (if free then al.kfree (page_of (s.words slot)) s.heap else done s.heap)
          ≡ done heap =
        ap (λ e. if free then al.kfree (page_of e) s.heap else done s.heap) (sym at) ∙ freed in
      let stop : (va == va) ≡ true = ground arith in rw (found, valid, is_leaf, give, stop) refl

  -- `uvmunmap` of at most 4096 pages from an aligned address whose page is mapped: it clears the
  -- entry of that one page, giving its memory back when asked, and changes no other entry, however
  -- many of the pages are mapped.
  pub uvmunmap_lem :
      (pt va num_pages : ℕ) (free : Bool) (s : State A) (heap : A)
      → IsTable s.words pt
      → va % 4096 ≡ 0
      → va < maxva
      → 0 < num_pages
      → num_pages ≤ 4096
      → IsLeaf (view s.words pt va)
      → (if free then al.kfree (page_of (view s.words pt va)) s.heap else done s.heap) ≡ done heap
      → (t : State A) × (uvmunmap al pt va num_pages free s ≡ done t)
        × (t.heap ≡ heap)
        × IsTable t.words pt
        × ((vb : ℕ)
            → vb < 2 ^ 32
            → view t.words pt vb ≡ (if same_page va vb then 0 else view s.words pt vb))
  unfolding uvmunmap
  uvmunmap_lem pt va n free s heap t al_va low some_page few leaf freed =
      let top_v = view-valid s.words pt va leaf.valid in
      let aligned : (va % 4096 == 0) ≡ true = ground arith in
      let first : page_down va ≡ va = omega arith in
      let last : page_down ((va + n + u32_mod - 1) % u32_mod) ≡ va = omega arith in
      (
        erased pt va heap s,
        rw aligned (
            ap
              (λ a.
                unmap_loop al all_pages pt a (page_down ((va + n + u32_mod - 1) % u32_mod)) free s)
              first
            ∙ ap (λ l. unmap_loop al all_pages pt va l free s) last
            ∙ unmap_last (2 ^ 20 - 1) pt va free s heap low leaf freed),
        refl,
        written-IsTable s.words pt va 0 t top_v,
        λ vb h. written-view s.words pt va 0 t top_v vb (omega arith) h,
      )
