-- ===== src/Paging/Map.antt =====
-- `map_pages` adds the entries of a range of pages to the view and changes no other.
use risc_v_os.Base.{
  ℕ, zero, suc, ◌+◌, ◌-◌, ◌*◌, ◌/◌, ◌%◌, ◌^◌, ◌≤◌, ◌<◌, ◌≡◌, ◌≢◌, ◌⊎◌, inl, inr, refl, sym, ap,
  subst, ◌∙◌, true, false, some, arith, ◌==◌, leb, ℕ_discrete, Bool-cases,
}
use risc_v_os.Base.Outcome.{Outcome, done, panic, asleep, fault}
use risc_v_os.Base.Family.{update}
use risc_v_os.Pmm.{maxva, u32_mod}
use risc_v_os.Paging.{
  Allocator, State, page_of, pte_of, pte_v, second_slot, walk, map_loop, map_pages, page_down,
  all_pages,
}
use risc_v_os.Paging.Drawn.{Draws, Draws-any, Draws-join, Exhausted, refusal, ends_bind}
use risc_v_os.Paging.View.{top, view, vpn1, IsTable, IsFresh, walk-found}
use risc_v_os.Paging.Entry.{same_page, written-IsTable, written-view, top_kept}
use risc_v_os.Paging.Extend.{
  linked, linked-valid, linked-page_of, linked-IsTable, linked-view, linked-top_self, linked-top_ne,
  page_of-entry,
}

-- Aligned addresses that a mapping may use: below the top page, with no wrap.
pub record IsRange (vir last pa : ℕ) : Type 0 where
  pub vir_aligned : vir % 4096 ≡ 0
  pub last_aligned : last % 4096 ≡ 0
  pub order : vir ≤ last
  pub low : last < maxva
  pub pa_aligned : pa % 4096 ≡ 0
  pub pa_low : pa + (last - vir) < 2 ^ 32

module _ {A : Type 0} (al : Allocator A) where
  -- The table is well formed and all its pages are owned.
  pub record IsOwned (s : State A) (pt : ℕ) : Type 0 where
    pub table : IsTable s.words pt
    pub root : al.Owned s.heap pt
    pub children :
        (va : ℕ) → pte_v (top s.words pt va) ≡ true → al.Owned s.heap (page_of (top s.words pt va))

  -- What a walk that may allocate has done.
  pub record Walked (pt va : ℕ) (s t : State A) : Type 0 where
    pub owned : IsOwned t pt
    pub drawn : Draws al 1 s.heap t.heap
    pub valid : pte_v (top t.words pt va) ≡ true
    pub same : (vb : ℕ) → view t.words pt vb ≡ view s.words pt vb

  outcome_cases :
      (m : Outcome (ℕ × A))
      → ((page : ℕ) × (h : A) × (m ≡ done (page, h))) ⊎ ((page : ℕ) (h : A) → m ≢ done (page, h))
  outcome_cases (done (page, h)) = inl (page, h, refl)
  outcome_cases panic = inr (λ page h e. cc)
  outcome_cases asleep = inr (λ page h e. cc)
  outcome_cases fault = inr (λ page h e. cc)

  pub walk_lem :
      (pt va : ℕ) (s : State A)
      → va < maxva
      → IsOwned s pt
      → ((t : State A) × (walk al pt va true s
            ≡ done (some (second_slot (page_of (top t.words pt va)) va), t))
          × Walked pt va s t)
        ⊎ Exhausted al 0 s.heap (walk al pt va true s)
  unfolding walk Draws
  walk_lem pt va s low o = elim (Bool-cases (pte_v (top s.words pt va))) [
    | inl v ↦ inl (
      s,
      walk-found al pt va true s low v,
      record { owned = o; drawn = inl refl; valid = v; same = λ vb. refl },
    )
    | inr v ↦ elim (outcome_cases (al.kalloc s.heap)) [
      | inr fails ↦
          let below : leb maxva va ≡ false = ground arith in
          inr (record {
            at = s.heap;
            drawn = refl;
            refused = fails;
            ends = rw (below, v) (refusal al (al.kalloc s.heap) _ (λ _. fault) fails);
          })
      | inl (page, h, e) ↦
          let below : leb maxva va ≡ false = ground arith in
          let fresh : IsFresh s.words pt page = record {
            aligned = al.aligned e;
            in_range = al.in_range e;
            other_top = λ q. al.fresh e (subst (al.Owned s.heap) (sym q) o.root);
            others = λ vb w q. al.fresh e (subst (al.Owned s.heap) q (o.children vb w));
          } in
          let some_page : (page == 0) ≡ false = ground (arith, fresh.in_range.0) in
          let words = linked s.words pt va page in
          let to_page = linked-page_of s.words pt va page o.table fresh v in
          inl (
            record { words = words; heap = h },
            rw (below, v, e, some_page)
                (ap (λ q. done (some (second_slot q va), record { words = words; heap = h }))
                  (sym to_page)),
            record {
              owned = record {
                table = linked-IsTable s.words pt va page o.table fresh v;
                root = al.keeps e pt o.root;
                children = λ vb w. elim (ℕ_discrete (vpn1 va) (vpn1 vb)) [
                  | yes same ↦
                      subst (al.Owned h)
                        (sym (
                          ap page_of (linked-top_self s.words pt va page o.table fresh v vb same)
                          ∙ page_of-entry s.words pt va page o.table fresh v))
                        (al.owned e)
                  | no differ ↦
                      let old = linked-top_ne s.words pt va page o.table fresh v vb differ in
                      subst (al.Owned h) (sym (ap page_of old)) (
                        al.keeps e (page_of (top s.words pt vb))
                          (o.children vb (ap pte_v (sym old) ∙ w)))
                ];
              };
              drawn = inr (page, h, e, refl);
              valid = linked-valid s.words pt va page o.table fresh v;
              same = linked-view s.words pt va page o.table fresh v;
            },
          )
    ]
  ]

  -- From `s` to `t` the pages from `vir` to `last` are mapped to those from `pa` on.
  pub record Mapped (pt vir last pa perm : ℕ) (s t : State A) : Type 0 where
    pub owned : IsOwned t pt
    pub inside :
        (vb : ℕ)
        → vir ≤ vb
        → vb < last + 4096
        → view t.words pt vb ≡ pte_of (pa + (vb / 4096 * 4096 - vir)) perm
    pub outside :
        (vb : ℕ)
        → vb < 2 ^ 32
        → (vb < vir) ⊎ (last + 4096 ≤ vb)
        → view t.words pt vb ≡ view s.words pt vb

  abbrev set_entry : ℕ → ℕ → ℕ → ℕ → State A → State A
  set_entry pt vir pa perm u = record u {
    words = update u.words (second_slot (page_of (top u.words pt vir)) vir) (pte_of pa perm);
  }

  set_entry-IsOwned :
      (pt vir pa perm : ℕ) (s u : State A)
      → Walked pt vir s u
      → IsOwned (set_entry pt vir pa perm u) pt
  set_entry-IsOwned pt vir pa perm s u w =
      let kept = top_kept u.words pt vir (pte_of pa perm) w.owned.table w.valid in
      record {
        table = written-IsTable u.words pt vir (pte_of pa perm) w.owned.table w.valid;
        root = w.owned.root;
        children = λ vb v.
            subst (al.Owned u.heap) (sym (ap page_of (kept vb)))
              (w.owned.children vb (ap pte_v (sym (kept vb)) ∙ v));
      }

  set_entry-same :
      (pt vir pa perm : ℕ) (s u : State A)
      → Walked pt vir s u
      → vir < maxva
      → vir % 4096 ≡ 0
      → (vb : ℕ) → vir ≤ vb
      → vb < vir + 4096
      → view (set_entry pt vir pa perm u).words pt vb ≡ pte_of pa perm
  set_entry-same pt vir pa perm s u w low al vb lo hi =
      let here : same_page vir vb ≡ true = ground arith in
      written-view u.words pt vir (pte_of pa perm) w.owned.table w.valid vb (omega arith)
        (omega arith)
      ∙ rw here refl

  set_entry-other :
      (pt vir pa perm : ℕ) (s u : State A)
      → Walked pt vir s u
      → vir < maxva
      → vir % 4096 ≡ 0
      → (vb : ℕ) → vb < 2 ^ 32
      → (vb < vir) ⊎ (vir + 4096 ≤ vb)
      → view (set_entry pt vir pa perm u).words pt vb ≡ view s.words pt vb
  set_entry-other pt vir pa perm s u w low al vb h out =
      let there : same_page vir vb ≡ false = ground arith in
      written-view u.words pt vir (pte_of pa perm) w.owned.table w.valid vb (omega arith) h
      ∙ rw there (w.same vb)

  map_loop_lem :
      (rounds pt vir last pa perm : ℕ) (s : State A)
      → IsRange vir last pa
      → last - vir < rounds * 4096
      → IsOwned s pt
      → ((vb : ℕ) → vir ≤ vb → vb < last + 4096 → pte_v (view s.words pt vb) ≡ false)
      → ((t : State A) × (map_loop al rounds pt vir last pa perm s ≡ done (true, t))
          × Mapped pt vir last pa perm s t)
        ⊎ Exhausted al ((last - vir) / 4096) s.heap (map_loop al rounds pt vir last pa perm s)
  unfolding map_loop
  map_loop_lem zero pt vir last pa perm s r enough o blank = absurd (omega arith)
  map_loop_lem (suc rounds) pt vir last pa perm s r enough o blank =
      elim (walk_lem pt vir s (omega (arith, r.order, r.low)) o) [
        | inr x ↦ inr (record {
          at = x.at;
          drawn = Draws-any al ((last - vir) / 4096) s.heap x.at x.drawn;
          refused = x.refused;
          ends = ends_bind al (walk al pt vir true s) _ (al.kalloc x.at) x.refused x.ends;
        })
        | inl (u, e, w) ↦
            let t = set_entry pt vir pa perm u in
            let at : view u.words pt vir
                ≡ u.words (second_slot (page_of (top u.words pt vir)) vir) =
              rw (w.valid) refl in
            let free : pte_v (u.words (second_slot (page_of (top u.words pt vir)) vir)) ≡ false =
              ap pte_v (sym at ∙ w.same vir) ∙ blank vir (omega arith) (omega (arith, r.order)) in
            let low : vir < maxva = omega (arith, r.order, r.low) in
            let here = set_entry-same pt vir pa perm s u w low r.vir_aligned in
            let there = set_entry-other pt vir pa perm s u w low r.vir_aligned in
            let owned = set_entry-IsOwned pt vir pa perm s u w in
            elim (ℕ_discrete vir last) [
              | yes one ↦
                  let stop : (vir == last) ≡ true = ground (arith, one) in
                  inl (
                    t,
                    rw (e, free, stop) refl,
                    record {
                      owned = owned;
                      inside = λ vb lo hi.
                          here vb lo (omega arith)
                          ∙ ap (λ q. pte_of q perm) (omega (arith, r.vir_aligned));
                      outside = λ vb h out. there vb h (omega arith);
                    },
                  )
              | no more ↦
                  let go : (vir == last) ≡ false = ground (arith, more) in
                  let next : (vir + 4096) % u32_mod ≡ vir + 4096 =
                    omega (arith, r.order, r.low, r.vir_aligned, r.last_aligned) in
                  let next_pa : (pa + 4096) % u32_mod ≡ pa + 4096 =
                    omega (arith, r.order, r.pa_low, r.vir_aligned, r.last_aligned) in
                  let range : IsRange (vir + 4096) last (pa + 4096) = record {
                    vir_aligned = omega (arith, r.vir_aligned);
                    last_aligned = r.last_aligned;
                    order = omega (arith, r.order, r.vir_aligned, r.last_aligned);
                    low = r.low;
                    pa_aligned = omega (arith, r.pa_aligned);
                    pa_low = omega (arith, r.order, r.pa_low, r.vir_aligned, r.last_aligned);
                  } in
                  elim (map_loop_lem rounds pt (vir + 4096) last (pa + 4096) perm t range
                    (omega (arith, r.order, r.vir_aligned, r.last_aligned)) owned
                    (λ vb lo hi.
                      ap pte_v (there vb (omega (arith, r.low, r.last_aligned)) (omega arith))
                      ∙ blank vb (omega arith) hi)) [
                        | inr x ↦
                            let count : suc ((last - (vir + 4096)) / 4096) ≡ (last - vir) / 4096 =
                              omega (arith, r.order, r.vir_aligned, r.last_aligned) in
                            inr (record {
                              at = x.at;
                              drawn =
                                  subst (λ k. Draws al k s.heap x.at) count
                                    (Draws-join al ((last - (vir + 4096)) / 4096) s.heap u.heap x.at
                                      w.drawn x.drawn);
                              refused = x.refused;
                              ends = rw (e, free, go, next, next_pa) x.ends;
                            })
                        | inl (t', e', m) ↦ inl (
                          t',
                          rw (e, free, go, next, next_pa) e',
                          record {
                            owned = m.owned;
                            inside = λ vb lo hi. elim (ℕ_discrete (vb / 4096) (vir / 4096)) [
                              | yes first ↦
                                  m.outside vb (omega (arith, r.low, r.last_aligned))
                                    (omega (arith, r.vir_aligned))
                                  ∙ here vb lo (omega (arith, r.vir_aligned))
                                  ∙ ap (λ q. pte_of q perm) (omega (arith, r.vir_aligned))
                              | no later ↦
                                  m.inside vb (omega (arith, r.vir_aligned)) hi
                                  ∙ ap (λ q. pte_of q perm) (omega (arith, r.vir_aligned))
                            ];
                            outside = λ vb h out.
                                m.outside vb h (omega arith) ∙ there vb h (omega (arith, r.order));
                          },
                        )
                      ]
            ]
      ]

  -- `map_pages` of whole pages, none of them mapped, in a table whose pages are owned: either
  -- every page of the range is mapped to the physical page as far from `phy_addr` with the
  -- permissions and the valid bit, every other page is as it was, and the table is well formed; or,
  -- after fewer calls of `kalloc` than there are pages, the run comes to a call of `kalloc` that does
  -- not return, and ends as that call does.
  pub map_pages_lem :
      (pt vir pages phy perm : ℕ) (s : State A)
      → 0 < pages
      → IsRange vir (vir + (pages - 1) * 4096) phy
      → IsOwned s pt
      → ((vb : ℕ) → vir ≤ vb → vb < vir + pages * 4096 → pte_v (view s.words pt vb) ≡ false)
      → ((t : State A) × (map_pages al pt vir phy (pages * 4096) perm s ≡ done (true, t))
          × Mapped pt vir (vir + (pages - 1) * 4096) phy perm s t)
        ⊎ Exhausted al (pages - 1) s.heap (map_pages al pt vir phy (pages * 4096) perm s)
  unfolding map_pages
  map_pages_lem pt vir pages phy perm s some_page r o blank =
      let size : (pages * 4096 == 0) ≡ false = ground arith in
      let first : page_down vir ≡ vir = omega (arith, r.vir_aligned) in
      let final : page_down ((vir + pages * 4096 - 1) % u32_mod) ≡ vir + (pages - 1) * 4096 =
        omega (arith, r.vir_aligned, r.low) in
      elim (map_loop_lem all_pages pt vir (vir + (pages - 1) * 4096) phy perm s r
        (omega (arith, r.low)) o (λ vb lo hi. blank vb lo (omega arith))) [
          | inr x ↦
              let count : (vir + (pages - 1) * 4096 - vir) / 4096 ≡ pages - 1 = omega arith in
              inr (record {
                at = x.at;
                drawn = subst (λ k. Draws al k s.heap x.at) count x.drawn;
                refused = x.refused;
                ends = rw (size, first, final) x.ends;
              })
          | inl (t, e, m) ↦ inl (t, rw (size, first, final) e, m)
        ]
