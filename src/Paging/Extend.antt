-- ===== src/Paging/Extend.antt =====
-- A new table of the second level, cleared and linked from the first, leaves the view as it was.
use risc_v_os.Base.{
  ℕ, ◌+◌, ◌*◌, ◌/◌, ◌≤◌, ◌<◌, ◌≡◌, ◌≢◌, ◌⊎◌, inl, inr, refl, sym, ap, ◌∙◌, true, false, arith,
  if◌then◌else◌, ℕ_discrete, Bool-cases,
}
use risc_v_os.Base.Family.{update, update_self, update_ne}
use risc_v_os.Paging.{page_of, pte_v, first_slot, second_slot, clear_page}
use risc_v_os.Paging.View.{top, view, vpn1, IsTable, IsFresh}
use risc_v_os.Paging.Entry.{same_slot, page_of-aligned}

clear_page-outside :
    (page : ℕ) (words : ℕ → ℕ) (a : ℕ)
    → (a < page) ⊎ (page + 4096 ≤ a)
    → clear_page page words a ≡ words a
unfolding clear_page
clear_page-outside page words a out = ground arith

clear_page-inside :
    (page : ℕ) (words : ℕ → ℕ) (a : ℕ) → page ≤ a → a < page + 4096 → clear_page page words a ≡ 0
unfolding clear_page
clear_page-inside page words a lo hi = ground arith

-- The words after the new table `page` is linked at the first-level slot of `va`.
abbrev pub linked : (ℕ → ℕ) → ℕ → ℕ → ℕ → ℕ → ℕ
linked words pt va page = update (clear_page page words) (first_slot pt va) (page / 4096 * 1024 + 1)

module _ (words : ℕ → ℕ) (pt va page : ℕ) (t : IsTable words pt) (f : IsFresh words pt page)
    (new : pte_v (top words pt va) ≡ false) where
  entry : ℕ
  entry = page / 4096 * 1024 + 1

  pub linked-top_self :
      (vb : ℕ) → vpn1 va ≡ vpn1 vb → top (linked words pt va page) pt vb ≡ page / 4096 * 1024 + 1
  linked-top_self vb same =
      let at : first_slot pt vb ≡ first_slot pt va = omega (arith, same) in
      ap (linked words pt va page) at
      ∙ update_self (clear_page page words) (first_slot pt va) (page / 4096 * 1024 + 1)

  pub linked-top_ne :
      (vb : ℕ) → vpn1 va ≢ vpn1 vb → top (linked words pt va page) pt vb ≡ top words pt vb
  linked-top_ne vb differ =
      update_ne (clear_page page words) (first_slot pt va) (first_slot pt vb)
        (page / 4096 * 1024 + 1) (omega arith)
      ∙ clear_page-outside page words (first_slot pt vb)
          (omega (arith, t.aligned, f.aligned, f.other_top))

  pub page_of-entry : page_of (page / 4096 * 1024 + 1) ≡ page
  page_of-entry = omega (arith, f.aligned, f.in_range.1)

  pte_v-entry : pte_v (page / 4096 * 1024 + 1) ≡ true
  pte_v-entry = ground arith

  -- What the first table says of an address afterwards: the new page, or what it said.
  Cases : ℕ → Type 0
  Cases vb =
      ((vpn1 va ≡ vpn1 vb) × (page_of (top (linked words pt va page) pt vb) ≡ page))
      ⊎ ((vpn1 va ≢ vpn1 vb) × (top (linked words pt va page) pt vb ≡ top words pt vb))

  cases : (vb : ℕ) → Cases vb
  unfolding Cases
  cases vb = elim (ℕ_discrete (vpn1 va) (vpn1 vb)) [
    | yes same ↦ inl (same, ap page_of (linked-top_self vb same) ∙ page_of-entry)
    | no differ ↦ inr (differ, linked-top_ne vb differ)
  ]

  pub linked-valid : pte_v (top (linked words pt va page) pt va) ≡ true
  linked-valid = ap pte_v (linked-top_self va refl) ∙ pte_v-entry

  pub linked-page_of : page_of (top (linked words pt va page) pt va) ≡ page
  linked-page_of = ap page_of (linked-top_self va refl) ∙ page_of-entry

  pub linked-IsTable : IsTable (linked words pt va page) pt
  unfolding Cases
  linked-IsTable = record {
    aligned = t.aligned;
    apart = λ vb w q. elim (cases vb) [
      | inl (same, p) ↦ f.other_top (sym p ∙ q)
      | inr (differ, e) ↦ t.apart vb (ap pte_v (sym e) ∙ w) (ap page_of (sym e) ∙ q)
    ];
    single = λ vb vc wb wc q. elim (cases vb) [
      | inl (same, p) ↦ elim (cases vc) [
        | inl (same', p') ↦ sym same ∙ same'
        | inr (differ', e') ↦
            absurd (f.others vc (ap pte_v (sym e') ∙ wc) (ap page_of (sym e') ∙ sym q ∙ p))
      ]
      | inr (differ, e) ↦ elim (cases vc) [
        | inl (same', p') ↦
            absurd (f.others vb (ap pte_v (sym e) ∙ wb) (ap page_of (sym e) ∙ q ∙ p'))
        | inr (differ', e') ↦
            t.single vb vc (ap pte_v (sym e) ∙ wb) (ap pte_v (sym e') ∙ wc)
              (ap page_of (sym e) ∙ q ∙ ap page_of e')
      ]
    ];
  }

  pub linked-view : (vb : ℕ) → view (linked words pt va page) pt vb ≡ view words pt vb
  linked-view vb = elim (ℕ_discrete (vpn1 va) (vpn1 vb)) [
    | yes same ↦
        let e = linked-top_self vb same in
        let old : pte_v (top words pt vb) ≡ false =
          ap pte_v (sym (same_slot words pt va vb same)) ∙ new in
        let blank : linked words pt va page (second_slot page vb) ≡ 0 =
          update_ne (clear_page page words) (first_slot pt va) (second_slot page vb)
            (page / 4096 * 1024 + 1) (omega (arith, t.aligned, f.aligned, f.other_top))
          ∙ clear_page-inside page words (second_slot page vb) (omega arith) (omega arith) in
        ap (λ x. if pte_v x then linked words pt va page (second_slot (page_of x) vb) else 0) e
        ∙ rw (pte_v-entry, old)
            (ap (λ q. linked words pt va page (second_slot q vb)) page_of-entry ∙ blank)
    | no differ ↦
        let e = linked-top_ne vb differ in
        ap (λ x. if pte_v x then linked words pt va page (second_slot (page_of x) vb) else 0) e
        ∙ elim (Bool-cases (pte_v (top words pt vb))) [
          | inr w ↦ rw w refl
          | inl w ↦ rw w (
              update_ne (clear_page page words) (first_slot pt va)
                (second_slot (page_of (top words pt vb)) vb) (page / 4096 * 1024 + 1)
                (omega (arith, t.aligned, t.apart vb w, page_of-aligned (top words pt vb)))
              ∙ clear_page-outside page words (second_slot (page_of (top words pt vb)) vb)
                  (omega (arith, f.aligned, f.others vb w, page_of-aligned (top words pt vb))))
        ]
  ]
