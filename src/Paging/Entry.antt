-- ===== src/Paging/Entry.antt =====
-- Writing one entry of a page table changes the view of its page only.
use risc_v_os.Base.{
  ℕ, ◌+◌, ◌*◌, ◌/◌, ◌%◌, ◌^◌, ◌<◌, ◌≡◌, ◌≢◌, inl, inr, refl, sym, ap, ◌∙◌, Bool, true, false, arith,
  ◌==◌, if◌then◌else◌, ℕ_discrete, Bool-cases,
}
use risc_v_os.Base.Family.{update, update_self, update_ne}
use risc_v_os.Paging.{page_of, pte_of, pte_v, first_slot, second_slot}
use risc_v_os.Paging.View.{top, view, vpn1, IsTable}

-- Two addresses are in one page.
abbrev pub same_page : ℕ → ℕ → Bool
same_page va vb = va / 4096 == vb / 4096

pub pte_of-page :
    (pa perm : ℕ)
    → pa < 2 ^ 32
    → perm < 1024
    → (page_of (pte_of pa perm) ≡ pa / 4096 * 4096) × (pte_v (pte_of pa perm) ≡ true)
pte_of-page pa perm h k = (omega arith, ground arith)

pub page_of-aligned : (e : ℕ) → page_of e % 4096 ≡ 0
page_of-aligned e = omega arith

-- Entries of one first-level slot are the same word.
pub same_slot :
    (words : ℕ → ℕ) (pt va vb : ℕ) → vpn1 va ≡ vpn1 vb → top words pt va ≡ top words pt vb
same_slot words pt va vb e = ap (λ i. words (pt + i * 4)) e

-- Writing the second-level slot of `va`.
module _ (words : ℕ → ℕ) (pt va e : ℕ) (t : IsTable words pt)
    (v : pte_v (top words pt va) ≡ true) where
  abbrev pub slot : ℕ
  slot = second_slot (page_of (top words pt va)) va

  pub top_kept : (vb : ℕ) → top (update words slot e) pt vb ≡ top words pt vb
  top_kept vb =
      update_ne words slot (first_slot pt vb) e
        (omega (arith, t.aligned, t.apart va v, page_of-aligned (top words pt va)))

  pub written-IsTable : IsTable (update words slot e) pt
  written-IsTable = record {
    aligned = t.aligned;
    apart = λ vb w q.
        t.apart vb (ap pte_v (sym (top_kept vb)) ∙ w) (ap page_of (sym (top_kept vb)) ∙ q);
    single = λ vb vc wb wc q.
        t.single vb vc (ap pte_v (sym (top_kept vb)) ∙ wb) (ap pte_v (sym (top_kept vc)) ∙ wc)
          (ap page_of (sym (top_kept vb)) ∙ q ∙ ap page_of (top_kept vc));
  }

  written_second :
      (vb : ℕ)
      → va < 2 ^ 32
      → vb < 2 ^ 32
      → pte_v (top words pt vb) ≡ true
      → update words slot e (second_slot (page_of (top words pt vb)) vb)
        ≡ (if same_page va vb then e else words (second_slot (page_of (top words pt vb)) vb))
  written_second vb ha hb w = elim (ℕ_discrete (vpn1 va) (vpn1 vb)) [
    | yes same ↦
        let q = ap page_of (same_slot words pt va vb same) in
        elim (Bool-cases (same_page va vb)) [
          | inl one ↦
              let page : va / 4096 ≡ vb / 4096 = ground (arith, one) in
              let at : second_slot (page_of (top words pt vb)) vb ≡ slot = omega (arith, q, page) in
              rw one (ap (update words slot e) at ∙ update_self words slot e)
          | inr two ↦ rw two (
              update_ne words slot (second_slot (page_of (top words pt vb)) vb) e
                (ground (arith, q, two)))
        ]
    | no differ ↦
        let apart : page_of (top words pt va) ≢ page_of (top words pt vb) =
          λ q. differ (t.single va vb v w q) in
        let two : same_page va vb ≡ false = ground (arith, differ) in
        rw two (
          update_ne words slot (second_slot (page_of (top words pt vb)) vb) e (
            omega
              (arith, apart, page_of-aligned (top words pt va), page_of-aligned (top words pt vb))))
  ]

  pub written-view :
      (vb : ℕ)
      → va < 2 ^ 32
      → vb < 2 ^ 32
      → view (update words slot e) pt vb ≡ (if same_page va vb then e else view words pt vb)
  written-view vb ha hb = elim (Bool-cases (pte_v (top words pt vb))) [
    | inl w ↦
        ap (λ x. if pte_v x then update words slot e (second_slot (page_of x) vb) else 0)
          (top_kept vb)
        ∙ rw w (written_second vb ha hb w)
    | inr w ↦
        let two : same_page va vb ≡ false = elim (Bool-cases (same_page va vb)) [
          | inl one ↦
              let same : vpn1 va ≡ vpn1 vb = ground (arith, one) in
              let q = ap pte_v (same_slot words pt va vb same) in cc
          | inr two ↦ two
        ] in
        ap (λ x. if pte_v x then update words slot e (second_slot (page_of x) vb) else 0)
          (top_kept vb)
        ∙ rw (w, two) refl
  ]
