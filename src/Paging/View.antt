-- ===== src/Paging/View.antt =====
-- A page table as a map from pages to entries, and when its tables do not overlap.
use risc_v_os.Base.{
  ℕ, ◌/◌, ◌%◌, ◌^◌, ◌<◌, ◌≡◌, ◌≢◌, inl, inr, refl, Bool, true, false, not, none, some, arith, leb,
  if◌then◌else◌, Bool-cases,
}
use risc_v_os.Base.Outcome.{done}
use risc_v_os.Pmm.{maxva}
use risc_v_os.Paging.{
  Allocator, State, page_of, pte_v, pte_u, first_slot, second_slot, walk, fetch_pa_addr,
}

abbrev pub top : (ℕ → ℕ) → ℕ → ℕ → ℕ
top words pt va = words (first_slot pt va)

-- The entry of an address, 0 when no second table covers it.
abbrev pub view : (ℕ → ℕ) → ℕ → ℕ → ℕ
view words pt va =
    if pte_v (top words pt va) then words (second_slot (page_of (top words pt va)) va) else 0

-- The index of an address in the first table.
abbrev pub vpn1 : ℕ → ℕ
vpn1 va = va / 2 ^ 22 % 1024

-- The tables are aligned pages of their own.
pub record IsTable (words : ℕ → ℕ) (pt : ℕ) : Type 0 where
  pub aligned : pt % 4096 ≡ 0
  pub apart : (va : ℕ) → pte_v (top words pt va) ≡ true → page_of (top words pt va) ≢ pt
  pub single :
      (va vb : ℕ)
      → pte_v (top words pt va) ≡ true
      → pte_v (top words pt vb) ≡ true
      → page_of (top words pt va) ≡ page_of (top words pt vb)
      → vpn1 va ≡ vpn1 vb

-- A page that holds none of the tables.
pub record IsFresh (words : ℕ → ℕ) (pt page : ℕ) : Type 0 where
  pub aligned : page % 4096 ≡ 0
  pub in_range : (0 < page) × (page < 2 ^ 32)
  pub other_top : page ≢ pt
  pub others : (va : ℕ) → pte_v (top words pt va) ≡ true → page_of (top words pt va) ≢ page

module _ {A : Type 0} (al : Allocator A) where
  -- A walk that does not allocate finds the slot of the entry and changes nothing.
  pub walk-found :
      (pt va : ℕ) (alloc : Bool) (s : State A)
      → va < maxva
      → pte_v (top s.words pt va) ≡ true
      → walk al pt va alloc s ≡ done (some (second_slot (page_of (top s.words pt va)) va), s)
  unfolding walk
  walk-found pt va alloc s low v = let ok : leb maxva va ≡ false = ground arith in rw (ok, v) refl

  pub walk-none :
      (pt va : ℕ) (s : State A)
      → va < maxva
      → pte_v (top s.words pt va) ≡ false
      → walk al pt va false s ≡ done (none, s)
  unfolding walk
  walk-none pt va s low v = let ok : leb maxva va ≡ false = ground arith in rw (ok, v) refl

  -- `fetch_pa_addr` reads the view: 0 for an address that is out of range, not mapped, or not the
  -- user's, and otherwise the page that the entry names.
  pub fetch_pa_addr_lem :
      (pt va : ℕ) (s : State A)
      → fetch_pa_addr al pt va s
        ≡ done (
            if leb maxva va
            then 0
            else if not (pte_v (view s.words pt va))
            then 0
            else if not (pte_u (view s.words pt va))
            then 0
            else page_of (view s.words pt va))
  unfolding fetch_pa_addr
  fetch_pa_addr_lem pt va s = elim (Bool-cases (leb maxva va)) [
    | inl high ↦ rw high refl
    | inr low ↦
        let below : va < maxva = ground arith in
        elim (Bool-cases (pte_v (top s.words pt va))) [
          | inl v ↦ rw (low, walk-found pt va false s below v, v) refl
          | inr v ↦ rw (low, walk-none pt va s below v, v) refl
        ]
  ]
