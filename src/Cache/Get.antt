-- ===== src/Cache/Get.antt =====
-- `buffer_get` and `buffer_read`: which buffer a block gets, and that no block gets two.
use risc_v_os.Base.{
  ℕ, ◌≤◌, ◌<◌, ◌≡◌, ◌≢◌, ◌⊎◌, inl, inr, refl, sym, subst, Bool, true, false, List, [], ◌∷◌, arith,
  length, Bool-cases, Option-cases,
}
use risc_v_os.Base.Outcome.{done, panic}
use risc_v_os.Cache.{
  State, Buffer, numbuf, list_head, put_buffer, find, is_block, is_idle, inc_buf_refcount, recycle,
  choose,
}
use risc_v_os.Cache.Chain.{
  All, All-imp, All-both, Distinct, Ring, first, find-first, first-some, first-none, backwards,
  Chain-backwards, All-backwards, length-backwards,
}

abbrev pub Member : ℕ → List ℕ → Type 0
Member i [] = ⊥
Member i (x ∷ xs) = (i ≡ x) ⊎ Member i xs

All-at : (P : ℕ → Type 0) (xs : List ℕ) (i : ℕ) → All P xs → Member i xs → P i
All-at P [] i h m = absurd m
All-at P (x ∷ xs) i (h, hs) (inl e) = subst P (sym e) h
All-at P (x ∷ xs) i (h, hs) (inr m) = All-at P xs i hs m

All-Member : (xs : List ℕ) → All (λ k. Member k xs) xs
All-Member [] = tt
All-Member (x ∷ xs) = (
  inl refl,
  All-imp (λ k. Member k xs) (λ k. Member k (x ∷ xs)) (λ k m. inr m) xs (All-Member xs),
)

-- No two buffers of the list are for one block; device 0 marks a buffer that has had none.
abbrev pub Unique : (ℕ → Buffer) → List ℕ → Type 0
Unique buffer xs =
    (i j : ℕ)
    → Member i xs
    → Member j xs
    → (buffer i).dev ≢ 0
    → (buffer i).dev ≡ (buffer j).dev
    → (buffer i).blockno ≡ (buffer j).blockno
    → i ≡ j

pub record IsValid (s : State) (xs : List ℕ) : Type 0 where
  pub ring : Ring s.links xs
  pub nodes : All (λ k. k < numbuf) xs
  pub distinct : Distinct xs
  pub few : length xs ≤ numbuf
  pub unique : Unique s.buffer xs

abbrev pub NotCached : ℕ → ℕ → State → List ℕ → Type 0
NotCached dev blockno s xs = All (λ k. is_block dev blockno (s.buffer k) ≡ false) xs

abbrev pub AllBusy : State → List ℕ → Type 0
AllBusy s xs = All (λ k. is_idle (s.buffer k) ≡ false) xs

pub record Chosen (dev blockno : ℕ) (s : State) (xs : List ℕ) (i : ℕ) (t : State) : Type 0 where
  pub inside : i < numbuf
  pub member : Member i xs
  pub source :
      ((is_block dev blockno (s.buffer i) ≡ true)
        × (t ≡ put_buffer i (inc_buf_refcount (s.buffer i)) s))
      ⊎ (NotCached dev blockno s xs
          × (is_idle (s.buffer i) ≡ true)
          × (t ≡ put_buffer i (recycle dev blockno (s.buffer i)) s))

module _ (dev blockno : ℕ) (s : State) (xs : List ℕ) (v : IsValid s xs) where
  abbrev cached : ℕ → Bool
  cached i = is_block dev blockno (s.buffer i)

  abbrev idle : ℕ → Bool
  idle i = is_idle (s.buffer i)

  below_head : All (λ k. k ≢ list_head) xs
  below_head = All-imp (λ k. k < numbuf) (λ k. k ≢ list_head) (λ k h. omega arith) xs v.nodes

  search : find cached s.links.next 31 (s.links.next list_head) ≡ done (first cached xs)
  search =
      find-first s.links.next s.links.prev cached 31 list_head xs v.ring below_head
        (omega (arith, v.few))

  search_back :
      find idle s.links.prev 31 (s.links.prev list_head) ≡ done (first idle (backwards xs))
  search_back =
      find-first s.links.prev s.links.next idle 31 list_head (backwards xs)
        (Chain-backwards s.links.next s.links.prev list_head xs list_head v.ring)
        (All-backwards (λ k. k ≢ list_head) xs below_head)
        (omega (arith, v.few, length-backwards xs))

  Node : ℕ → Type 0
  Node k = (k < numbuf) × Member k xs

  nodes_of : All Node xs
  unfolding Node
  nodes_of = All-both (λ k. k < numbuf) (λ k. Member k xs) xs v.nodes (All-Member xs)

  abbrev pub Choice : Type 0
  Choice =
      ((i : ℕ) × (t : State) × (choose dev blockno s ≡ done (i, t)) × Chosen dev blockno s xs i t)
      ⊎ ((choose dev blockno s ≡ panic) × NotCached dev blockno s xs × AllBusy s (backwards xs))

  pub chosen : Choice
  unfolding choose Node
  chosen = elim (Option-cases (first cached xs)) [
    | inr (i, e) ↦
        let (hit, low) = first-some cached Node xs i nodes_of e in
        inl (
          i,
          put_buffer i (inc_buf_refcount (s.buffer i)) s,
          rw (search, e) refl,
          record { inside = low.0; member = low.1; source = inl (hit, refl) },
        )
    | inl e ↦ elim (Option-cases (first idle (backwards xs))) [
      | inr (i, e') ↦
          let (free, low) =
            first-some idle Node (backwards xs) i (All-backwards Node xs nodes_of) e' in
          inl (
            i,
            put_buffer i (recycle dev blockno (s.buffer i)) s,
            rw (search, e, search_back, e') refl,
            record {
              inside = low.0;
              member = low.1;
              source = inr (first-none cached xs e, free, refl);
            },
          )
      | inl e' ↦ inr (
        rw (search, e, search_back, e') refl,
        first-none cached xs e,
        first-none idle (backwards xs) e',
      )
    ]
  ]

  -- After the choice no other buffer of the list is for the block.
  pub others_differ :
      (i : ℕ) (t : State)
      → dev ≢ 0
      → Chosen dev blockno s xs i t
      → (j : ℕ) → Member j xs
      → j ≢ i
      → cached j ≡ false
  others_differ i t some_dev c j m ne = elim c.source [
    | inl (hit, e) ↦ elim (Bool-cases (cached j)) [
      | inl also ↦ absurd (ground (arith, v.unique j i m c.member))
      | inr other ↦ other
    ]
    | inr (missing, free, e) ↦ All-at (λ k. cached k ≡ false) xs j missing m
  ]
