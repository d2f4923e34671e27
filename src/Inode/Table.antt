-- ===== src/Inode/Table.antt =====
-- The inode table of `inode_get`: how a slot is found, and that no inode has two slots.
use risc_v_os.Base.{
  ℕ, zero, suc, ◌+◌, ◌≤◌, ◌<◌, ◌≡◌, ◌⊎◌, inl, inr, refl, Bool, true, false, Option, none, some,
  arith, ◌==◌, ◌∙◌, ap, Bool-cases, ℕ_discrete, sym, ap₂, subst,
}
use risc_v_os.Base.Outcome.{done, panic}
use risc_v_os.Base.Family.{update, update_self, update_ne}
use risc_v_os.Inode.{
  State, Inode, is_inode, get_from, take_slot, inode_get, numinode, more_refs, claim, put_inode,
}

-- The first place below `n` where a test holds, if there is one.
first_below :
    (test : ℕ → Bool) (n : ℕ)
    → ((k : ℕ) × (k < n) × (test k ≡ true) × ((j : ℕ) → j < k → test j ≡ false))
      ⊎ ((j : ℕ) → j < n → test j ≡ false)
first_below test zero = inr (λ j h. absurd (omega arith))
first_below test (suc n) = elim (first_below test n) [
  | inl (k, h, yes_k, before) ↦ inl (k, omega arith, yes_k, before)
  | inr none_before ↦ elim (Bool-cases (test n)) [
    | inl hit ↦ inl (n, omega arith, hit, none_before)
    | inr miss ↦ inr (λ j h. elim (ℕ_discrete j n) [
      | yes here ↦ ap test here ∙ miss
      | no below ↦ none_before j (omega arith)
    ])
  ]
]

module _ (dev num : ℕ) (table : ℕ → Inode) where
  get_from-hit :
      (left i k : ℕ) (empty : Option ℕ)
      → i ≤ k
      → k < i + left
      → is_inode dev num (table k) ≡ true
      → ((j : ℕ) → i ≤ j → j < k → is_inode dev num (table j) ≡ false)
      → get_from left i dev num empty table ≡ (true, some k)
  unfolding get_from
  get_from-hit zero i k empty lo hi hit before = absurd (omega arith)
  get_from-hit (suc left) i k empty lo hi hit before = elim (ℕ_discrete i k) [
    | yes here ↦ rw (here, hit) refl
    | no later ↦ rw (before i (omega arith) (omega arith)) (
        get_from-hit left (i + 1) k _ (omega arith) (omega arith) hit
          (λ j a b. before j (omega arith) b))
  ]

  get_from-kept :
      (left i e : ℕ)
      → ((j : ℕ) → i ≤ j → j < i + left → is_inode dev num (table j) ≡ false)
      → get_from left i dev num (some e) table ≡ (false, some e)
  unfolding get_from
  get_from-kept zero i e missing = refl
  get_from-kept (suc left) i e missing =
      rw (missing i (omega arith) (omega arith))
        (get_from-kept left (i + 1) e (λ j a b. missing j (omega arith) (omega arith)))

  get_from-free :
      (left i k : ℕ)
      → i ≤ k
      → k < i + left
      → ((j : ℕ) → i ≤ j → j < i + left → is_inode dev num (table j) ≡ false)
      → ((table k).refcount == 0) ≡ true
      → ((j : ℕ) → i ≤ j → j < k → ((table j).refcount == 0) ≡ false)
      → get_from left i dev num none table ≡ (false, some k)
  unfolding get_from
  get_from-free zero i k lo hi missing free before = absurd (omega arith)
  get_from-free (suc left) i k lo hi missing free before = elim (ℕ_discrete i k) [
    | yes here ↦
        let free' : ((table i).refcount == 0) ≡ true = rw here free in
        rw (missing i (omega arith) (omega arith), free')
          (get_from-kept left (i + 1) i (λ j a b. missing j (omega arith) (omega arith))
            ∙ ap (λ x. (false, some x)) here)
    | no later ↦
        rw (missing i (omega arith) (omega arith), before i (omega arith) (omega arith))
          (get_from-free left (i + 1) k (omega arith) (omega arith)
            (λ j a b. missing j (omega arith) (omega arith)) free
            (λ j a b. before j (omega arith) b))
  ]

  get_from-full :
      (left i : ℕ)
      → ((j : ℕ) → i ≤ j → j < i + left → is_inode dev num (table j) ≡ false)
      → ((j : ℕ) → i ≤ j → j < i + left → ((table j).refcount == 0) ≡ false)
      → get_from left i dev num none table ≡ (false, none)
  unfolding get_from
  get_from-full zero i missing used = refl
  get_from-full (suc left) i missing used =
      rw (missing i (omega arith) (omega arith), used i (omega arith) (omega arith))
        (get_from-full left (i + 1) (λ j a b. missing j (omega arith) (omega arith))
          (λ j a b. used j (omega arith) (omega arith)))

-- What `inode_get` does: it counts a reference to the slot of the inode, or takes the first free
-- slot, or panics when there is neither.
abbrev pub Result : ℕ → ℕ → State → Type 0
Result dev num s =
    ((k : ℕ) × (k < numinode)
      × (is_inode dev num (s.table k) ≡ true)
      × (inode_get dev num s ≡ done (k, put_inode k (more_refs (s.table k)) s)))
    ⊎ (((j : ℕ) → j < numinode → is_inode dev num (s.table j) ≡ false)
        × (((k : ℕ) × (k < numinode)
              × (((s.table k).refcount == 0) ≡ true)
              × ((j : ℕ) → j < k → ((s.table j).refcount == 0) ≡ false)
              × (inode_get dev num s ≡ done (k, put_inode k (claim dev num (s.table k)) s)))
            ⊎ (((j : ℕ) → j < numinode → ((s.table j).refcount == 0) ≡ false)
                × (inode_get dev num s ≡ panic))))

-- `inode_get` finds the inode in the table when a slot in use holds it, and then only that slot's
-- count changes; otherwise it claims the free slot of least index, and it panics exactly when the
-- inode is in no slot and every slot is in use.
pub inode_get_lem : (dev num : ℕ) (s : State) → Result dev num s
unfolding inode_get take_slot
inode_get_lem dev num s = elim (first_below (λ k. is_inode dev num (s.table k)) numinode) [
  | inl (k, h, hit, before) ↦ inl (
    k,
    h,
    hit,
    ap (take_slot dev num s)
        (get_from-hit dev num s.table numinode 0 k none (omega arith) h hit (λ j a b. before j b)),
  )
  | inr missing ↦ inr (
    missing,
    elim (first_below (λ k. (s.table k).refcount == 0) numinode) [
      | inl (k, h, free, before) ↦ inl (
        k,
        h,
        free,
        before,
        ap (take_slot dev num s) (
            get_from-free dev num s.table numinode 0 k (omega arith) h (λ j a b. missing j b) free
              (λ j a b. before j b)),
      )
      | inr used ↦ inr (
        used,
        ap (take_slot dev num s)
            (get_from-full dev num s.table numinode 0 (λ j a b. missing j b) (λ j a b. used j b)),
      )
    ],
  )
]

-- No two slots in use hold the same inode.
abbrev pub IsUnique : (ℕ → Inode) → Type 0
IsUnique table =
    (dev num i j : ℕ)
    → i < numinode
    → j < numinode
    → is_inode dev num (table i) ≡ true
    → is_inode dev num (table j) ≡ true
    → i ≡ j

pub is_inode-fields :
    (dev num : ℕ) (inode : Inode)
    → is_inode dev num inode ≡ true
    → (0 < inode.refcount) × (inode.dev ≡ dev) × (inode.inode_num ≡ num)
is_inode-fields dev num inode h = ground arith

-- One more reference does not turn a slot into one of another inode.
more_refs-is_inode :
    (dev num : ℕ) (inode : Inode)
    → 0 < inode.refcount
    → is_inode dev num (more_refs inode) ≡ true
    → is_inode dev num inode ≡ true
more_refs-is_inode dev num inode live h =
    let (a, b, c) = is_inode-fields dev num (more_refs inode) h in ground arith

put_inode-IsUnique :
    (s : State) (k : ℕ) (inode : Inode)
    → IsUnique s.table
    → ((dev num j : ℕ)
        → j < numinode
        → is_inode dev num inode ≡ true
        → is_inode dev num (s.table j) ≡ true
        → j ≡ k)
    → IsUnique (put_inode k inode s).table
put_inode-IsUnique s k inode unique only dev num i j hi hj at_i at_j = elim (ℕ_discrete k i) [
  | yes ki ↦ elim (ℕ_discrete k j) [
    | yes kj ↦ omega arith
    | no nj ↦
        let new : is_inode dev num inode ≡ true =
          ap (is_inode dev num)
            (sym (ap (update s.table k inode) (sym ki) ∙ update_self s.table k inode))
          ∙ at_i in
        let old : is_inode dev num (s.table j) ≡ true =
          ap (is_inode dev num) (sym (update_ne s.table k j inode nj)) ∙ at_j in
        absurd (nj (sym (only dev num j hj new old)))
  ]
  | no ni ↦
      let old_i : is_inode dev num (s.table i) ≡ true =
        ap (is_inode dev num) (sym (update_ne s.table k i inode ni)) ∙ at_i in
      elim (ℕ_discrete k j) [
        | yes kj ↦
            let new : is_inode dev num inode ≡ true =
              ap (is_inode dev num)
                (sym (ap (update s.table k inode) (sym kj) ∙ update_self s.table k inode))
              ∙ at_j in
            absurd (ni (sym (only dev num i hi new old_i)))
        | no nj ↦
            unique dev num i j hi hj old_i
              (ap (is_inode dev num) (sym (update_ne s.table k j inode nj)) ∙ at_j)
      ]
]

-- After `inode_get` it is still true that no two slots in use hold the same inode.
pub inode_get-IsUnique :
    (dev num : ℕ) (s : State)
    → IsUnique s.table
    → (i : ℕ) (t : State) → inode_get dev num s ≡ done (i, t)
    → IsUnique t.table
inode_get-IsUnique dev num s unique i t ran = elim (inode_get_lem dev num s) [
  | inl (k, h, hit, result) ↦
      let (live, same_dev, same_num) = is_inode-fields dev num (s.table k) hit in
      let after : put_inode k (more_refs (s.table k)) s ≡ t = cc in
      subst (λ x. IsUnique x.table) after
        (put_inode-IsUnique s k (more_refs (s.table k)) unique (λ d n j hj new old.
          unique d n j k hj h old (more_refs-is_inode d n (s.table k) live new)))
  | inr (missing, inl (k, h, free, before, result)) ↦
      let after : put_inode k (claim dev num (s.table k)) s ≡ t = cc in
      subst (λ x. IsUnique x.table) after
        (put_inode-IsUnique s k (claim dev num (s.table k)) unique (λ d n j hj new old.
          let (_, same_dev, same_num) = is_inode-fields d n (claim dev num (s.table k)) new in
          let not_there = missing j hj in
          let there : is_inode dev num (s.table j) ≡ true =
            ap₂ (λ x y. is_inode x y (s.table j)) same_dev same_num ∙ old in
          absurd (let clash : true ≡ false = sym there ∙ not_there in cc)))
  | inr (missing, inr (used, result)) ↦ cc
]
