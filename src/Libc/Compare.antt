-- ===== src/Libc/Compare.antt =====
-- `memcmp` and `strncmp`: the value at the first difference.
use risc_v_os.Base.{
  ℕ, zero, suc, ◌+◌, ◌≤◌, ◌<◌, ◌≡◌, ◌≢◌, ◌↔◌, ◌⊎◌, refl, sym, ap, subst, ◌∙◌, false, not, ◌&&◌,
  arith, ◌==◌, ltb, if◌then◌else◌, ℕ_discrete,
}
use risc_v_os.Base.Int.{pos, negsuc, byte_difference, byte_difference-zero}
use risc_v_os.Libc.{memcmp_from, memcmp, strncmp_from, strncmp}

module _ (a b : ℕ → ℕ) where
  -- The two agree from `i` to before `j`.
  abbrev pub Agree : ℕ → ℕ → Type 0
  Agree i j = (k : ℕ) → i ≤ k → k < j → a k ≡ b k

  memcmp_from-skip :
      (left i : ℕ) → a i ≡ b i → memcmp_from (suc left) i a b ≡ memcmp_from left (i + 1) a b
  unfolding memcmp_from
  memcmp_from-skip left i e = ground arith

  memcmp_from-equal : (left i : ℕ) → Agree i (i + left) → memcmp_from left i a b ≡ pos 0
  unfolding memcmp_from
  memcmp_from-equal zero i same = refl
  memcmp_from-equal (suc left) i same =
      memcmp_from-skip left i (same i (omega arith) (omega arith))
      ∙ memcmp_from-equal left (i + 1) (λ k lo hi. same k (omega arith) (omega arith))

  memcmp_from-at :
      (left i j : ℕ)
      → i ≤ j
      → j < i + left
      → Agree i j
      → a j ≢ b j
      → memcmp_from left i a b ≡ (if ltb (a j) (b j) then pos 1 else negsuc 0)
  unfolding memcmp_from
  memcmp_from-at zero i j lo hi same differ = absurd (omega arith)
  memcmp_from-at (suc left) i j lo hi same differ = elim (ℕ_discrete j i) [
    | yes here ↦
        let differ' : a i ≢ b i = λ e. differ (ap a here ∙ e ∙ ap b (sym here)) in
        ground (arith, here)
    | no later ↦
        memcmp_from-skip left i (same i (omega arith) (omega arith))
        ∙ memcmp_from-at left (i + 1) j (omega arith) (omega arith)
            (λ k l h. same k (omega arith) h) differ
  ]

  memcmp_from-zero : (left i : ℕ) → memcmp_from left i a b ≡ pos 0 → Agree i (i + left)
  unfolding memcmp_from
  memcmp_from-zero zero i e = λ k lo hi. absurd (omega arith)
  memcmp_from-zero (suc left) i e = elim (ℕ_discrete (a i) (b i)) [
    | yes same ↦
        let rest = memcmp_from-zero left (i + 1) (sym (memcmp_from-skip left i same) ∙ e) in
        λ k lo hi. elim (ℕ_discrete k i) [
          | yes here ↦ ap a here ∙ same ∙ ap b (sym here)
          | no later ↦ rest k (omega arith) (omega arith)
        ]
    | no differ ↦ ground arith
  ]

  -- `memcmp` is 0 just when the `n` bytes agree. At the first difference it is 1 when the byte of
  -- the first object is the smaller one and -1 when it is the greater one.
  pub memcmp_lem :
      (n : ℕ)
      → ((memcmp a b n ≡ pos 0) ↔ Agree 0 n)
        × ((j : ℕ)
            → j < n
            → Agree 0 j
            → (a j < b j → memcmp a b n ≡ pos 1) × (b j < a j → memcmp a b n ≡ negsuc 0))
  unfolding memcmp
  memcmp_lem n = (
    (
      (λ e k lo hi. memcmp_from-zero n 0 e k lo (omega arith)),
      λ same. memcmp_from-equal n 0 (λ k lo hi. same k lo (omega arith)),
    ),
    λ j h same. (
      λ less. memcmp_from-at n 0 j (omega arith) (omega arith) same (omega arith) ∙ ground arith,
      λ more. memcmp_from-at n 0 j (omega arith) (omega arith) same (omega arith) ∙ ground arith,
    ),
  )

  -- The two agree, without a zero, from `i` to before `j`.
  abbrev pub Runs : ℕ → ℕ → Type 0
  Runs i j = (k : ℕ) → i ≤ k → k < j → (a k ≢ 0) × (a k ≡ b k)

  strncmp_from-skip :
      (n i : ℕ) → a i ≢ 0 → a i ≡ b i → strncmp_from (suc n) i a b ≡ strncmp_from n (i + 1) a b
  unfolding strncmp_from
  strncmp_from-skip n i full same = ground arith

  strncmp_from-all : (n i : ℕ) → Runs i (i + n) → strncmp_from n i a b ≡ pos 0
  unfolding strncmp_from
  strncmp_from-all zero i runs = refl
  strncmp_from-all (suc n) i runs =
      let (full, same) = runs i (omega arith) (omega arith) in
      strncmp_from-skip n i full same
      ∙ strncmp_from-all n (i + 1) (λ k lo hi. runs k (omega arith) (omega arith))

  strncmp_from-at :
      (n i j : ℕ)
      → i ≤ j
      → j < i + n
      → Runs i j
      → (a j ≡ 0) ⊎ (a j ≢ b j)
      → strncmp_from n i a b ≡ byte_difference (a j) (b j)
  unfolding strncmp_from
  strncmp_from-at zero i j lo hi runs stop = absurd (omega arith)
  strncmp_from-at (suc n) i j lo hi runs stop = elim (ℕ_discrete i j) [
    | yes here ↦
        let halt : (not (a j == 0) && (a j == b j)) ≡ false = ground arith in
        subst (λ x. strncmp_from (suc n) x a b ≡ byte_difference (a j) (b j)) (sym here)
          (rw halt refl)
    | no later ↦
        let (full, same) = runs i (omega arith) (omega arith) in
        strncmp_from-skip n i full same
        ∙ strncmp_from-at n (i + 1) j (omega arith) (omega arith) (λ k l h. runs k (omega arith) h)
            stop
  ]

  -- `strncmp` compares up to the first place where the strings differ or the first one ends: there
  -- its value is the difference of the two bytes, which is 0 just when both strings end there. It is
  -- 0 when `n` bytes agree and none is zero.
  pub strncmp_lem :
      (n : ℕ)
      → ((j : ℕ)
          → j < n
          → Runs 0 j
          → (a j ≡ 0) ⊎ (a j ≢ b j)
          → (strncmp a b n ≡ byte_difference (a j) (b j))
            × ((strncmp a b n ≡ pos 0) ↔ ((a j ≡ 0) × (b j ≡ 0))))
        × (Runs 0 n → strncmp a b n ≡ pos 0)
  unfolding strncmp
  strncmp_lem n = (
    λ j h runs stop.
        let value = strncmp_from-at n 0 j (omega arith) (omega arith) runs stop in
        let (to, from) = byte_difference-zero (a j) (b j) in
        (
          value,
          ((λ e. let same = to (sym value ∙ e) in omega arith), λ both. value ∙ from (omega arith)),
        ),
    λ runs. strncmp_from-all n 0 (λ k lo hi. runs k lo (omega arith)),
  )
