-- ===== src/Bitmap/Alloc.antt =====
-- Which block `buffer_alloc` finds.
use risc_v_os.Base.{
  ℕ, zero, suc, ◌+◌, ◌*◌, ◌/◌, ◌%◌, ◌≤◌, ◌<◌, ◌≡◌, ◌≢◌, ◌⊎◌, inl, inr, refl, sym, ap, subst, ◌∙◌,
  none, some, true, false, arith, ◌==◌, ltb, ℕ_discrete, Bool-cases, Option-cases,
}
use risc_v_os.Base.Bits.{bit}
use risc_v_os.Base.Outcome.{done, panic}
use risc_v_os.Base.Family.{update}
use risc_v_os.Bitmap.Grant.{marked, IsTight, grant_lem, grant-cases}
use risc_v_os.Bitmap.{Bytes, State, bitmap_per_block, scan, grant, alloc_from, buffer_alloc}

-- The lowest bit of the byte that block `j` shares with seven others.
abbrev pub low_bit : Bytes → ℕ → ℕ
low_bit row j = bit (row (j / 8)) 0

module _ (size : ℕ) (row : Bytes) where
  scan-some :
      (left j r : ℕ)
      → scan left j 0 size row ≡ some r
      → (j ≤ r) × (r < size) × (low_bit row r ≡ 0) × ((k : ℕ) → j ≤ k → k < r → low_bit row k ≢ 0)
  unfolding scan
  scan-some zero j r e = cc
  scan-some (suc left) j r e = elim (Bool-cases (ltb (0 + j) size)) [
    | inr out ↦ let found : none ≡ some r = rw out refl ∙ e in cc
    | inl within ↦ elim (Bool-cases (low_bit row j == 0)) [
      | inl clear ↦
          let found : some j ≡ some r = rw (within, clear) refl ∙ e in
          let same : j ≡ r = cc in
          (omega arith, ground arith, ground arith, λ k lo hi. absurd (omega arith))
      | inr set ↦
          let (lo, hi, clear, before) = scan-some left (j + 1) r (rw (within, set) refl ∙ e) in
          (
            omega arith,
            hi,
            clear,
            λ k klo khi. elim (ℕ_discrete k j) [
              | yes here ↦ ground arith
              | no later ↦ before k (omega arith) khi
            ],
          )
    ]
  ]

  scan-none :
      (left j : ℕ)
      → scan left j 0 size row ≡ none
      → (k : ℕ) → j ≤ k
      → k < j + left
      → k < size
      → low_bit row k ≢ 0
  unfolding scan
  scan-none zero j e k lo hi below = absurd (omega arith)
  scan-none (suc left) j e k lo hi below =
      let within : ltb (0 + j) size ≡ true = ground arith in
      elim (Bool-cases (low_bit row j == 0)) [
        | inl clear ↦ let found : some j ≡ none = rw (within, clear) refl ∙ e in cc
        | inr set ↦ elim (ℕ_discrete k j) [
          | yes here ↦ ground arith
          | no later ↦
              scan-none left (j + 1) (rw (within, set) refl ∙ e) k (omega arith) (omega arith) below
        ]
      ]

alloc_from-past : (rounds i : ℕ) (s : State) → s.size ≤ i → alloc_from rounds i s ≡ panic
unfolding alloc_from
alloc_from-past zero i s h = refl
alloc_from-past (suc rounds) i s h = let out : ltb i s.size ≡ false = ground arith in rw out refl

alloc_from-first :
    (rounds : ℕ) (s : State)
    → 0 < s.size
    → ((j : ℕ)
        → scan 8192 0 0 s.size (s.bytes (0 + s.bitmap_start)) ≡ some j
        → alloc_from (suc rounds) 0 s ≡ grant 0 j s)
      × (scan 8192 0 0 s.size (s.bytes (0 + s.bitmap_start)) ≡ none
          → s.size ≤ 8192
          → alloc_from (suc rounds) 0 s ≡ panic)
unfolding alloc_from
alloc_from-first rounds s some_block =
    let within : ltb 0 s.size ≡ true = ground arith in
    (λ j e. rw (within, e) refl, λ e small. rw (within, e) (alloc_from-past rounds 8192 s small))

-- The block that `buffer_alloc` grants after the search in the bitmap block `row`.
abbrev pub Chosen : State → Bytes → Type 0
Chosen s row =
    ((b : ℕ) × (buffer_alloc s ≡ grant 0 b s)
      × (b % 8 ≡ 0)
      × (b < s.size)
      × (low_bit row b ≡ 0)
      × ((k : ℕ) → k < b → low_bit row k ≢ 0))
    ⊎ ((buffer_alloc s ≡ panic) × ((k : ℕ) → k < s.size → low_bit row k ≢ 0))

-- A byte is free from its first block on or not at all.
starts_byte :
    (row : Bytes) (b : ℕ) → low_bit row b ≡ 0 → ((k : ℕ) → k < b → low_bit row k ≢ 0) → b % 8 ≡ 0
starts_byte row b clear before = elim (ℕ_discrete (b / 8 * 8) b) [
  | yes same ↦ omega arith
  | no less ↦
      let byte : b / 8 * 8 / 8 ≡ b / 8 = omega arith in
      absurd (before (b / 8 * 8) (omega arith) (ap (λ k. bit (row k) 0) byte ∙ clear))
]

-- The search of `buffer_alloc` with one bitmap block.
pub buffer_alloc-Chosen :
    (s : State) → 0 < s.size → s.size ≤ bitmap_per_block → Chosen s (s.bytes s.bitmap_start)
unfolding buffer_alloc
buffer_alloc-Chosen s some_block small =
    let row : Bytes = s.bytes (0 + s.bitmap_start) in
    let run = alloc_from-first (s.size / 8192) s some_block in
    let plus_one : s.size / 8192 + 1 ≡ suc (s.size / 8192) = omega arith in
    let one_more = ap (λ r. alloc_from r 0 s) plus_one in
    let at : 0 + s.bitmap_start ≡ s.bitmap_start = omega arith in
    subst (λ n. Chosen s (s.bytes n)) at
      (elim (Option-cases (scan 8192 0 0 s.size row)) [
        | inr (b, e) ↦
            let (lo, hi, clear, before) = scan-some s.size row 8192 0 b e in
            let earlier : (k : ℕ) → k < b → low_bit row k ≢ 0 = λ k h. before k (omega arith) h in
            inl (b, one_more ∙ run.0 b e, starts_byte row b clear earlier, hi, clear, earlier)
        | inl e ↦ inr (
          one_more ∙ run.1 e small,
          λ k h. scan-none s.size row 8192 0 e k (omega arith) (omega arith) h,
        )
      ])

-- What `buffer_alloc` leaves when it returns block `a`, searching the bitmap block `row`.
pub record Granted (s : State) (row : Bytes) (a : ℕ) (t : State) : Type 0 where
  pub multiple : a % 8 ≡ 0
  pub within : a < s.size
  pub free : low_bit row a ≡ 0
  pub least : (k : ℕ) → k < a → low_bit row k ≢ 0
  pub bytes : t.bytes ≡ update (marked s.bitmap_start a s) a (λ k. 0)

abbrev pub Result : State → Bytes → Type 0
Result s row =
    ((a : ℕ) × (t : State) × (buffer_alloc s ≡ done (a, t)) × Granted s row a t)
    ⊎ ((buffer_alloc s ≡ panic) × (((k : ℕ) → k < s.size → low_bit row k ≢ 0) ⊎ IsTight s.log.log))

-- `buffer_alloc` with one bitmap block: it returns the first block whose byte of the bitmap has a
-- clear lowest bit, so that its number is a multiple of 8; then that bit is set in the bitmap block
-- and the block is zero, and every other byte of every block is as before. Otherwise it panics: every
-- byte in use has its lowest bit set, whatever the other bits are, or the log has no room for two
-- blocks or no operation open.
pub buffer_alloc_lem :
    (s : State) → 0 < s.size → s.size ≤ bitmap_per_block → Result s (s.bytes s.bitmap_start)
buffer_alloc_lem s some_block small = elim (buffer_alloc-Chosen s some_block small) [
  | inr (stop, full) ↦ inr (stop, inl full)
  | inl (b, run, multiple, within, clear, before) ↦ elim (grant-cases b s) [
    | inr (stop, tight) ↦ inr (run ∙ stop, inr tight)
    | inl (p, e) ↦
        let (same, l, after) = grant_lem b p.0 s p.1 e in
        inl (
          p.0,
          p.1,
          run ∙ e,
          subst
              (λ a.
                (bytes : p.1.bytes ≡ update (marked s.bitmap_start a s) a (λ k. 0))
                → Granted s (s.bytes s.bitmap_start) a p.1)
              same
              (λ bytes. record {
                multiple = multiple;
                within = within;
                free = clear;
                least = before;
                bytes = bytes;
              })
              (ap (λ x. x.bytes) (sym after)),
        )
  ]
]
