-- ===== src/Inode/Fresh.antt =====
-- `alloc_block`: what `buffer_alloc` leaves of the bitmap, and that the block was free.
use risc_v_os.Base.{
  ℕ, ◌/◌, ◌≤◌, ◌<◌, ◌≡◌, ◌≢◌, ◌⊎◌, inl, inr, refl, sym, ap, subst, ◌∙◌, arith, ℕ_discrete,
}
use risc_v_os.Base.Bits.{bit, set_bit, bit-set_bit, set_bit-lt}
use risc_v_os.Base.Outcome.{done, >>=-eq-done}
use risc_v_os.Base.Family.{update, update_self, update_ne}
use risc_v_os.Log as LogLayer
use risc_v_os.Log.{log_write}
use risc_v_os.Bitmap as BlockLayer
use risc_v_os.Bitmap.{
  Bytes, bitmap_per_block, buffer_alloc, buffer_zero, grant, logged_write, put_bytes,
}
use risc_v_os.Bitmap.Alloc.{low_bit, buffer_alloc-Chosen}
use risc_v_os.Bitmap.Grant.{logged_write-same, marked, grant_lem}
use risc_v_os.Inode.{State, log_block, alloc_block}

abbrev pub row : BlockLayer.State → Bytes
row b = b.bytes b.bitmap_start

-- The disk has one bitmap block; `buffer_alloc` leaves alone the bitmap block and block 0.
pub record IsGuarded (b : BlockLayer.State) : Type 0 where
  pub some_block : 0 < b.size
  pub one_bitmap : b.size ≤ bitmap_per_block
  pub bytes : (n j : ℕ) → b.bytes n j < 256
  pub zero_held : low_bit (row b) 0 ≢ 0
  pub bitmap_held : low_bit (row b) b.bitmap_start ≢ 0

pub log_block-same :
    (n : ℕ) (s t : State)
    → log_block n s ≡ done t
    → (l : LogLayer.State) × (record s { blocks = record (s.blocks) { log = l } } ≡ t)
unfolding log_block
log_block-same n s t h =
    let (b, e, f) = >>=-eq-done (logged_write n s.blocks) (λ b. done (record s { blocks = b })) h in
    let (l, g) = logged_write-same n s.blocks b e in (l, ap (λ x. record s { blocks = x }) g ∙ cc)

-- What `alloc_block` gives: a block that was free and is held from now on, with zero words.
pub record Fresh (s : State) (a : ℕ) (t : State) : Type 0 where
  pub block : BlockLayer.State
  pub after : record s { blocks = block; words = update s.words a (λ k. 0) } ≡ t
  pub guarded : IsGuarded block
  pub some_block : a ≢ 0
  pub free : low_bit (row s.blocks) a ≡ 0
  pub taken : low_bit (row block) a ≢ 0
  pub others : (k : ℕ) → low_bit (row s.blocks) k ≢ 0 → low_bit (row block) k ≢ 0

mark-others :
    (b : BlockLayer.State) (a k : ℕ)
    → IsGuarded b
    → (low_bit (row b) k ≢ 0) ⊎ (a ≡ k)
    → low_bit (marked b.bitmap_start a b b.bitmap_start) k ≢ 0
mark-others b a k g held =
    let old : Bytes = row b in
    let new = update_self b.bytes b.bitmap_start (update old (a / 8) (set_bit (old (a / 8)) 0)) in
    let bits =
      bit-set_bit (old (a / 8)) 0 0 (g.bytes b.bitmap_start (a / 8)) (omega arith) (omega arith) in
    subst (λ (r : Bytes). low_bit r k ≢ 0) (sym new)
      (elim (ℕ_discrete (a / 8) (k / 8)) [
        | yes same ↦
            let at : update old (a / 8) (set_bit (old (a / 8)) 0) (k / 8)
                ≡ set_bit (old (a / 8)) 0 =
              ap (update old (a / 8) _) (sym same) ∙ update_self old (a / 8) _ in
            subst (λ w. bit w 0 ≢ 0) (sym at)
              (λ e. let one : 1 ≡ 0 = sym bits ∙ e in omega (arith, one))
        | no differ ↦
            subst (λ w. bit w 0 ≢ 0) (sym (update_ne old (a / 8) (k / 8) _ differ))
              (elim held [ inl h ↦ h | inr e ↦ absurd (differ (ap (λ x. x / 8) e)) ])
      ])

marked-lt :
    (b : BlockLayer.State) (a : ℕ)
    → IsGuarded b
    → (n j : ℕ) → update (marked b.bitmap_start a b) a (λ k. 0) n j < 256
marked-lt b a g n j =
    let old : Bytes = row b in
    let new : Bytes = update old (a / 8) (set_bit (old (a / 8)) 0) in
    elim (ℕ_discrete a n) [
      | yes here ↦
          subst (λ (r : Bytes). r j < 256)
            (sym (
              ap (update (marked b.bitmap_start a b) a (λ k. 0)) (sym here)
              ∙ update_self (marked b.bitmap_start a b) a (λ k. 0)))
            (omega arith)
      | no away ↦
          subst (λ (r : Bytes). r j < 256)
            (sym (update_ne (marked b.bitmap_start a b) a n (λ k. 0) away))
            (elim (ℕ_discrete b.bitmap_start n) [
              | yes at ↦
                  subst (λ (r : Bytes). r j < 256)
                    (sym (
                      ap (update b.bytes b.bitmap_start new) (sym at)
                      ∙ update_self b.bytes b.bitmap_start new))
                    (elim (ℕ_discrete (a / 8) j) [
                      | yes same ↦
                          subst (λ w. w < 256) (sym (ap new (sym same) ∙ update_self old (a / 8) _))
                            (set_bit-lt (old (a / 8)) 0 (g.bytes b.bitmap_start (a / 8))
                              (omega arith))
                      | no differ ↦
                          subst (λ w. w < 256) (sym (update_ne old (a / 8) j _ differ))
                            (g.bytes b.bitmap_start j)
                    ])
              | no other ↦
                  subst (λ (r : Bytes). r j < 256)
                    (sym (update_ne b.bytes b.bitmap_start n new other)) (g.bytes n j)
            ])
    ]

pub alloc_block_lem :
    (s t : State) (a : ℕ) → IsGuarded s.blocks → alloc_block s ≡ done (a, t) → Fresh s a t
unfolding alloc_block
alloc_block_lem s t a g ran =
    let b : BlockLayer.State = s.blocks in
    let (out, allocated, rest) =
      >>=-eq-done (buffer_alloc b)
        (λ p. done (p.0, record s { blocks = p.1; words = update s.words p.0 (λ k. 0) })) ran in
    elim (buffer_alloc-Chosen b g.some_block g.one_bitmap) [
      | inl (j, granted, byte, below, clear, before) ↦
          let (same, l, c) = grant_lem j out.0 b out.1 (sym granted ∙ allocated) in
          let here : out.0 ≡ a = cc in
          let free : low_bit (row b) a ≡ 0 =
            subst (λ k. low_bit (row b) k ≡ 0) (same ∙ here) clear in
          let apart : a ≢ b.bitmap_start =
            λ e. g.bitmap_held (subst (λ k. low_bit (row b) k ≡ 0) e free) in
          let after : Bytes = marked b.bitmap_start a b b.bitmap_start in
          let block : BlockLayer.State = record b {
            bytes = update (marked b.bitmap_start a b) a (λ k. 0);
            log = l;
          } in
          let at : row block ≡ after =
            update_ne (marked b.bitmap_start a b) a b.bitmap_start (λ k. 0) apart in
          let kept : (k : ℕ) → (low_bit (row b) k ≢ 0) ⊎ (a ≡ k) → low_bit (row block) k ≢ 0 =
            λ k h. subst (λ (r : Bytes). low_bit r k ≢ 0) (sym at) (mark-others b a k g h) in
          let block_is : block ≡ out.1 =
            subst
              (λ k.
                record b { bytes = update (marked b.bitmap_start k b) k (λ k. 0); log = l } ≡ out.1)
              here c in
          record {
            block = block;
            after =
                ap (λ x. record s { blocks = x; words = update s.words a (λ k. 0) }) block_is
                ∙ (ap (λ k. record s { blocks = out.1; words = update s.words k (λ k. 0) })
                      (sym here)
                    ∙ cc);
            guarded = record {
              some_block = g.some_block;
              one_bitmap = g.one_bitmap;
              bytes = marked-lt b a g;
              zero_held = kept 0 (inl g.zero_held);
              bitmap_held = kept b.bitmap_start (inl g.bitmap_held);
            };
            some_block = λ e. g.zero_held (subst (λ k. low_bit (row b) k ≡ 0) e free);
            free = free;
            taken = kept a (inr refl);
            others = λ k h. kept k (inl h);
          }
      | inr (stop, full) ↦ cc
    ]
