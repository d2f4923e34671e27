-- ===== src/Bitmap/Free.antt =====
-- What `buffer_free` does to the bits of the other blocks.
use risc_v_os.Base.{
  ℕ, ◌+◌, ◌/◌, ◌%◌, ◌<◌, ◌≡◌, ◌≢◌, refl, sym, ap, ◌∙◌, true, false, arith, ◌==◌, if◌then◌else◌,
  ℕ_discrete,
}
use risc_v_os.Base.Bits.{bit, clear_bit, bit-clear_bit}
use risc_v_os.Base.Outcome.{done, panic}
use risc_v_os.Base.Family.{update, update_self, update_ne}
use risc_v_os.Log as LogLayer
use risc_v_os.Log.{log_write}
use risc_v_os.Bitmap.{Bytes, State, bitmap_per_block, buffer_free, logged_write}

-- The bit of block `k` of the 8192 that a bitmap block serves.
abbrev pub block_bit : Bytes → ℕ → ℕ
block_bit row k = bit (row (k / 8)) (k % 8)

abbrev cleared : Bytes → ℕ → Bytes
cleared row i = update row (i / 8) (clear_bit (row (i / 8)) (i % 8))

cleared-bit :
    (row : Bytes) (i k : ℕ)
    → ((j : ℕ) → row j < 256)
    → block_bit (cleared row i) k ≡ (if i == k then 0 else block_bit row k)
cleared-bit row i k bytes = elim (ℕ_discrete (i / 8) (k / 8)) [
  | yes same ↦
      let at : cleared row i (k / 8) ≡ clear_bit (row (i / 8)) (i % 8) =
        ap (cleared row i) (sym same) ∙ update_self row (i / 8) _ in
      let old : bit (row (i / 8)) (k % 8) ≡ block_bit row k = ap (λ j. bit (row j) (k % 8)) same in
      let new =
        ap (λ w. bit w (k % 8)) at
        ∙ bit-clear_bit (row (i / 8)) (i % 8) (k % 8) (bytes (i / 8)) (omega arith) (omega arith) in
      elim (ℕ_discrete i k) [
        | yes e ↦ ground (arith, new, e)
        | no ne ↦ let apart : i % 8 ≢ k % 8 = omega arith in ground (arith, new)
      ]
  | no differ ↦
      let kept : block_bit (cleared row i) k ≡ block_bit row k =
        ap (λ w. bit w (k % 8)) (update_ne row (i / 8) (k / 8) _ differ) in
      let ne : i ≢ k = λ e. differ (ap (λ x. x / 8) e) in ground (arith, kept)
]

-- `buffer_free` panics when the bit of the block is clear. When it is set and the log has room, it
-- clears that bit, and no bit of another block, in this bitmap block or another.
pub buffer_free_lem :
    (b : ℕ) (s : State)
    → ((n j : ℕ) → s.bytes n j < 256)
    → (block_bit (s.bytes (b / bitmap_per_block + s.bitmap_start)) (b % bitmap_per_block) ≡ 0
        → buffer_free b s ≡ panic)
      × ((l : LogLayer.State)
          → block_bit (s.bytes (b / bitmap_per_block + s.bitmap_start)) (b % bitmap_per_block) ≢ 0
          → log_write (b / bitmap_per_block + s.bitmap_start) s.log ≡ done l
          → (t : State) × (buffer_free b s ≡ done t)
            × (t.log ≡ l)
            × ((k : ℕ)
                → block_bit (t.bytes (b / bitmap_per_block + s.bitmap_start)) k ≡ (
                    if b % bitmap_per_block == k
                    then 0
                    else block_bit (s.bytes (b / bitmap_per_block + s.bitmap_start)) k))
            × ((n : ℕ) → n ≢ b / bitmap_per_block + s.bitmap_start → t.bytes n ≡ s.bytes n))
unfolding buffer_free logged_write
buffer_free_lem b s bytes =
    let n = b / bitmap_per_block + s.bitmap_start in
    let i = b % bitmap_per_block in
    (
      λ clear. let test : (block_bit (s.bytes n) i == 0) ≡ true = ground arith in rw test refl,
      λ l set logged.
          let test : (block_bit (s.bytes n) i == 0) ≡ false = ground arith in
          (
            record s { bytes = update s.bytes n (cleared (s.bytes n) i); log = l },
            rw (test, logged) refl,
            refl,
            λ k.
                ap (λ (r : Bytes). block_bit r k) (update_self s.bytes n (cleared (s.bytes n) i))
                ∙ cleared-bit (s.bytes n) i k (bytes n),
            λ m ne. update_ne s.bytes n m _ (λ e. ne (sym e)),
          ),
    )
