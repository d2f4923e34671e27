-- ===== src/Bitmap.antt =====
-- src/kernel/filesys.c, lines 224 to 272: the bitmap of the disk blocks, a bit for each block.
-- `bytes` is what `buffer_read` gives for each block number; a block is 1024 bytes and one bitmap
-- block serves 8192 blocks. The log is that of the module Log, whose entries `log_write` changes.
pub mod Grant
pub mod Alloc
pub mod Free
mod Tests
use risc_v_os.Base.{
  ℕ, zero, suc, ◌+◌, ◌*◌, ◌/◌, ◌%◌, Option, none, some, Bool, true, false, ◌==◌, ltb, if◌then◌else◌,
}
use risc_v_os.Base.Bits.{bit, set_bit, clear_bit}
use risc_v_os.Base.Outcome.{Outcome, done, panic, panic_if, ◌>>=◌, ◌>>◌}
use risc_v_os.Base.Family.{update}
use risc_v_os.Log.{log_write}
use risc_v_os.Log as LogLayer

abbrev pub bitmap_per_block : ℕ
bitmap_per_block = 8192

abbrev pub Bytes : Type 0
Bytes = ℕ → ℕ

-- The superblock's `size` and `bitmap_start`, the cached blocks and the log.
pub record State : Type 0 where
  pub size : ℕ
  pub bitmap_start : ℕ
  pub bytes : ℕ → Bytes
  pub log : LogLayer.State

abbrev pub put_bytes : ℕ → Bytes → State → State
put_bytes n b s = record s { bytes = update s.bytes n b }

-- `log_write(buf)`
unfoldable pub logged_write : ℕ → State → Outcome State
logged_write n s = do l ← log_write n s.log; done (record s { log = l })

unfoldable pub buffer_zero : ℕ → State → Outcome State
unfolding logged_write
buffer_zero n s = logged_write n (put_bytes n (λ k. 0) s)

-- The inner loop of `buffer_alloc` from `j` on, `left` rounds to go, in the bitmap block `row`. The
-- bit that is tested is that of `i`.
unfoldable pub scan : ℕ → ℕ → ℕ → ℕ → Bytes → Option ℕ
scan zero j i size row = none
scan (suc left) j i size row =
    let later = scan left (j + 1) i size row in
    if ltb (i + j) size then (if bit (row (j / 8)) (i % 8) == 0 then some j else later) else none

-- The body of the inner `if`: block `i + j` is taken.
unfoldable pub grant : ℕ → ℕ → State → Outcome (ℕ × State)
unfolding logged_write buffer_zero
grant i j s = do
  let n = i / bitmap_per_block + s.bitmap_start
  let row = s.bytes n
  s ← logged_write n (put_bytes n (update row (j / 8) (set_bit (row (j / 8)) (i % 8))) s)
  s ← buffer_zero (i + j) s
  done (i + j, s)

-- The outer loop from `i` on. With no block left it panics.
unfoldable pub alloc_from : ℕ → ℕ → State → Outcome (ℕ × State)
alloc_from zero i s = panic
alloc_from (suc rounds) i s =
    let later = alloc_from rounds (i + bitmap_per_block) s in
    if ltb i s.size
    then elim (scan bitmap_per_block 0 i s.size (s.bytes (i / bitmap_per_block + s.bitmap_start))) [
      | some j ↦ grant i j s
      | none ↦ later
    ]
    else panic

-- Within `size / 8192 + 1` rounds `i` reaches `size`.
unfoldable pub buffer_alloc : State → Outcome (ℕ × State)
unfolding alloc_from
buffer_alloc s = alloc_from (s.size / bitmap_per_block + 1) 0 s

unfoldable pub buffer_free : ℕ → State → Outcome State
unfolding logged_write
buffer_free b s = do
  let n = b / bitmap_per_block + s.bitmap_start
  let i = b % bitmap_per_block
  let row = s.bytes n
  panic_if (bit (row (i / 8)) (i % 8) == 0)
  logged_write n (put_bytes n (update row (i / 8) (clear_bit (row (i / 8)) (i % 8))) s)
