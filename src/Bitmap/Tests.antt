-- ===== src/Bitmap/Tests.antt =====
-- Runs over a bitmap whose first five bytes are full, and the theorems there.
use risc_v_os.Base.{ℕ, ◌≡◌, ◌≢◌, ◌<◌, refl, false, none, some, arith, ◌==◌, ltb, if◌then◌else◌}
use risc_v_os.Base.Outcome.{done, panic}
use risc_v_os.Log as LogLayer
use risc_v_os.Log.{log_write}
use risc_v_os.Bitmap.{Bytes, State, scan, buffer_free}
use risc_v_os.Bitmap.Alloc.{Result, buffer_alloc_lem}
use risc_v_os.Bitmap.Free.{block_bit, buffer_free_lem}

abbrev open_log : LogLayer.State
open_log = record {
  log = record {
    start = 2;
    size = 1000;
    commit = false;
    num_syscalls = 1;
    count = 0;
    block = λ j. 0;
  };
  cache = λ b i. 0;
  disk = λ b i. 0;
  pins = λ b. 0;
}

abbrev five_full : Bytes
five_full k = if ltb k 5 then 255 else 0

abbrev used_disk : State
used_disk = record { size = 1000; bitmap_start = 45; bytes = λ n. five_full; log = open_log }

finds_block_40 : scan 64 0 0 1000 five_full ≡ some 40
unfolding scan
finds_block_40 = refl

-- With the lowest bits taken no block is found, though most bits are clear.
finds_no_block : scan 8 0 0 8 (λ k. 1) ≡ none
unfolding scan
finds_no_block = refl

buffer_alloc_lem_example : Result used_disk five_full
buffer_alloc_lem_example = buffer_alloc_lem used_disk (omega arith) (omega arith)

five_full-lt : (n j : ℕ) → five_full j < 256
five_full-lt n j = ground arith

buffer_free_lem_example :
    (block_bit five_full 7 ≡ 0 → buffer_free 7 used_disk ≡ panic)
    × ((l : LogLayer.State)
        → block_bit five_full 7 ≢ 0
        → log_write 45 open_log ≡ done l
        → (t : State) × (buffer_free 7 used_disk ≡ done t)
          × (t.log ≡ l)
          × ((k : ℕ) → block_bit (t.bytes 45) k ≡ (if 7 == k then 0 else block_bit five_full k))
          × ((n : ℕ) → n ≢ 45 → t.bytes n ≡ five_full))
buffer_free_lem_example = buffer_free_lem 7 used_disk five_full-lt
