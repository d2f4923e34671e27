-- ===== src/Log/Blocks.antt =====
-- What `write_log` and `write_header` do to the cache and the disk, block by block.
use risc_v_os.Base.{ℕ, zero, suc, ◌+◌, ◌≤◌, ◌<◌, ◌≡◌, ◌≢◌, ◌⊎◌, refl, sym, ap, ◌∙◌, arith, subst}
use risc_v_os.Base.Family.{update, update_self, update_ne}
use risc_v_os.Log.{
  Block, Log, State, logsize, copy_block, write_log_from, write_log, fill_header, write_header,
}

-- The entries of the log name distinct blocks outside the log's own area, and there are at most 30.
pub record IsValid (log : Log) : Type 0 where
  pub few : log.count ≤ logsize
  pub home :
      (j : ℕ) → j < log.count → (log.block j < log.start) ⊎ (log.start + logsize < log.block j)
  pub distinct : (j k : ℕ) → j < log.count → k < log.count → log.block j ≡ log.block k → j ≡ k

pub log-write_log_from : (left i : ℕ) (s : State) → (write_log_from left i s).log ≡ s.log
unfolding write_log_from copy_block
log-write_log_from zero i s = refl
log-write_log_from (suc left) i s =
    log-write_log_from left (i + 1) (copy_block (s.log.start + i + 1) (s.log.block i) s)

-- A block that is not among the log blocks written keeps its contents.
write_log_from-other :
    (left i b : ℕ) (s : State)
    → (b ≤ s.log.start + i) ⊎ (s.log.start + i + left < b)
    → ((write_log_from left i s).cache b ≡ s.cache b)
      × ((write_log_from left i s).disk b ≡ s.disk b)
unfolding write_log_from copy_block
write_log_from-other zero i b s out = (refl, refl)
write_log_from-other (suc left) i b s out =
    let t = copy_block (s.log.start + i + 1) (s.log.block i) s in
    let (c, d) = write_log_from-other left (i + 1) b t (omega arith) in
    let ne : s.log.start + i + 1 ≢ b = omega arith in
    (c ∙ update_ne s.cache _ b _ ne, d ∙ update_ne s.disk _ b _ ne)

-- `write_header` changes the header block only.
pub write_header-other :
    (b : ℕ) (s : State)
    → s.log.start ≢ b
    → ((write_header s).cache b ≡ s.cache b) × ((write_header s).disk b ≡ s.disk b)
unfolding write_header
write_header-other b s ne = (update_ne s.cache _ b _ ne, update_ne s.disk _ b _ ne)

pub log-write_header : (s : State) → (write_header s).log ≡ s.log
unfolding write_header
log-write_header s = refl

fill_header-zero : (left i : ℕ) (log : Log) (w : Block) → fill_header left i log w 0 ≡ w 0
unfolding fill_header
fill_header-zero zero i log w = refl
fill_header-zero (suc left) i log w =
    fill_header-zero left (i + 1) log (update w (i + 1) (log.block i))
    ∙ update_ne w (i + 1) 0 _ (omega arith)

-- The count on disk after `write_header` is the one in memory.
pub write_header-count : (s : State) → (write_header s).disk s.log.start 0 ≡ s.log.count
unfolding write_header
write_header-count s =
    ap (λ (w : Block). w 0) (update_self s.disk s.log.start _)
    ∙ fill_header-zero s.log.count 0 s.log _
    ∙ update_self (s.cache s.log.start) 0 s.log.count

-- The phases of `commit` on a log `l` that all of them leave alone.
module _ (s : State) (l : Log) (v : IsValid l) where
  pub write_log-other :
      l ≡ s.log
      → (b : ℕ) → (b < l.start) ⊎ (l.start + logsize < b)
      → ((write_log s).cache b ≡ s.cache b) × ((write_log s).disk b ≡ s.disk b)
  unfolding write_log
  write_log-other e b out =
      subst
        (λ k.
          IsValid k
          → (b < k.start) ⊎ (k.start + logsize < b)
          → ((write_log s).cache b ≡ s.cache b) × ((write_log s).disk b ≡ s.disk b))
        (sym e) (λ w o. write_log_from-other s.log.count 0 b s (omega (arith, w.few))) v out
