-- ===== src/Inode/Update.antt =====
-- `inode_update` writes what `inode_lock` reads.
use risc_v_os.Base.{
  ℕ, ◌+◌, ◌/◌, ◌%◌, ◌<◌, ◌≡◌, ◌≢◌, refl, ap, subst, ◌∙◌, true, false, arith, ◌==◌, ltb,
  if◌then◌else◌, ℕ_discrete, Bool-cases, not, inl, inr, sym,
}
use risc_v_os.Base.Outcome.{done}
use risc_v_os.Base.Family.{update, update_self, update_ne}
use risc_v_os.Inode.{
  State, DiskInode, inode_per_block, inode_block, disk_inode, put_disk_inode, put_inode,
  inode_update, inode_lock, spill_disk, spill_slot, has_next, with_low,
}
use risc_v_os.Inode.Fresh.{log_block-same}

-- The places of two disk inodes are different.
put_disk_inode-at :
    (num k : ℕ) (d : DiskInode) (s : State)
    → disk_inode k (put_disk_inode num d s) ≡ (if num == k then d else disk_inode k s)
put_disk_inode-at num k d s =
    let block = inode_block num s in
    let row = update (s.inodes block) (num % inode_per_block) d in
    elim (ℕ_discrete num k) [
      | yes same ↦
          let test : (num == k) ≡ true = ground arith in
          subst
            (λ j. disk_inode j (put_disk_inode num d s) ≡ (if num == k then d else disk_inode j s))
            same
            (rw test (
              ap (λ r. r (num % inode_per_block)) (update_self s.inodes block row)
              ∙ update_self (s.inodes block) _ d))
      | no other ↦
          let test : (num == k) ≡ false = ground arith in
          rw test
            (elim (ℕ_discrete (num / inode_per_block + s.inode_start)
              (k / inode_per_block + s.inode_start)) [
                | yes same ↦
                    let apart : num % inode_per_block ≢ k % inode_per_block = omega arith in
                    subst
                      (λ b.
                        update s.inodes block row b (k % inode_per_block)
                        ≡ s.inodes b (k % inode_per_block))
                      same
                      (ap (λ r. r (k % inode_per_block)) (update_self s.inodes block row)
                        ∙ update_ne (s.inodes block) _ _ d apart)
                | no differ ↦
                    ap (λ r. r (k % inode_per_block)) (update_ne s.inodes block _ row differ)
              ])
    ]

spill_disk-other :
    (i k : ℕ) (s : State)
    → (s.table i).inode_num + 1 ≢ k
    → disk_inode k (spill_disk i s) ≡ disk_inode k s
spill_disk-other i k s other = elim (Bool-cases (not s.buffers_below)) [
  | inl above ↦ rw above refl
  | inr below ↦ elim (Bool-cases (has_next (s.table i).inode_num)) [
    | inr past ↦ rw (below, past) refl
    | inl next ↦
        let num = (s.table i).inode_num in
        let d = disk_inode (num + 1) s in
        let test : (num + 1 == k) ≡ false = ground arith in
        rw (below, next)
          (put_disk_inode-at (num + 1) k (record d { type = with_low d.type (s.table (i + 1)).dev })
              s
            ∙ rw test refl)
  ]
]

spill_disk-table : (i : ℕ) (s : State) → (spill_disk i s).table ≡ s.table
spill_disk-table i s = elim (Bool-cases (not s.buffers_below)) [
  | inl above ↦ rw above refl
  | inr below ↦ elim (Bool-cases (has_next (s.table i).inode_num)) [
    | inr past ↦ rw (below, past) refl
    | inl next ↦ rw (below, next) refl
  ]
]

-- When `inode_update` returns, the disk inode of that number is the copy in memory, every other disk
-- inode but the next one is as before, and so is the inode table.
pub inode_update_lem :
    (i : ℕ) (s t : State)
    → inode_update i s ≡ done t
    → ((k : ℕ)
        → (s.table i).inode_num + 1 ≢ k
        → disk_inode k t
          ≡ (if (s.table i).inode_num == k then (s.table i).copy else disk_inode k s))
      × (t.table ≡ s.table)
unfolding inode_update
inode_update_lem i s t ran =
    let num = (s.table i).inode_num in
    let put = put_disk_inode num (s.table i).copy s in
    let (l, same) = log_block-same (inode_block num s) (spill_disk i put) t ran in
    subst
      (λ t.
        ((k : ℕ)
          → (s.table i).inode_num + 1 ≢ k
          → disk_inode k t
            ≡ (if (s.table i).inode_num == k then (s.table i).copy else disk_inode k s))
        × (t.table ≡ s.table))
      same
      (
        λ k other. spill_disk-other i k put other ∙ put_disk_inode-at num k (s.table i).copy s,
        spill_disk-table i put,
      )

spill_slot-other : (i k : ℕ) (s : State) → i + 1 ≢ k → (spill_slot i s).table k ≡ s.table k
spill_slot-other i k s other = elim (Bool-cases s.buffers_below) [
  | inl below ↦ rw below refl
  | inr above ↦ rw above (update_ne s.table (i + 1) k _ other)
]

-- After `inode_update` of one slot, `inode_lock` of a slot of the same device and inode that is in
-- use, free of its lock and not yet filled gives it the copy that was updated, provided its type is
-- not 0; so wherever the buffers lie, though one of the two copies writes a byte too many.
pub inode_lock-inode_update :
    (pid i j : ℕ) (s t : State)
    → inode_update i s ≡ done t
    → (t.table j).dev ≡ (s.table i).dev
    → (t.table j).inode_num ≡ (s.table i).inode_num
    → 0 < (t.table j).refcount
    → (t.table j).lock.locked ≡ false
    → (t.table j).valid ≡ false
    → (s.table i).copy.type ≢ 0
    → (u : State) × (inode_lock pid j t ≡ done u)
      × ((u.table j).copy ≡ (s.table i).copy)
      × ((u.table j).valid ≡ true)
unfolding inode_lock
inode_lock-inode_update pid i j s t ran dev same live free empty typed =
    let (disk, _) = inode_update_lem i s t ran in
    let hit : ((s.table i).inode_num == (s.table i).inode_num) ≡ true = ground arith in
    let read : disk_inode (t.table j).inode_num t ≡ (s.table i).copy =
      ap (λ k. disk_inode k t) same ∙ (disk (s.table i).inode_num (omega arith) ∙ rw hit refl) in
    let used : ltb (t.table j).refcount 1 ≡ false = ground arith in
    let some_type : ((s.table i).copy.type == 0) ≡ false = ground arith in
    let type_read : (disk_inode (t.table j).inode_num t).type ≡ (s.table i).copy.type =
      ap (λ d. d.type) read in
    let locked = record (t.table j) { lock = record { locked = true; process_id = pid } } in
    let filled = record locked { copy = disk_inode (t.table j).inode_num t; valid = true } in
    let at = update_self (spill_slot j t).table j filled in
    (
      put_inode j filled (spill_slot j t),
      rw (used, free, empty, type_read, some_type) refl,
      ap (λ x. x.copy) at ∙ read,
      ap (λ x. x.valid) at,
    )

-- `inode_update` with the buffers below the table: the type of the next disk inode of the block has
-- taken the low byte of the next slot's device.
inode_update-next :
    (i : ℕ) (s t : State)
    → s.buffers_below ≡ true
    → has_next (s.table i).inode_num ≡ true
    → inode_update i s ≡ done t
    → (disk_inode ((s.table i).inode_num + 1) t).type
      ≡ with_low (disk_inode ((s.table i).inode_num + 1) s).type (s.table (i + 1)).dev
unfolding inode_update
inode_update-next i s t below next ran =
    let num = (s.table i).inode_num in
    let put = put_disk_inode num (s.table i).copy s in
    let d = disk_inode (num + 1) put in
    let spilled : DiskInode = record d { type = with_low d.type (s.table (i + 1)).dev } in
    let (l, same) = log_block-same (inode_block num s) (spill_disk i put) t ran in
    let hit : (num + 1 == num + 1) ≡ true = ground arith in
    let miss : (num == num + 1) ≡ false = ground arith in
    let old : d ≡ disk_inode (num + 1) s =
      put_disk_inode-at num (num + 1) (s.table i).copy s ∙ rw miss refl in
    let new : disk_inode (num + 1) (put_disk_inode (num + 1) spilled put) ≡ spilled =
      put_disk_inode-at (num + 1) (num + 1) spilled put ∙ rw hit refl in
    let step : disk_inode (num + 1) (spill_disk i put) ≡ spilled = rw (below, next) new in
    ap (λ t. (disk_inode (num + 1) t).type) (sym same)
    ∙ (ap (λ x. x.type) step ∙ ap (λ x. with_low x.type (s.table (i + 1)).dev) old)

-- With the buffers below the inode table, `inode_update` of an inode whose next disk inode lies in the
-- same block and has a type below 256, from a slot before one whose `dev` is 0 (as of a slot never
-- used), leaves the next disk inode with type 0, which marks it free.
pub inode_update-frees_next :
    (i : ℕ) (s t : State)
    → s.buffers_below ≡ true
    → has_next (s.table i).inode_num ≡ true
    → (disk_inode ((s.table i).inode_num + 1) s).type < 256
    → (s.table (i + 1)).dev ≡ 0
    → inode_update i s ≡ done t
    → (disk_inode ((s.table i).inode_num + 1) t).type ≡ 0
inode_update-frees_next i s t below next small unused ran =
    let spilled = inode_update-next i s t below next ran in omega (arith, spilled, small, unused)
