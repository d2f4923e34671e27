-- ===== src/SysFile/Links.antt =====
-- src/kernel/sysfile.c, lines 410 to 543: `isdirempty`, `sys_unlink` and `sys_link`.
use risc_v_os.Base.{
  ℕ, zero, suc, ◌+◌, ◌/◌, Bool, true, false, not, ◌||◌, Option, none, some, List, ◌==◌, ltb,
  if◌then◌else◌,
}
use risc_v_os.Base.Outcome.{Outcome, done, asleep, panic_if, ◌>>=◌, ◌>>◌}
use risc_v_os.Log as LogLayer
use risc_v_os.Libc.{memset, strncmp}
use risc_v_os.PathName.{dirsize}
use risc_v_os.Inode.Storage.{write_inode}
use risc_v_os.Directory.{
  dir_type, entry_size, is_zero, bytes_at, entry_inode, is_entry, kernel_fetch, read_entry,
}
use risc_v_os.SysFile.{State}
use risc_v_os.SysFile.Tree.{
  copy_of, put_inodes, lock, unlock, put, unlock_put, link_up, link_down, begin, finish, inode_of,
  parent_of, look_up, link_name,
}

module _ (hart : ℕ) (events : List (LogLayer.State → LogLayer.State))
    (rounds de name dot dotdot : ℕ) where
  -- The loop of `isdirempty` from `offset` on.
  unfoldable pub empty_from : ℕ → ℕ → ℕ → State → Outcome (Bool × State)
  empty_from zero i offset s = asleep
  empty_from (suc left) i offset s =
      if ltb offset (copy_of i s).size
      then (do
        (mem, t) ← read_entry de i offset s.mem s.file.system
        let s = record (put_inodes t s) { mem = mem }
        let later = empty_from left i (offset + entry_size) s
        if entry_inode de s.mem == 0 then later else done (false, s))
      else done (true, s)

  unfoldable pub isdirempty : ℕ → State → Outcome (Bool × State)
  isdirempty i s =
      empty_from ((copy_of i s).size / entry_size + 1 + 1) i (entry_size + entry_size) s

  -- The entry at `offset` of `dp` is overwritten by zeros.
  unfoldable pub clear_entry : ℕ → ℕ → State → Outcome State
  clear_entry dp offset s = do
    let mem = memset de 0 entry_size s.mem
    (count, t) ← write_inode (kernel_fetch mem) dp de offset entry_size s.file.system
    panic_if (not (is_entry count))
    done (record (put_inodes t s) { mem = mem })

  -- The label `bad` of `sys_unlink`.
  unfoldable pub unlink_bad : ℕ → State → Outcome (Bool × State)
  unlink_bad dp s = do s ← unlock_put dp s; finish hart false s

  -- `sys_unlink` from the locked inode `ip` of the entry at `offset` on.
  unfoldable pub unlink_entry : ℕ → ℕ → ℕ → State → Outcome (Bool × State)
  unlink_entry dp ip offset s = do
    panic_if (ltb (copy_of ip s).num_link 1)
    (empty, s) ← if (copy_of ip s).type == dir_type then isdirempty ip s else done (true, s)
    if not empty then (do s ← unlock_put ip s; unlink_bad dp s) else (do
      s ← clear_entry dp offset s
      s ← if (copy_of ip s).type == dir_type then link_down dp s else done s
      s ← unlock_put dp s
      s ← link_down ip s
      s ← unlock_put ip s
      finish hart true s)

  unfoldable pub sys_unlink : Option ℕ → State → Outcome (Bool × State)
  sys_unlink none s = done (false, s)
  sys_unlink (some path) s = do
    s ← begin events s
    (parent, s) ← parent_of hart events rounds de name dot dotdot path s
    elim parent [
      | none ↦ finish hart false s
      | some dp ↦ do
        s ← lock dp s
        let is_dot = is_zero (strncmp (bytes_at name s.mem) (bytes_at dot s.mem) dirsize)
        let is_dotdot = is_zero (strncmp (bytes_at name s.mem) (bytes_at dotdot s.mem) dirsize)
        if is_dot || is_dotdot then unlink_bad dp s else (do
          (hit, s) ← look_up hart events rounds de name dot dotdot dp s
          elim hit [
            | none ↦ unlink_bad dp s
            | some (ip, offset) ↦ do s ← lock ip s; unlink_entry dp ip offset s
          ])
    ]

  -- The label `bad` of `sys_link`.
  unfoldable pub link_bad : ℕ → State → Outcome (Bool × State)
  link_bad ip s = do s ← lock ip s; s ← link_down ip s; s ← unlock_put ip s; finish hart false s

  -- `sys_link` of the inode `ip`: a directory is let go without `inode_put`.
  unfoldable pub link_inode : ℕ → ℕ → State → Outcome (Bool × State)
  link_inode ip new s = do
    s ← lock ip s
    if (copy_of ip s).type == dir_type then (do s ← unlock ip s; finish hart false s) else (do
      s ← link_up ip s
      s ← unlock ip s
      (parent, s) ← parent_of hart events rounds de name dot dotdot new s
      elim parent [
        | none ↦ link_bad ip s
        | some dp ↦ do
          s ← lock dp s
          if not ((s.file.system.table dp).dev == (s.file.system.table ip).dev)
              then (do s ← unlock_put dp s; link_bad ip s)
              else (do
                s ←
                    link_name hart events rounds de name dot dotdot dp name
                      (s.file.system.table ip).inode_num s
                s ← unlock_put dp s
                s ← put ip s
                finish hart true s)
      ])

  unfoldable pub sys_link : Option ℕ → Option ℕ → State → Outcome (Bool × State)
  sys_link none new s = done (false, s)
  sys_link (some old) none s = done (false, s)
  sys_link (some old) (some new) s = do
    s ← begin events s
    (found, s) ← inode_of hart events rounds de name dot dotdot old s
    elim found [ none ↦ finish hart false s | some ip ↦ link_inode ip new s ]
