-- ===== src/Directory.antt =====
-- src/kernel/filesys.c, lines 577 to 675 and 707 to 714: directories and walking along a path.
-- Memory is that of the module Libc. The local `de` is 16 bytes at the address `de`, and `name` and
-- `path` are addresses; `read_inode` and `write_inode` move bytes within the kernel.
pub mod Lookup
mod Tests
use risc_v_os.Base.{
  ℕ, zero, suc, ◌+◌, ◌*◌, ◌/◌, ◌%◌, Bool, true, false, ◌&&◌, ◌||◌, not, Option, none, some, ◌==◌,
  ltb, if◌then◌else◌,
}
use risc_v_os.Base.Int.{ℤ, pos, negsuc}
use risc_v_os.Base.Family.{update}
use risc_v_os.Base.Outcome.{Outcome, done, panic, asleep, panic_if, ◌>>=◌, ◌>>◌}
use risc_v_os.Libc.{Memory, strncmp, strcpy}
use risc_v_os.PathName.{dirsize, is_slash, skip_elem}
use risc_v_os.Inode.{State, inode_get, inode_dup, inode_lock, inode_unlock}
use risc_v_os.Inode.Storage.{inode_put, read_inode, write_inode}
use risc_v_os.Inode.Content.{kernel_store}

abbrev pub dir_type : ℕ
dir_type = 1

abbrev pub entry_size : ℕ
entry_size = 16

abbrev pub rootdev : ℕ
rootdev = 1

abbrev pub rooting : ℕ
rooting = 1

abbrev pub is_zero : ℤ → Bool
is_zero (pos n) = n == 0
is_zero (negsuc n) = false

-- The bytes from a pointer on.
abbrev pub bytes_at : ℕ → Memory → ℕ → ℕ
bytes_at p mem k = mem (p + k)

-- `de.inode_num`, of 16 bits.
abbrev pub entry_inode : ℕ → Memory → ℕ
entry_inode de mem = mem de + 256 * mem (de + 1)

abbrev pub is_name : ℕ → ℕ → Memory → Bool
is_name de name mem = is_zero (strncmp (bytes_at name mem) (bytes_at (de + 2) mem) dirsize)

abbrev pub is_entry : Option ℕ → Bool
is_entry none = false
is_entry (some n) = n == entry_size

-- `memmove` from kernel memory.
abbrev pub kernel_fetch : Memory → ℕ → ℕ → Option (ℕ → ℕ)
kernel_fetch mem src n = some (bytes_at src mem)

module _ (de : ℕ) where
  -- `read_inode` of the entry at `offset`, which must be whole.
  unfoldable pub read_entry : ℕ → ℕ → Memory → State → Outcome (Memory × State)
  read_entry i offset mem s = do
    (count, mem, s) ← read_inode kernel_store i de offset entry_size mem s
    panic_if (not (is_entry count))
    done (mem, s)

  -- The loop of `dir_lookup` from `offset` on: the offset and the inode number of the entry.
  unfoldable pub lookup_from :
      ℕ → ℕ → ℕ → ℕ → Memory → State → Outcome (Option (ℕ × ℕ) × Memory × State)
  lookup_from zero i name offset mem s = asleep
  lookup_from (suc rounds) i name offset mem s =
      if ltb offset (s.table i).copy.size
      then (do
        (mem, s) ← read_entry i offset mem s
        let later = lookup_from rounds i name (offset + entry_size) mem s
        if not (entry_inode de mem == 0) && is_name de name mem
            then done (some (offset, entry_inode de mem), mem, s)
            else later)
      else done (none, mem, s)

  -- The slot of the inode and the offset of the entry, none for 0.
  unfoldable pub dir_lookup : ℕ → ℕ → Memory → State → Outcome (Option (ℕ × ℕ) × Memory × State)
  dir_lookup i name mem s = do
    panic_if (not ((s.table i).copy.type == dir_type))
    (hit, mem, s) ← lookup_from ((s.table i).copy.size / entry_size + 1 + 1) i name 0 mem s
    elim hit [
      | none ↦ done (none, mem, s)
      | some (offset, num) ↦ do
        (slot, s) ← inode_get (s.table i).dev num s
        done (some (slot, offset), mem, s)
    ]

  -- The loop of `dir_link`: the offset of the first entry without an inode.
  unfoldable pub free_from : ℕ → ℕ → ℕ → Memory → State → Outcome (ℕ × Memory × State)
  free_from zero i offset mem s = asleep
  free_from (suc rounds) i offset mem s =
      if ltb offset (s.table i).copy.size
      then (do
        (mem, s) ← read_entry i offset mem s
        let later = free_from rounds i (offset + entry_size) mem s
        if entry_inode de mem == 0 then done (offset, mem, s) else later)
      else done (offset, mem, s)

  -- A name that is there already is linked once more.
  unfoldable pub dir_link : ℕ → ℕ → ℕ → ℕ → Memory → State → Outcome (Memory × State)
  dir_link pid i name num mem s = do
    (hit, mem, s) ← dir_lookup i name mem s
    s ← elim hit [ none ↦ done s | some (slot, _) ↦ inode_put pid slot s ]
    (offset, mem, s) ← free_from ((s.table i).copy.size / entry_size + 1 + 1) i 0 mem s
    let mem = strcpy (de + 2) name dirsize mem
    let mem = update (update mem de (num % 256)) (de + 1) (num / 256 % 256)
    (count, s) ← write_inode (kernel_fetch mem) i de offset entry_size s
    panic_if (not (is_entry count))
    done (mem, s)

  -- The loop of `name_fetch` on the inode in slot `i`; `rounds` also bounds the walks along the path.
  unfoldable pub fetch_from :
      ℕ → ℕ → Bool → ℕ → ℕ → ℕ → Memory → State → Outcome (Option ℕ × Memory × State)
  fetch_from zero pid parent name path i mem s = asleep
  fetch_from (suc rounds) pid parent name path i mem s =
      elim (skip_elem (suc rounds) path name mem) [
        | none ↦ asleep
        | some (next, mem) ↦
            if next == 0
            then (if parent
                then (do s ← inode_put pid i s; done (none, mem, s))
                else done (some i, mem, s))
            else (do
              s ← inode_lock pid i s
              if not ((s.table i).copy.type == dir_type)
                  then (do s ← inode_unlock pid i s; s ← inode_put pid i s; done (none, mem, s))
                  else if parent && (mem next == 0)
                  then (do s ← inode_unlock pid i s; done (some i, mem, s))
                  else (do
                    (hit, mem, s) ← dir_lookup i name mem s
                    s ← inode_unlock pid i s
                    s ← inode_put pid i s
                    elim hit [
                      | none ↦ done (none, mem, s)
                      | some (slot, _) ↦ fetch_from rounds pid parent name next slot mem s
                    ]))
      ]

  -- `cwd` is the slot of the working directory of the calling process `pid`.
  unfoldable pub name_fetch :
      ℕ → ℕ → ℕ → ℕ → Bool → ℕ → Memory → State → Outcome (Option ℕ × Memory × State)
  name_fetch rounds pid cwd path parent name mem s = do
    (i, s) ←
        if is_slash (mem path) then inode_get rootdev rooting s else done (cwd, inode_dup cwd s)
    fetch_from rounds pid parent name path i mem s

  unfoldable pub name_inode :
      ℕ → ℕ → ℕ → ℕ → ℕ → Memory → State → Outcome (Option ℕ × Memory × State)
  name_inode rounds pid cwd name path mem s = name_fetch rounds pid cwd path false name mem s

  unfoldable pub nameiparent :
      ℕ → ℕ → ℕ → ℕ → ℕ → Memory → State → Outcome (Option ℕ × Memory × State)
  nameiparent rounds pid cwd path name mem s = name_fetch rounds pid cwd path true name mem s
