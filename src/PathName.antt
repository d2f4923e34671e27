-- ===== src/PathName.antt =====
-- src/kernel/filesys.c, lines 677 to 705: splitting the first element off a path name.
-- Pointers are addresses in the memory of the module Libc, whose `memmove` copies the element; a
-- path ends within the rounds that its loops are given, or there is no result.
pub mod Element
mod Tests
use risc_v_os.Base.{
  ℕ, zero, suc, ◌+◌, ◌-◌, Bool, true, false, ◌&&◌, not, Option, none, some, ◌==◌, leb,
  if◌then◌else◌,
}
use risc_v_os.Base.Family.{update}
use risc_v_os.Libc.{Memory, memmove}

abbrev pub dirsize : ℕ
dirsize = 14

abbrev pub is_slash : ℕ → Bool
is_slash ch = ch == 47

-- `*path != '/' && *path != 0`
abbrev pub in_element : ℕ → Bool
in_element ch = not (is_slash ch) && not (ch == 0)

-- `while (test(*path)) path++;`
unfoldable pub skip_while : (ℕ → Bool) → ℕ → ℕ → Memory → Option ℕ
skip_while test zero path mem = none
skip_while test (suc rounds) path mem =
    let later = skip_while test rounds (path + 1) mem in
    if test (mem path) then later else some path

-- The copy of the element of `len` bytes at `s`, with a zero after it when there is room.
unfoldable pub copy_name : ℕ → ℕ → ℕ → Memory → Memory
copy_name name s len mem =
    if leb dirsize len
    then memmove name s dirsize mem
    else update (memmove name s len mem) (name + len) 0

-- The pointer that is returned (0 when no element is left), and the memory.
unfoldable pub skip_elem : ℕ → ℕ → ℕ → Memory → Option (ℕ × Memory)
unfolding skip_while copy_name
skip_elem rounds path name mem = elim (skip_while is_slash rounds path mem) [
  | none ↦ none
  | some s ↦ elim (mem s == 0) [
    | true ↦ some (0, mem)
    | false ↦ elim (skip_while in_element rounds s mem) [
      | none ↦ none
      | some rest ↦ elim (skip_while is_slash rounds rest (copy_name name s (rest - s) mem)) [
        | none ↦ none
        | some next ↦ some (next, copy_name name s (rest - s) mem)
      ]
    ]
  ]
]
