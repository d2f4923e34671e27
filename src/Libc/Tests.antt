-- ===== src/Libc/Tests.antt =====
-- Runs of the string functions, and the theorems at a small memory.
use risc_v_os.Base.{◌≡◌, ◌<◌, ◌≤◌, refl, arith, ◌==◌, if◌then◌else◌}
use risc_v_os.Base.Family.{update}
use risc_v_os.Libc.{Memory, memcpy, memmove, strcpy, copy_up, copy_down, strcpy_from}
use risc_v_os.Libc.Move.{Copied, memmove_lem}
use risc_v_os.Libc.Strings.{StringAt}

-- Byte `k` at address `k`, so that a zero stands at address 0 only.
abbrev count_up : Memory
count_up k = k

abbrev abc : Memory
abc k = if k == 10 then 97 else if k == 11 then 98 else 0

memcpy_one_too_many : memcpy 0 10 2 count_up 2 ≡ 12
unfolding memcpy copy_up update
memcpy_one_too_many = refl

memmove_up : memmove 11 10 3 count_up 13 ≡ 12
unfolding memmove copy_down update
memmove_up = refl

strcpy_cut : strcpy 20 10 2 abc 21 ≡ 0
unfolding strcpy strcpy_from update
strcpy_cut = refl

memmove_lem_example :
    (10 < 11 → Copied 11 10 3 count_up (memmove 11 10 3 count_up))
    × (11 < 10 → 10 < 14 → memmove 11 10 3 count_up ≡ count_up)
    × (14 ≤ 10 → Copied 11 10 4 count_up (memmove 11 10 3 count_up))
memmove_lem_example =
    memmove_lem 11 10 3 count_up (omega arith) (omega arith) (omega arith) (omega arith)

abc-StringAt : StringAt 10 2 abc
abc-StringAt = record { body = λ j h e. ground arith; ended = refl }
