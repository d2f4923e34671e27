-- ===== src/PathName/Tests.antt =====
-- A run of `skip_elem` on the path "/usr/bin", and the theorem there.
use risc_v_os.Base.{◌≡◌, refl, some, arith, inl, ◌==◌, if◌then◌else◌}
use risc_v_os.Libc.{Memory}
use risc_v_os.PathName.{skip_while, in_element, skip_elem}
use risc_v_os.PathName.Element.{Begins, Apart, Named, skip_elem_lem}

abbrev usr_bin : Memory
usr_bin k =
    if k == 100
    then 47
    else if k == 101
    then 117
    else if k == 102
    then 115
    else if k == 103
    then 114
    else if k == 104
    then 47
    else if k == 105
    then 98
    else if k == 106
    then 105
    else if k == 107
    then 110
    else 0

element_ends : skip_while in_element 20 101 usr_bin ≡ some 104
unfolding skip_while
element_ends = refl

usr_bin-Begins : Begins 100 1 3 1 usr_bin
usr_bin-Begins = record {
  leading = λ j h. ground arith;
  some_byte = omega arith;
  body = λ j h. ground arith;
  ended = refl;
  trailing = λ j h. ground arith;
  last = λ e. ground arith;
}

name_below : Apart 100 50 5
name_below = record { sides = inl (omega arith); low = omega arith; high = omega arith }

skip_elem_lem_example :
    (mem' : Memory) × (skip_elem 20 100 50 usr_bin ≡ some (105, mem'))
    × Named 100 1 3 50 usr_bin mem'
skip_elem_lem_example =
    skip_elem_lem 100 1 3 1 50 usr_bin usr_bin-Begins name_below 20 (omega arith)
