-- ===== src/Libc.antt =====
-- src/libc/string: the memory and string functions that the kernel is linked with.
-- Memory is a byte for each address. Pointers and `size_t` are 32-bit words; the theorems keep the
-- objects inside the address space, so no address wraps. A function that only reads takes each
-- pointer as the bytes from it on.
pub mod Move
pub mod Strings
pub mod Compare
mod Tests
use risc_v_os.Base.{
  ℕ, zero, suc, ◌+◌, ◌-◌, ◌%◌, ◌^◌, Bool, true, false, ◌&&◌, ◌||◌, not, Option, none, some, ◌==◌,
  ltb, leb, if◌then◌else◌,
}
use risc_v_os.Base.Family.{update}
use risc_v_os.Base.Int.{ℤ, pos, negsuc, byte_difference}

abbrev pub u32_mod : ℕ
u32_mod = 2 ^ 32

abbrev pub i32_half : ℕ
i32_half = 2 ^ 31

abbrev pub Memory : Type 0
Memory = ℕ → ℕ

-- `a < b` of two 32-bit words read as `int`.
abbrev pub int_lt : ℕ → ℕ → Bool
int_lt a b = ltb ((a + i32_half) % u32_mod) ((b + i32_half) % u32_mod)

-- The loop of `memset` from byte `i` on.
unfoldable pub memset_from : ℕ → ℕ → ℕ → ℕ → Memory → Memory
memset_from zero str c i mem = mem
memset_from (suc left) str c i mem = memset_from left str c (i + 1) (update mem (str + i) (c % 256))

unfoldable pub memset : ℕ → ℕ → ℕ → Memory → Memory
unfolding memset_from
memset str c n mem = memset_from n str c 0 mem

-- `dst[i] = src[i]`
abbrev pub copy_byte : ℕ → ℕ → ℕ → Memory → Memory
copy_byte dst src i mem = update mem (dst + i) (mem (src + i))

-- Bytes `i`, `i + 1`, ... in this order, `left` of them.
unfoldable pub copy_up : ℕ → ℕ → ℕ → ℕ → Memory → Memory
copy_up zero dst src i mem = mem
copy_up (suc left) dst src i mem = copy_up left dst src (i + 1) (copy_byte dst src i mem)

-- Bytes `left - 1`, ..., 0 in this order.
unfoldable pub copy_down : ℕ → ℕ → ℕ → Memory → Memory
copy_down zero dst src mem = mem
copy_down (suc i) dst src mem = copy_down i dst src (copy_byte dst src i mem)

-- The loop runs while `i <= (int)n`: not at all when that is negative. No object has 2^31 - 1 bytes,
-- at which `i` would overflow.
unfoldable pub memcpy : ℕ → ℕ → ℕ → Memory → Memory
unfolding copy_up
memcpy dst src n mem = if ltb n i32_half then copy_up (n + 1) dst src 0 mem else mem

-- The loop `for (i = 0; i > n; i++)` of `memmove`, for `left` more values of `i`.
unfoldable pub copy_above : ℕ → ℕ → ℕ → ℕ → ℕ → Memory → Memory
copy_above n zero dst src i mem = mem
copy_above n (suc left) dst src i mem =
    let rest = copy_above n left dst src (i + 1) (copy_byte dst src i mem) in
    if ltb n i then rest else mem

-- `source - dest < (int)n`, the difference as a 32-bit word.
abbrev pub is_near : ℕ → ℕ → ℕ → Bool
is_near dst src n = int_lt ((src + u32_mod - dst) % u32_mod) n

unfoldable pub memmove : ℕ → ℕ → ℕ → Memory → Memory
memmove dst src n mem =
    if (dst == src) || (n == 0)
    then mem
    else if ltb dst src && is_near dst src n
    then copy_above n u32_mod dst src 0 mem
    else if ltb src dst && is_near dst src n
    then copy_down n dst src mem
    else memcpy dst src n mem

-- The value is 1 at a smaller byte of the first object and -1 at a greater one.
unfoldable pub memcmp_from : ℕ → ℕ → (ℕ → ℕ) → (ℕ → ℕ) → ℤ
memcmp_from zero i a b = pos 0
memcmp_from (suc left) i a b =
    let later = memcmp_from left (i + 1) a b in
    if ltb (a i) (b i) then pos 1 else if ltb (b i) (a i) then negsuc 0 else later

unfoldable pub memcmp : (ℕ → ℕ) → (ℕ → ℕ) → ℕ → ℤ
unfolding memcmp_from
memcmp a b n = memcmp_from n 0 a b

-- The loop of `strlen` over at most `left` more bytes, `none` when they hold no zero.
unfoldable pub strlen_from : ℕ → ℕ → (ℕ → ℕ) → Option ℕ
strlen_from zero cnt str = none
strlen_from (suc left) cnt str =
    let later = strlen_from left (cnt + 1) str in if str cnt == 0 then some cnt else later

-- A string lies inside the address space.
unfoldable pub strlen : (ℕ → ℕ) → Option ℕ
unfolding strlen_from
strlen str = strlen_from u32_mod 0 str

-- The loop of `strcpy` with `left` = n - 1 copies allowed, and the zero after it.
unfoldable pub strcpy_from : ℕ → ℕ → ℕ → Memory → Memory
strcpy_from zero s t mem = update mem s 0
strcpy_from (suc left) s t mem =
    let ch = mem t in
    let mem' = update mem s ch in
    let rest = strcpy_from left (s + 1) (t + 1) mem' in
    if ch == 0 then update mem' (s + 1) 0 else rest

unfoldable pub strcpy : ℕ → ℕ → ℕ → Memory → Memory
unfolding strcpy_from
strcpy s t zero mem = mem
strcpy s t (suc left) mem = strcpy_from left s t mem

-- The loop of `strncmp` from byte `i` on, and the value after it.
unfoldable pub strncmp_from : ℕ → ℕ → (ℕ → ℕ) → (ℕ → ℕ) → ℤ
strncmp_from zero i a b = pos 0
strncmp_from (suc n) i a b =
    let later = strncmp_from n (i + 1) a b in
    if not (a i == 0) && (a i == b i) then later else byte_difference (a i) (b i)

unfoldable pub strncmp : (ℕ → ℕ) → (ℕ → ℕ) → ℕ → ℤ
unfolding strncmp_from
strncmp a b n = strncmp_from n 0 a b
