-- ===== src/Libc/Move.antt =====
-- `memset`, `memcpy` and `memmove`: which bytes they write, and with what.
use risc_v_os.Base.{
  ℕ, zero, suc, ◌+◌, ◌%◌, ◌≤◌, ◌<◌, ◌≡◌, ◌≢◌, ◌⊎◌, refl, sym, ap, ◌∙◌, true, false, ◌&&◌, ◌||◌,
  arith, ◌==◌, ltb, ℕ_discrete,
}
use risc_v_os.Base.Family.{update, update_self, update_ne}
use risc_v_os.Libc.{
  Memory, u32_mod, i32_half, is_near, memset_from, memset, copy_byte, copy_up, copy_down,
  copy_above, memcpy, memmove,
}

-- The `n` bytes from `dst` on are what the `n` bytes from `src` on were; no other byte differs.
pub record Copied (dst src n : ℕ) (mem mem' : Memory) : Type 0 where
  pub inside : (j : ℕ) → j < n → mem' (dst + j) ≡ mem (src + j)
  pub others : (k : ℕ) → (k < dst) ⊎ (dst + n ≤ k) → mem' k ≡ mem k

memset_from-others :
    (left str c i : ℕ) (mem : Memory) (k : ℕ)
    → (k < str + i) ⊎ (str + i + left ≤ k)
    → memset_from left str c i mem k ≡ mem k
unfolding memset_from
memset_from-others zero str c i mem k out = refl
memset_from-others (suc left) str c i mem k out =
    memset_from-others left str c (i + 1) (update mem (str + i) (c % 256)) k (omega arith)
    ∙ update_ne mem (str + i) k _ (omega arith)

memset_from-inside :
    (left str c i : ℕ) (mem : Memory) (j : ℕ)
    → i ≤ j
    → j < i + left
    → memset_from left str c i mem (str + j) ≡ c % 256
unfolding memset_from
memset_from-inside zero str c i mem j lo hi = absurd (omega arith)
memset_from-inside (suc left) str c i mem j lo hi = elim (ℕ_discrete i j) [
  | yes same ↦
      memset_from-others left str c (i + 1) (update mem (str + i) (c % 256)) (str + j) (omega arith)
      ∙ ap (update mem (str + i) (c % 256)) (ap (λ x. str + x) (sym same))
      ∙ update_self mem (str + i) _
  | no other ↦
      memset_from-inside left str c (i + 1) (update mem (str + i) (c % 256)) j (omega arith)
        (omega arith)
]

-- `memset` gives each of the `n` bytes the low byte of its value, and no other byte is written.
pub memset_lem :
    (str c n : ℕ) (mem : Memory)
    → ((j : ℕ) → j < n → memset str c n mem (str + j) ≡ c % 256)
      × ((k : ℕ) → (k < str) ⊎ (str + n ≤ k) → memset str c n mem k ≡ mem k)
unfolding memset
memset_lem str c n mem = (
  λ j h. memset_from-inside n str c 0 mem j (omega arith) (omega arith),
  λ k out. memset_from-others n str c 0 mem k (omega arith),
)

copy_up-others :
    (left dst src i : ℕ) (mem : Memory) (k : ℕ)
    → (k < dst + i) ⊎ (dst + i + left ≤ k)
    → copy_up left dst src i mem k ≡ mem k
unfolding copy_up
copy_up-others zero dst src i mem k out = refl
copy_up-others (suc left) dst src i mem k out =
    copy_up-others left dst src (i + 1) (copy_byte dst src i mem) k (omega arith)
    ∙ update_ne mem (dst + i) k _ (omega arith)

-- Ascending copies read old bytes when the destination does not start inside the rest of the source.
copy_up-inside :
    (left dst src i : ℕ) (mem : Memory) (j : ℕ)
    → (dst < src) ⊎ (src + left ≤ dst)
    → i ≤ j
    → j < i + left
    → copy_up left dst src i mem (dst + j) ≡ mem (src + j)
unfolding copy_up
copy_up-inside zero dst src i mem j apart lo hi = absurd (omega arith)
copy_up-inside (suc left) dst src i mem j apart lo hi = elim (ℕ_discrete i j) [
  | yes same ↦
      copy_up-others left dst src (i + 1) (copy_byte dst src i mem) (dst + j) (omega arith)
      ∙ ap (copy_byte dst src i mem) (ap (λ x. dst + x) (sym same))
      ∙ update_self mem (dst + i) _
      ∙ ap (λ x. mem (src + x)) same
  | no other ↦
      copy_up-inside left dst src (i + 1) (copy_byte dst src i mem) j (omega arith) (omega arith)
        (omega arith)
      ∙ update_ne mem (dst + i) (src + j) _ (omega arith)
]

copy_down-others :
    (n dst src : ℕ) (mem : Memory) (k : ℕ)
    → (k < dst) ⊎ (dst + n ≤ k)
    → copy_down n dst src mem k ≡ mem k
unfolding copy_down
copy_down-others zero dst src mem k out = refl
copy_down-others (suc i) dst src mem k out =
    copy_down-others i dst src (copy_byte dst src i mem) k (omega arith)
    ∙ update_ne mem (dst + i) k _ (omega arith)

-- Descending copies read old bytes when the destination is above the source.
copy_down-inside :
    (n dst src : ℕ) (mem : Memory) (j : ℕ)
    → src < dst
    → j < n
    → copy_down n dst src mem (dst + j) ≡ mem (src + j)
unfolding copy_down
copy_down-inside zero dst src mem j above h = absurd (omega arith)
copy_down-inside (suc i) dst src mem j above h = elim (ℕ_discrete i j) [
  | yes same ↦
      copy_down-others i dst src (copy_byte dst src i mem) (dst + j) (omega arith)
      ∙ ap (copy_byte dst src i mem) (ap (λ x. dst + x) (sym same))
      ∙ update_self mem (dst + i) _
      ∙ ap (λ x. mem (src + x)) same
  | no other ↦
      copy_down-inside i dst src (copy_byte dst src i mem) j above (omega arith)
      ∙ update_ne mem (dst + i) (src + j) _ (omega arith)
]

-- The loop of the first branch tests `i > n` and starts at 0.
copy_above-zero : (n left dst src : ℕ) (mem : Memory) → copy_above n left dst src 0 mem ≡ mem
unfolding copy_above
copy_above-zero n zero dst src mem = refl
copy_above-zero n (suc left) dst src mem = ground arith

-- `memcpy` of fewer than 2^31 bytes from an object that it does not run into from below copies one
-- byte more than its length.
pub memcpy_lem :
    (dst src n : ℕ) (mem : Memory)
    → n < i32_half
    → (dst < src) ⊎ (src + n < dst)
    → Copied dst src (n + 1) mem (memcpy dst src n mem)
unfolding memcpy
memcpy_lem dst src n mem small apart =
    let run : ltb n i32_half ≡ true = ground arith in
    rw run (record {
      inside =
          λ j h. copy_up-inside (n + 1) dst src 0 mem j (omega arith) (omega arith) (omega arith);
      others = λ k out. copy_up-others (n + 1) dst src 0 mem k (omega arith);
    })

-- Where the three branches of `memmove` are taken, for objects less than 2^31 bytes apart.
module _ (dst src n : ℕ) (some_byte : 0 < n) where
  near_below : dst < src → src < dst + n → n < i32_half → (ltb dst src && is_near dst src n) ≡ true
  near_below below overlap small = ground arith

  far_below : dst + n ≤ src → src < dst + i32_half → (ltb dst src && is_near dst src n) ≡ false
  far_below apart close = ground arith

  near_above :
      src < dst
      → dst < src + i32_half
      → n < i32_half
      → ((ltb dst src && is_near dst src n) ≡ false) × ((ltb src dst && is_near dst src n) ≡ true)
  near_above above close small = ground arith

  starts : dst ≢ src → ((dst == src) || (n == 0)) ≡ false
  starts differ = ground arith

-- `memmove` of `n` bytes, more than none and fewer than 2^31, between different addresses less
-- than 2^31 apart: towards a higher address, overlapping or not, it copies them exactly; towards a
-- lower address that they overlap it changes nothing; towards a lower one that they do not overlap
-- it copies one byte too many.
pub memmove_lem :
    (dst src n : ℕ) (mem : Memory)
    → 0 < n
    → n < i32_half
    → dst < src + i32_half
    → src < dst + i32_half
    → (src < dst → Copied dst src n mem (memmove dst src n mem))
      × (dst < src → src < dst + n → memmove dst src n mem ≡ mem)
      × (dst + n ≤ src → Copied dst src (n + 1) mem (memmove dst src n mem))
unfolding memmove
memmove_lem dst src n mem some_byte small close close' = (
  λ above.
      let (off, on) = near_above dst src n some_byte above close small in
      rw (starts dst src n some_byte (omega arith), off, on)
        (record {
          inside = λ j h. copy_down-inside n dst src mem j above h;
          others = λ k out. copy_down-others n dst src mem k out;
        }),
  λ below overlap.
      rw
        (
          starts dst src n some_byte (omega arith),
          near_below dst src n some_byte below overlap small,
        )
        (copy_above-zero n u32_mod dst src mem),
  λ apart.
      let off : (ltb src dst && is_near dst src n) ≡ false = ground arith in
      rw (starts dst src n some_byte (omega arith), far_below dst src n some_byte apart close', off)
        (memcpy_lem dst src n mem small (omega arith)),
)
