-- ===== src/Inode/Content.antt =====
-- `read_inode` against the file as one sequence of bytes.
use risc_v_os.Base.{
  ℕ, zero, suc, ◌+◌, ◌-◌, ◌*◌, ◌/◌, ◌%◌, ◌≤◌, ◌<◌, ◌≡◌, ◌≢◌, ◌⊎◌, inl, inr, refl, sym, ap, subst,
  ◌∙◌, true, false, Option, none, some, arith, ◌==◌, ltb, leb, ◌&&◌, ◌||◌, if◌then◌else◌, dec_lt,
  min, Bool-cases,
}
use risc_v_os.Base.Outcome.{done}
use risc_v_os.Inode.{State, buffer_size, u32_mod}
use risc_v_os.Inode.Storage.{buffer_map, part, splice, read_blocks, read_inode}
use risc_v_os.Inode.Addresses.{address}
use risc_v_os.Inode.Mapping.{maxfile, present}

abbrev pub Memory : Type 0
Memory = ℕ → ℕ

-- `either_copyout` to a kernel address above the buffers, where its `memmove` is exact
-- (Libc.Move.memmove_lem): a local variable on a kernel stack.
abbrev pub kernel_store : ℕ → (ℕ → ℕ) → ℕ → Memory → Option Memory
kernel_store dst bytes n mem = some (splice mem dst n bytes)

abbrev pub size : ℕ → State → ℕ
size i s = (s.table i).copy.size

-- Byte `k` of the file in slot `i`.
abbrev pub file_byte : ℕ → State → ℕ → ℕ
file_byte i s k = s.blocks.bytes (address i (k / buffer_size) s) (k % buffer_size)

-- Each block below the size has an address, and the size is one that `write_inode` can reach.
pub record IsWhole (i : ℕ) (s : State) : Type 0 where
  pub bound : size i s ≤ maxfile * buffer_size
  pub present : (k : ℕ) → k * buffer_size < size i s → address i k s ≢ 0

-- `n` bytes of the file from `off` on stand at `dst`, and nothing else has changed.
pub record Delivered (i : ℕ) (s : State) (dst off n : ℕ) (mem mem' : Memory) : Type 0 where
  pub inside : (k : ℕ) → k < n → mem' (dst + k) ≡ file_byte i s (off + k)
  pub outside : (a : ℕ) → (a < dst) ⊎ (dst + n ≤ a) → mem' a ≡ mem a

module _ (old bytes : ℕ → ℕ) (off n : ℕ) where
  splice-inside : (k : ℕ) → k < n → splice old off n bytes (off + k) ≡ bytes k
  splice-inside k h =
      let test : (leb off (off + k) && ltb (off + k) (off + n)) ≡ true = ground arith in
      let index : off + k - off ≡ k = omega arith in rw (test, index) refl

  splice-outside : (a : ℕ) → (a < off) ⊎ (off + n ≤ a) → splice old off n bytes a ≡ old a
  splice-outside a h =
      let test : (leb off a && ltb a (off + n)) ≡ false = ground arith in rw test refl

-- Each copy of at least one byte to addresses from `lo` to `hi` succeeds; the view of memory then has
-- the bytes there and is unchanged elsewhere.
pub record IsExact {M : Type 0} (store : ℕ → (ℕ → ℕ) → ℕ → M → Option M) (view : M → Memory)
    (lo hi : ℕ) : Type 0 where
  pub stored :
      (dst : ℕ) (bytes : ℕ → ℕ) (n : ℕ) (mem : M)
      → lo ≤ dst
      → 0 < n
      → dst + n ≤ hi
      → (mem' : M) × (store dst bytes n mem ≡ some mem')
        × ((k : ℕ) → k < n → view mem' (dst + k) ≡ bytes k)
        × ((a : ℕ) → (a < dst) ⊎ (dst + n ≤ a) → view mem' a ≡ view mem a)

pub kernel_store-IsExact : (lo hi : ℕ) → IsExact kernel_store (λ mem. mem) lo hi
kernel_store-IsExact lo hi = record {
  stored = λ dst bytes n mem above some_byte below.
      (splice mem dst n bytes, refl, splice-inside mem bytes dst n, splice-outside mem bytes dst n);
}

part-range :
    (off left : ℕ)
    → 0 < left
    → (0 < part off left)
      × (part off left ≤ left)
      × (off % buffer_size + part off left ≤ buffer_size)
part-range off left h = (ground arith, ground arith, ground arith)

-- The bytes of a block of the file, from an offset in the file on.
abbrev block_bytes : ℕ → ℕ → State → ℕ → ℕ
block_bytes i off s k = s.blocks.bytes (address i (off / buffer_size) s) (off % buffer_size + k)

-- A first part from one block, then the rest.
Delivered-join :
    (i : ℕ) (s : State) (dst off j n : ℕ) (mem mid mem' : Memory)
    → off % buffer_size + j ≤ buffer_size
    → ((k : ℕ) → k < j → mid (dst + k) ≡ block_bytes i off s k)
    → ((a : ℕ) → (a < dst) ⊎ (dst + j ≤ a) → mid a ≡ mem a)
    → Delivered i s (dst + j) (off + j) n mid mem'
    → Delivered i s dst off (j + n) mem mem'
Delivered-join i s dst off j n mem mid mem' fits in_first out_first d = record {
  inside = λ k h. elim (dec_lt k j) [
    | yes first ↦
        let quotient : off / buffer_size ≡ (off + k) / buffer_size = omega arith in
        let remainder : off % buffer_size + k ≡ (off + k) % buffer_size = omega arith in
        d.outside (dst + k) (inl (omega arith))
        ∙ (in_first k first
            ∙ (ap (λ q. s.blocks.bytes (address i q s) (off % buffer_size + k)) quotient
                ∙ ap (λ r. s.blocks.bytes (address i ((off + k) / buffer_size) s) r) remainder))
    | no later ↦
        let here : dst + j + (k - j) ≡ dst + k = omega arith in
        let there : off + j + (k - j) ≡ off + k = omega arith in
        ap mem' (sym here) ∙ (d.inside (k - j) (omega arith) ∙ ap (file_byte i s) there)
  ];
  outside = λ a h.
      let later : (a < dst + j) ⊎ (dst + j + n ≤ a) = (elim h [
        | inl l ↦ inl (omega arith)
        | inr r ↦ inr (omega arith)
      ]) in
      let first : (a < dst) ⊎ (dst + j ≤ a) = (elim h [
        | inl l ↦ inl l
        | inr r ↦ inr (omega arith)
      ]) in
      d.outside a later ∙ out_first a first;
}

module _ {M : Type 0} (store : ℕ → (ℕ → ℕ) → ℕ → M → Option M) (view : M → Memory) where
  -- One round at a block that has an address.
  read_blocks-step :
      (rounds i dst off left addr : ℕ) (mem mid : M) (s : State)
      → 0 < left
      → buffer_map i (off / buffer_size) s ≡ done (addr, s)
      → addr ≢ 0
      → off + part off left < u32_mod
      → store dst (λ k. s.blocks.bytes addr (off % buffer_size + k)) (part off left) mem ≡ some mid
      → read_blocks store (suc rounds) i dst off left mem s
        ≡ read_blocks store rounds i
            (dst + part off left)
            (off + part off left)
            (left - part off left)
            mid
            s
  unfolding read_blocks
  read_blocks-step rounds i dst off left addr mem mid s some_left found nz small put =
      let go : (left == 0) ≡ false = ground arith in
      let test : (addr == 0) ≡ false = ground arith in
      let wrap : (off + part off left) % u32_mod ≡ off + part off left = omega (arith, small) in
      rw (go, found, test, found, put, wrap) refl

  module _ (i lo hi : ℕ) (s : State) (w : IsWhole i s) (exact : IsExact store view lo hi) where
    read_blocks-Delivered :
        (rounds dst off left : ℕ) (mem : M)
        → left < rounds
        → off + left ≤ size i s
        → lo ≤ dst
        → dst + left ≤ hi
        → (mem' : M) × (read_blocks store rounds i dst off left mem s ≡ done (mem', s))
          × Delivered i s dst off left (view mem) (view mem')
    unfolding read_blocks
    read_blocks-Delivered zero dst off left mem enough within above below = absurd (omega arith)
    read_blocks-Delivered (suc rounds) dst off left mem enough within above below =
        elim (Bool-cases (left == 0)) [
          | inl stop ↦
              let nothing : left ≡ 0 = ground arith in
              (
                mem,
                rw stop refl,
                record { inside = λ k h. absurd (omega arith); outside = λ a h. refl },
              )
          | inr go ↦
              let some_left : 0 < left = ground arith in
              let j : ℕ = part off left in
              let (progress, less, fits) = part-range off left some_left in
              let bound = w.bound in
              let addr : ℕ = address i (off / buffer_size) s in
              let nz : addr ≢ 0 = w.present (off / buffer_size) (omega arith) in
              let found : buffer_map i (off / buffer_size) s ≡ done (addr, s) =
                present i (off / buffer_size) s (omega arith) nz in
              let (mid, put, in_first, out_first) =
                exact.stored dst (block_bytes i off s) (part off left) mem above progress
                  (omega (arith, less, below)) in
              let step =
                read_blocks-step rounds i dst off left addr mem mid s some_left found nz
                  (omega (arith, less, within, bound)) put in
              let (mem', ran, d) =
                read_blocks-Delivered rounds (dst + part off left) (off + part off left)
                  (left - part off left) mid (omega (arith, progress)) (omega (arith, less, within))
                  (omega (arith, above)) (omega (arith, less, below)) in
              let total : part off left + (left - part off left) ≡ left = omega (arith, less) in
              (
                mem',
                step ∙ ran,
                subst (λ m. Delivered i s dst off m (view mem) (view mem')) total
                    (Delivered-join i s dst off (part off left) (left - part off left) (view mem)
                      (view mid) (view mem') fits in_first out_first d),
              )
        ]

-- `read_inode` of an offset past the size, or of a range that wraps, fails and changes nothing.
pub read_inode-none :
    (i : ℕ) (s : State) (dst off n : ℕ) (mem : Memory)
    → off < u32_mod
    → n < u32_mod
    → (size i s < off) ⊎ (u32_mod ≤ off + n)
    → read_inode kernel_store i dst off n mem s ≡ done (none, mem, s)
unfolding read_inode
read_inode-none i s dst off n mem hoff hn bad =
    let stop : (ltb (size i s) off || ltb ((off + n) % u32_mod) off) ≡ true = elim bad [
      | inl past ↦ ground arith
      | inr wraps ↦ ground arith
    ] in
    rw stop refl

-- On a file without holes, from an offset that is not past its size, with a range that does not wrap,
-- and into a range of memory where each copy succeeds and is exact (as `copyout` to mapped pages, or
-- `memmove` to an address above the buffers): `read_inode` returns the lesser of the count and what
-- is left of the file; those bytes of the file stand at the destination in order, and no other byte
-- of memory and nothing of the file system has changed.
pub read_inode_lem :
    {M : Type 0} (store : ℕ → (ℕ → ℕ) → ℕ → M → Option M) (view : M → Memory) (i : ℕ) (s : State)
    (dst off n : ℕ) (mem : M)
    → IsExact store view dst (dst + n)
    → IsWhole i s
    → off ≤ size i s
    → off + n < u32_mod
    → (mem' : M) × (read_inode store i dst off n mem s
        ≡ done (some (min n (size i s - off)), mem', s))
      × Delivered i s dst off (min n (size i s - off)) (view mem) (view mem')
unfolding read_inode
read_inode_lem store view i s dst off n mem exact w start small =
    let m : ℕ = if ltb (size i s) (off + n) then size i s - off else n in
    let count : (if ltb (size i s) (off + n) then size i s - off else n) ≡ min n (size i s - off) =
      ground arith in
    let valid : (ltb (size i s) off || ltb ((off + n) % u32_mod) off) ≡ false = ground arith in
    let (mem', ran, d) =
      read_blocks-Delivered store view i dst (dst + n) s w exact (m + 1) dst off m mem (omega arith)
        (ground arith) (omega arith) (ground arith) in
    (
      mem',
      rw (valid, ran) (ap (λ c. done (some c, mem', s)) count),
      subst (λ c. Delivered i s dst off c (view mem) (view mem')) count d,
    )
