-- ===== src/Paging/Copyout.antt =====
-- What `copyout` writes, page by page.
use risc_v_os.Base.{
  ℕ, zero, suc, ◌+◌, ◌-◌, ◌/◌, ◌%◌, ◌^◌, ◌≤◌, ◌<◌, ◌≡◌, ◌≢◌, ◌⊎◌, inl, inr, refl, sym, ap, ◌∙◌,
  true, false, arith, ◌==◌, ℕ_discrete, dec_lt,
}
use risc_v_os.Base.Outcome.{done}
use risc_v_os.Libc.{Memory, memmove, i32_half}
use risc_v_os.Libc.Move.{Copied, memmove_lem}
use risc_v_os.Pmm.{u32_mod}
use risc_v_os.Paging.{Allocator, State, fetch_pa_addr, page_down}
use risc_v_os.Paging.Copy.{chunk, copyout_loop, copyout}

-- The physical address of `va` when page number `k` lies in frame `frame k`.
abbrev pub physical : (ℕ → ℕ) → ℕ → ℕ
physical frame va = frame (va / 4096) + va % 4096

-- The pages of `len` bytes from `dst` on are mapped to different aligned frames above the source.
pub record Frames {A : Type 0} (al : Allocator A) (pt : ℕ) (s : State A) (frame : ℕ → ℕ)
    (dst src len : ℕ) : Type 0 where
  pub fetched :
      (va : ℕ)
      → dst ≤ va
      → va < dst + len
      → fetch_pa_addr al pt (page_down va) s ≡ done (frame (va / 4096))
  pub aligned : (va : ℕ) → dst ≤ va → va < dst + len → frame (va / 4096) % 4096 ≡ 0
  pub above : (va : ℕ) → dst ≤ va → va < dst + len → src + len ≤ frame (va / 4096)
  pub close : (va : ℕ) → dst ≤ va → va < dst + len → frame (va / 4096) + 4096 ≤ src + i32_half
  pub apart :
      (va vb : ℕ)
      → dst ≤ va
      → va < dst + len
      → dst ≤ vb
      → vb < dst + len
      → frame (va / 4096) ≡ frame (vb / 4096)
      → va / 4096 ≡ vb / 4096
  pub in_range : dst + len ≤ 2 ^ 32

pub record Delivered (frame : ℕ → ℕ) (dst src len : ℕ) (mem mem' : Memory) : Type 0 where
  pub inside : (j : ℕ) → j < len → mem' (physical frame (dst + j)) ≡ mem (src + j)
  pub others : (k : ℕ) → ((j : ℕ) → j < len → physical frame (dst + j) ≢ k) → mem' k ≡ mem k

module _ {A : Type 0} (al : Allocator A) (pt : ℕ) (s : State A) (frame : ℕ → ℕ) where
  rest_Frames :
      (dst src len : ℕ)
      → Frames al pt s frame dst src len
      → chunk dst len < len
      → Frames al pt s frame (page_down dst + 4096) (src + chunk dst len) (len - chunk dst len)
  rest_Frames dst src len f more =
      let inside : (va : ℕ)
          → page_down dst + 4096 ≤ va
          → va < page_down dst + 4096 + (len - chunk dst len)
          → (dst ≤ va) × (va < dst + len) =
        λ va lo hi. (omega arith, ground arith) in
      record {
        fetched = λ va lo hi. f.fetched va (inside va lo hi).0 (inside va lo hi).1;
        aligned = λ va lo hi. f.aligned va (inside va lo hi).0 (inside va lo hi).1;
        above = λ va lo hi. ground (arith, f.above va (inside va lo hi).0 (inside va lo hi).1);
        close = λ va lo hi. ground (arith, f.close va (inside va lo hi).0 (inside va lo hi).1);
        apart = λ va vb lo hi lo' hi'.
            f.apart va vb (inside va lo hi).0 (inside va lo hi).1 (inside vb lo' hi').0
              (inside vb lo' hi').1;
        in_range = ground (arith, f.in_range);
      }

  chunk-lt :
      (dst len : ℕ)
      → 0 < len
      → (0 < chunk dst len) × (chunk dst len ≤ len) × (chunk dst len ≤ 4096 - dst % 4096)
  chunk-lt dst len h = ground arith

  -- The first chunk of a copy.
  first_chunk :
      (dst src len : ℕ) (mem : Memory)
      → 0 < len
      → Frames al pt s frame dst src len
      → Copied
          (physical frame dst)
          src
          (chunk dst len)
          mem
          (memmove (physical frame dst) src (chunk dst len) mem)
  first_chunk dst src len mem h f =
      let (some_byte, few, within) = chunk-lt dst len h in
      let up = f.above dst (omega arith) (omega arith) in
      let near = f.close dst (omega arith) (omega arith) in
      (memmove_lem (physical frame dst) src (chunk dst len) mem some_byte (omega (arith, within))
          (omega (arith, near)) (omega (arith, up))).0
        (omega (arith, up))

  nothing_left :
      (rounds dst src len : ℕ) (mem : Memory)
      → 0 < rounds
      → len ≡ 0
      → copyout_loop al pt s rounds dst src len mem ≡ done (true, mem)
  unfolding copyout_loop
  nothing_left zero dst src len mem h e = absurd (omega arith)
  nothing_left (suc rounds) dst src len mem h e =
      let stop : (len == 0) ≡ true = ground arith in rw stop refl

  one_round :
      (rounds dst src len : ℕ) (mem : Memory)
      → 0 < len
      → Frames al pt s frame dst src len
      → copyout_loop al pt s (suc rounds) dst src len mem
        ≡ copyout_loop al pt s rounds
            ((page_down dst + 4096) % u32_mod)
            (src + chunk dst len)
            (len - chunk dst len)
            (memmove (physical frame dst) src (chunk dst len) mem)
  unfolding copyout_loop
  one_round rounds dst src len mem h f =
      let go : (len == 0) ≡ false = ground arith in
      let up = f.above dst (omega arith) (omega arith) in
      let mapped : (frame (dst / 4096) == 0) ≡ false = ground (arith, up) in
      rw (go, f.fetched dst (omega arith) (omega arith), mapped) refl

  -- A byte of the first chunk, and one after it.
  in_chunk : (dst len j : ℕ) → j < chunk dst len → physical frame (dst + j) ≡ physical frame dst + j
  in_chunk dst len j h =
      let page : (dst + j) / 4096 ≡ dst / 4096 = ground arith in
      let off : (dst + j) % 4096 ≡ dst % 4096 + j = ground arith in
      omega (arith, ap frame page, off)

  after_chunk :
      (dst src len j : ℕ)
      → Frames al pt s frame dst src len
      → chunk dst len ≤ j
      → j < len
      → (physical frame (dst + j) < physical frame dst)
        ⊎ (physical frame dst + chunk dst len ≤ physical frame (dst + j))
  after_chunk dst src len j f h lt =
      let other : (dst + j) / 4096 ≢ dst / 4096 = ground arith in
      let apart : frame ((dst + j) / 4096) ≢ frame (dst / 4096) = λ e.
        other (f.apart (dst + j) dst (omega arith) (omega arith) (omega arith) (omega arith) e) in
      let few = (chunk-lt dst len (omega arith)).2 in
      omega (
        arith,
        apart,
        f.aligned (dst + j) (omega arith) (omega arith),
        f.aligned dst (omega arith) (omega arith),
        few,
      )

  missed :
      (dst len k : ℕ)
      → chunk dst len ≤ len
      → ((j : ℕ) → j < len → physical frame (dst + j) ≢ k)
      → (k < physical frame dst) ⊎ (physical frame dst + chunk dst len ≤ k)
  missed dst len k few out = elim (dec_lt k (physical frame dst)) [
    | yes low ↦ inl low
    | no high ↦ elim (dec_lt k (physical frame dst + chunk dst len)) [
      | no past ↦ inr (omega arith)
      | yes hit ↦
          let j = k - physical frame dst in
          let at : physical frame dst + j ≡ k = omega arith in
          let lt : j < chunk dst len = omega arith in
          absurd (out j (omega arith) (in_chunk dst len j lt ∙ at))
    ]
  ]

  next_page : (dst len : ℕ) → chunk dst len < len → page_down dst + 4096 ≡ dst + chunk dst len
  next_page dst len more = ground arith

  copyout_loop_lem :
      (rounds dst src len : ℕ) (mem : Memory)
      → len < rounds
      → Frames al pt s frame dst src len
      → (mem' : Memory) × (copyout_loop al pt s rounds dst src len mem ≡ done (true, mem'))
        × Delivered frame dst src len mem mem'
  copyout_loop_lem zero dst src len mem h f = absurd (omega arith)
  copyout_loop_lem (suc rounds) dst src len mem h f = elim (ℕ_discrete len 0) [
    | yes none_left ↦ (
      mem,
      nothing_left (suc rounds) dst src len mem (omega arith) none_left,
      record { inside = λ j lt. absurd (omega arith); others = λ k out. refl },
    )
    | no some_left ↦
        let n = chunk dst len in
        let (some_byte, few, within) = chunk-lt dst len (omega arith) in
        let c = first_chunk dst src len mem (omega arith) f in
        let m : Memory = memmove (physical frame dst) src n mem in
        let e = one_round rounds dst src len mem (omega arith) f in
        elim (dec_lt n len) [
          | no all ↦ (
            m,
            e
                ∙ nothing_left rounds ((page_down dst + 4096) % u32_mod) (src + n) (len - n) m
                    (omega arith) (omega arith),
            record {
              inside = λ j lt. ap m (in_chunk dst len j (omega arith)) ∙ c.inside j (omega arith);
              others = λ k out. c.others k (missed dst len k few out);
            },
          )
          | yes more ↦
              let after = next_page dst len more in
              let next : (page_down dst + 4096) % u32_mod ≡ page_down dst + 4096 =
                omega (arith, after, more, f.in_range) in
              let (m', e', d) =
                copyout_loop_lem rounds (page_down dst + 4096) (src + n) (len - n) m (omega arith)
                  (rest_Frames dst src len f more) in
              let at : (j : ℕ) → page_down dst + 4096 + j ≡ dst + (n + j) =
                λ j. omega (arith, after) in
              let later : (j : ℕ)
                  → j < len - n
                  → (physical frame (dst + (n + j)) < physical frame dst)
                    ⊎ (physical frame dst + n ≤ physical frame (dst + (n + j))) =
                λ j lt. after_chunk dst src len (n + j) f (omega arith) (omega arith) in
              (
                m',
                e ∙ ap (λ a. copyout_loop al pt s rounds a (src + n) (len - n) m) next ∙ e',
                record {
                  inside = λ j lt. elim (dec_lt j n) [
                    | yes first ↦
                        let here = in_chunk dst len j first in
                        d.others (physical frame (dst + j))
                          (λ i il q. omega (arith, later i il, ap (physical frame) (at i), q, here))
                        ∙ ap m here
                        ∙ c.inside j first
                    | no rest ↦
                        let back : dst + (n + (j - n)) ≡ dst + j = omega arith in
                        let source : src + n + (j - n) ≡ src + j = omega arith in
                        ap (λ a. m' (physical frame a)) (sym (at (j - n) ∙ back))
                        ∙ d.inside (j - n) (omega arith)
                        ∙ ap m source
                        ∙ c.others (src + j)
                            (inl (omega (arith, f.above dst (omega arith) (omega arith))))
                  ];
                  others = λ k out.
                      d.others k
                        (λ j lt q. out (n + j) (omega arith) (ap (physical frame) (sym (at j)) ∙ q))
                      ∙ c.others k (missed dst len k few out);
                },
              )
        ]
  ]

  -- `copyout` of `len` bytes to a user's address whose pages are mapped to different frames above
  -- the source: it succeeds, each byte stands at the physical address of its virtual one, and no
  -- other byte of memory is written.
  pub copyout_lem :
      (dst src len : ℕ) (mem : Memory)
      → Frames al pt s frame dst src len
      → (mem' : Memory) × (copyout al pt s dst src len mem ≡ done (true, mem'))
        × Delivered frame dst src len mem mem'
  unfolding copyout
  copyout_lem dst src len mem f = copyout_loop_lem (len + 1) dst src len mem (omega arith) f
