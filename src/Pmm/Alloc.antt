-- ===== src/Pmm/Alloc.antt =====
-- `kalloc` hands out the first page that is not taken, and marks that page only.
use risc_v_os.Base.{
  ℕ, zero, suc, ◌+◌, ◌/◌, ◌%◌, ◌≤◌, ◌<◌, ◌≡◌, ◌≢◌, ◌⊎◌, refl, ap, none, some, arith, ◌==◌,
  ℕ_discrete, if◌then◌else◌, Bool-cases, Option-cases, inl, inr,
}
use risc_v_os.Base.Outcome.{done, panic}
use risc_v_os.Base.Family.{update}
use risc_v_os.Base.Bits.{bit-set_bit, bit-clear_bit, set_bit-lt, clear_bit-lt}
use risc_v_os.Locks.{Cpu, initlock}
use risc_v_os.Locks.Intr.{IsValid, settled}
use risc_v_os.Locks.Spin.{acquire_lock-free, release_lock-held}
use risc_v_os.Process.Wakeup.{SameCpu, SameCpu-settled}
use risc_v_os.Pmm.{Bitmap, is_set, mark, unmark, Pmm, first_clear, num_pages, page_address, kalloc}

-- Only the low byte of a word is in use.
abbrev pub IsBytes : Bitmap → Type 0
IsBytes bitmap = (k : ℕ) → bitmap k < 256

pub is_set-mark :
    (bitmap : Bitmap) (i j : ℕ)
    → IsBytes bitmap
    → is_set (mark bitmap i) j ≡ (if i == j then 1 else is_set bitmap j)
unfolding mark update
is_set-mark bitmap i j v = ground (arith, bit-set_bit (bitmap (i / 8)) (i % 8) (j % 8) (v (i / 8)))

pub is_set-unmark :
    (bitmap : Bitmap) (i j : ℕ)
    → IsBytes bitmap
    → is_set (unmark bitmap i) j ≡ (if i == j then 0 else is_set bitmap j)
unfolding unmark update
is_set-unmark bitmap i j v =
    ground (arith, bit-clear_bit (bitmap (i / 8)) (i % 8) (j % 8) (v (i / 8)))

pub mark-IsBytes : (bitmap : Bitmap) (i : ℕ) → IsBytes bitmap → IsBytes (mark bitmap i)
unfolding mark update
mark-IsBytes bitmap i v k = ground (arith, v k, set_bit-lt (bitmap (i / 8)) (i % 8) (v (i / 8)))

pub unmark-IsBytes : (bitmap : Bitmap) (i : ℕ) → IsBytes bitmap → IsBytes (unmark bitmap i)
unfolding unmark update
unmark-IsBytes bitmap i v k = ground (arith, v k, clear_bit-lt (bitmap (i / 8)) (i % 8) (v (i / 8)))

-- A page found is in range and clear, and all pages before it are taken.
pub first_clear-some :
    (left i : ℕ) (bitmap : Bitmap) {r : ℕ}
    → first_clear left i bitmap ≡ some r
    → (i ≤ r)
      × (r < i + left)
      × (is_set bitmap r ≡ 0)
      × ((j : ℕ) → i ≤ j → j < r → is_set bitmap j ≢ 0)
unfolding first_clear
first_clear-some zero i bitmap e = cc
first_clear-some (suc left) i bitmap {r} e = elim (Bool-cases (is_set bitmap i == 0)) [
  | inl clear ↦
      let here : i ≡ r = ground arith in
      (omega arith, omega arith, ground arith, λ j lo hi. absurd (omega arith))
  | inr taken ↦
      let (lo, hi, free, before) = first_clear-some left (i + 1) bitmap {r = r} (ground arith) in
      (
        omega arith,
        omega arith,
        free,
        λ j low high. elim (ℕ_discrete i j) [
          | yes same ↦ ground arith
          | no other ↦ before j (omega arith) high
        ],
      )
]

-- None is found only if all are taken.
pub first_clear-none :
    (left i : ℕ) (bitmap : Bitmap)
    → first_clear left i bitmap ≡ none
    → (j : ℕ) → i ≤ j
    → j < i + left
    → is_set bitmap j ≢ 0
unfolding first_clear
first_clear-none zero i bitmap e j lo hi = absurd (omega arith)
first_clear-none (suc left) i bitmap e j lo hi = elim (ℕ_discrete i j) [
  | yes same ↦ ground arith
  | no other ↦ first_clear-none left (i + 1) bitmap (ground arith) j (omega arith) (omega arith)
]

-- What a call of `kalloc` did: it returns the address of page `i`.
pub record Allocated (mem_end : ℕ) (m : Pmm) (c : Cpu) (i : ℕ) (out : ℕ × Pmm × Cpu) : Type 0 where
  pub in_range : i < num_pages mem_end
  pub was_free : is_set m.bitmap i ≡ 0
  pub lowest : (j : ℕ) → j < i → is_set m.bitmap j ≢ 0
  pub address : out.0 ≡ page_address mem_end i
  pub taken : (j : ℕ) → is_set out.1.bitmap j ≡ (if i == j then 1 else is_set m.bitmap j)
  pub bytes : IsBytes out.1.bitmap
  pub free : out.1.lock ≡ initlock
  pub same : SameCpu c out.2

module _ (mem_end hart : ℕ) (m : Pmm) (c : Cpu) (v : IsValid c) (free : m.lock ≡ initlock) where
  -- With the lock free `kalloc` either returns the first page that is not taken, in range, marks
  -- exactly that page and changes no other bit, and leaves the lock free and the interrupt state as
  -- it was; or every page in range is taken, and it panics.
  pub kalloc_lem :
      IsBytes m.bitmap
      → ((i : ℕ) × (out : ℕ × Pmm × Cpu) × (kalloc mem_end hart m c ≡ done out)
          × Allocated mem_end m c i out)
        ⊎ ((kalloc mem_end hart m c ≡ panic)
            × ((j : ℕ) → j < num_pages mem_end → is_set m.bitmap j ≢ 0))
  unfolding kalloc
  kalloc_lem b = elim (Option-cases (first_clear (num_pages mem_end) 0 m.bitmap)) [
    | inl full ↦ inr (
      rw (
        acquire_lock-free hart m.lock c v (ap (λ l. l.locked) free),
        full,
        release_lock-held hart c v,
      ),
      λ j h. first_clear-none (num_pages mem_end) 0 m.bitmap full j (omega arith) (omega arith),
    )
    | inr (i, found) ↦
        let (lo, hi, clear, before) = first_clear-some (num_pages mem_end) 0 m.bitmap found in
        inl (
          i,
          (page_address mem_end i, record { lock = initlock; bitmap = mark m.bitmap i }, settled c),
          rw (
            acquire_lock-free hart m.lock c v (ap (λ l. l.locked) free),
            found,
            release_lock-held hart c v,
          ),
          record {
            in_range = omega arith;
            was_free = clear;
            lowest = λ j h. before j (omega arith) h;
            address = refl;
            taken = λ j. is_set-mark m.bitmap i j b;
            bytes = mark-IsBytes m.bitmap i b;
            free = refl;
            same = SameCpu-settled c v;
          },
        )
  ]
