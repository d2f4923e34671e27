-- ===== src/Directory/Lookup.antt =====
-- `dir_lookup` against the directory as a sequence of entries.
use risc_v_os.Base.{
  ℕ, zero, suc, ◌+◌, ◌-◌, ◌*◌, ◌/◌, ◌≤◌, ◌<◌, ◌≡◌, ◌≢◌, ◌⊎◌, inl, inr, refl, sym, ap, ap₂, ◌∙◌,
  Bool, true, false, not, Option, none, some, arith, ◌==◌, ltb, ◌&&◌, if◌then◌else◌, dec_lt, min,
  Bool-cases, ℕ_discrete,
}
use risc_v_os.Base.Outcome.{done, panic, ◌>>=◌}
use risc_v_os.Libc.{Memory, strncmp_from, strncmp}
use risc_v_os.PathName.{dirsize}
use risc_v_os.Inode.{State, inode_get}
use risc_v_os.Inode.Storage.{read_inode}
use risc_v_os.Inode.Content.{
  kernel_store, kernel_store-IsExact, size, file_byte, IsWhole, read_inode_lem,
}
use risc_v_os.Directory.{
  dir_type, entry_size, is_zero, bytes_at, entry_inode, is_name, read_entry, lookup_from,
  dir_lookup,
}

strncmp_from-agree :
    (n k : ℕ) (a a' b b' : ℕ → ℕ)
    → ((j : ℕ) → k ≤ j → j < k + n → (a j ≡ a' j) × (b j ≡ b' j))
    → strncmp_from n k a b ≡ strncmp_from n k a' b'
unfolding strncmp_from
strncmp_from-agree zero k a a' b b' same = refl
strncmp_from-agree (suc n) k a a' b b' same =
    let (at_a, at_b) = same k (omega arith) (omega arith) in
    rw
      (
        at_a,
        at_b,
        strncmp_from-agree n (k + 1) a a' b b' (λ j lo hi. same j (omega arith) (omega arith)),
      )
      refl

-- Entry `k` of the directory: its inode number and its name.
abbrev pub number : ℕ → State → ℕ → ℕ
number i s k = file_byte i s (k * entry_size) + 256 * file_byte i s (k * entry_size + 1)

abbrev pub entry_name : ℕ → State → ℕ → ℕ → ℕ
entry_name i s k j = file_byte i s (k * entry_size + (2 + j))

-- The entry is in use and has this name.
abbrev pub has_name : ℕ → State → (ℕ → ℕ) → ℕ → Bool
has_name i s wanted k =
    not (number i s k == 0) && is_zero (strncmp wanted (entry_name i s k) dirsize)

-- A directory without holes, of `entries` entries, and a name that does not overlap the local entry.
pub record IsReadable (de i name : ℕ) (s : State) (entries : ℕ) : Type 0 where
  pub whole : IsWhole i s
  pub counted : size i s ≡ entries * entry_size
  pub apart : (name + dirsize ≤ de) ⊎ (de + entry_size ≤ name)

module _ (de i name : ℕ) (s : State) (entries : ℕ) (r : IsReadable de i name s entries)
    (old : Memory) where
  SameName : Memory → Type 0
  SameName mem = (j : ℕ) → j < dirsize → mem (name + j) ≡ old (name + j)

  Read : ℕ → Memory → Memory → Type 0
  Read k mem mem' =
      (read_entry de i (k * entry_size) mem s ≡ done (mem', s))
      × (entry_inode de mem' ≡ number i s k)
      × (is_name de name mem' ≡ is_zero (strncmp (bytes_at name old) (entry_name i s k) dirsize))
      × SameName mem'

  read_entry_lem :
      (k : ℕ) (mem : Memory) → k < entries → SameName mem → (mem' : Memory) × Read k mem mem'
  unfolding read_entry Read SameName strncmp
  read_entry_lem k mem h same =
      let off : ℕ = k * entry_size in
      let counted = r.counted in
      let bound = r.whole.bound in
      let (mem', ran, d) =
        read_inode_lem kernel_store (λ m. m) i s de off entry_size mem
          (kernel_store-IsExact de (de + entry_size)) r.whole (omega (arith, counted))
          (omega (arith, counted, bound)) in
      let full : min entry_size (size i s - off) ≡ entry_size = ground (arith, counted) in
      let got : read_inode kernel_store i de off entry_size mem s
          ≡ done (some entry_size, mem', s) =
        ran ∙ ap (λ c. done (some c, mem', s)) full in
      let inside : (j : ℕ) → j < 16 → mem' (de + j) ≡ file_byte i s (off + j) =
        λ j b. d.inside j (omega (arith, full)) in
      let start : mem' de ≡ file_byte i s off =
        let z : de + 0 ≡ de = omega arith in
        let zo : off + 0 ≡ off = omega arith in
        ap mem' (sym z) ∙ (inside 0 (omega arith) ∙ ap (file_byte i s) zo) in
      let kept : (j : ℕ) → j < dirsize → mem' (name + j) ≡ old (name + j) = λ j b.
        d.outside (name + j)
          (elim (r.apart) [ inl below ↦ inl (omega arith) | inr above ↦ inr (omega (arith, full)) ])
        ∙ same j b in
      (
        mem',
        (
          rw got refl,
          ap₂ (λ x y. x + 256 * y) start (inside 1 (omega arith)),
          ap is_zero (
              strncmp_from-agree dirsize 0 (bytes_at name mem') (bytes_at name old)
                (bytes_at (de + 2) mem') (entry_name i s k)
                (λ j lo hi.
                  let here : de + 2 + j ≡ de + (2 + j) = omega arith in
                  (kept j (omega arith), ap mem' here ∙ inside (2 + j) (omega arith)))),
          kept,
        ),
      )

  -- The names that the loop has passed from entry `k` on, and where it ended.
  Ended : ℕ → ℕ → Memory → Type 0
  Ended rounds k mem =
      ((j : ℕ) × (k ≤ j)
        × (j < entries)
        × (has_name i s (bytes_at name old) j ≡ true)
        × ((l : ℕ) → k ≤ l → l < j → has_name i s (bytes_at name old) l ≡ false)
        × (mem' : Memory) × (lookup_from de rounds i name (k * entry_size) mem s
            ≡ done (some (j * entry_size, number i s j), mem', s)))
      ⊎ (((l : ℕ) → k ≤ l → l < entries → has_name i s (bytes_at name old) l ≡ false)
          × (mem' : Memory) × (lookup_from de rounds i name (k * entry_size) mem s
              ≡ done (none, mem', s)))

  lookup_from-step :
      (rounds k : ℕ) (mem mem' : Memory)
      → k < entries
      → Read k mem mem'
      → lookup_from de (suc rounds) i name (k * entry_size) mem s ≡ (
          if has_name i s (bytes_at name old) k
          then done (some (k * entry_size, number i s k), mem', s)
          else lookup_from de rounds i name ((k + 1) * entry_size) mem' s)
  unfolding lookup_from Read
  lookup_from-step rounds k mem mem' h (ran, num, named, same) =
      let counted = r.counted in
      let within : ltb (k * entry_size) (size i s) ≡ true = ground (arith, counted) in
      let next : k * entry_size + entry_size ≡ (k + 1) * entry_size = omega arith in
      rw (within, ran, num, named, next) refl

  lookup_from-stop :
      (rounds k : ℕ) (mem : Memory)
      → entries ≤ k
      → lookup_from de (suc rounds) i name (k * entry_size) mem s ≡ done (none, mem, s)
  unfolding lookup_from
  lookup_from-stop rounds k mem h =
      let counted = r.counted in
      let past : ltb (k * entry_size) (size i s) ≡ false = ground (arith, counted) in rw past refl

  lookup_from-Ended :
      (rounds k : ℕ) (mem : Memory) → entries - k < rounds → SameName mem → Ended rounds k mem
  unfolding Ended Read
  lookup_from-Ended zero k mem enough same = absurd (omega arith)
  lookup_from-Ended (suc rounds) k mem enough same = elim (dec_lt k entries) [
    | no past ↦
        inr (λ l lo hi. absurd (omega arith), mem, lookup_from-stop rounds k mem (omega arith))
    | yes h ↦
        let (mem', read) = read_entry_lem k mem h same in
        let step = lookup_from-step rounds k mem mem' h read in
        elim (Bool-cases (has_name i s (bytes_at name old) k)) [
          | inl hit ↦
              inl
                (k, omega arith, h, hit, λ l lo hi. absurd (omega arith), mem', step ∙ rw hit refl)
          | inr miss ↦ elim (lookup_from-Ended rounds (k + 1) mem' (omega arith) (read.3)) [
            | inl (j, lo, hi, hit, before, last, ran) ↦ inl (
              j,
              omega arith,
              hi,
              hit,
              λ l a b. elim (ℕ_discrete k l) [
                | yes e ↦ ap (has_name i s (bytes_at name old)) (sym e) ∙ miss
                | no ne ↦ before l (omega arith) b
              ],
              last,
              step ∙ rw miss ran,
            )
            | inr (none_after, last, ran) ↦ inr (
              λ l a b. elim (ℕ_discrete k l) [
                | yes e ↦ ap (has_name i s (bytes_at name old)) (sym e) ∙ miss
                | no ne ↦ none_after l (omega arith) b
              ],
              last,
              step ∙ rw miss ran,
            )
          ]
        ]
  ]

-- What `dir_lookup` gives: the inode of the first entry in use with this name, from the inode table,
-- and the offset of the entry; or nothing, when no entry has the name.
abbrev pub Result : ℕ → ℕ → ℕ → State → ℕ → Memory → Type 0
Result de i name s entries mem =
    ((j : ℕ) × (j < entries)
      × (has_name i s (bytes_at name mem) j ≡ true)
      × ((l : ℕ) → l < j → has_name i s (bytes_at name mem) l ≡ false)
      × (mem' : Memory) × (dir_lookup de i name mem s ≡ (
          inode_get (s.table i).dev (number i s j) s >>= λ p.
          done (some (p.0, j * entry_size), mem', p.1))))
    ⊎ (((l : ℕ) → l < entries → has_name i s (bytes_at name mem) l ≡ false)
        × (mem' : Memory) × (dir_lookup de i name mem s ≡ done (none, mem', s)))

dir_lookup-run :
    (de i name rounds : ℕ) (mem mem' : Memory) (s : State) (hit : Option (ℕ × ℕ))
    → (s.table i).copy.type ≡ dir_type
    → size i s / entry_size + 1 + 1 ≡ rounds
    → lookup_from de rounds i name 0 mem s ≡ done (hit, mem', s)
    → dir_lookup de i name mem s ≡ (elim hit [
      | none ↦ done (none, mem', s)
      | some p ↦ inode_get (s.table i).dev p.1 s >>= λ q. done (some (q.0, p.0), mem', q.1)
    ])
unfolding dir_lookup
dir_lookup-run de i name rounds mem mem' s hit typed enough ran =
    let test : ((s.table i).copy.type == dir_type) ≡ true = ground arith in
    rw (test, enough, ran) refl

-- At an inode that is no directory `dir_lookup` panics.
pub dir_lookup-panic :
    (de i name : ℕ) (mem : Memory) (s : State)
    → (s.table i).copy.type ≢ dir_type
    → dir_lookup de i name mem s ≡ panic
unfolding dir_lookup
dir_lookup-panic de i name mem s other =
    let test : ((s.table i).copy.type == dir_type) ≡ false = ground arith in rw test refl

-- In a directory without holes whose size is a number of entries, with the local entry apart from
-- the name, `dir_lookup` gives the inode of the first entry that is in use and has the name in its
-- 14 bytes, with the offset of that entry, or it gives nothing and leaves the file system as it was,
-- and then no entry in use has the name.
pub dir_lookup_lem :
    (de i name : ℕ) (s : State) (entries : ℕ) (mem : Memory)
    → (s.table i).copy.type ≡ dir_type
    → IsReadable de i name s entries
    → Result de i name s entries mem
unfolding Ended SameName
dir_lookup_lem de i name s entries mem typed r =
    let counted = r.counted in
    let rounds : size i s / entry_size + 1 + 1 ≡ entries + 2 = omega (arith, counted) in
    elim (lookup_from-Ended de i name s entries r mem (entries + 2) 0 mem (omega arith)
      (λ j h. refl)) [
        | inl (j, lo, hi, hit, before, mem', ran) ↦ inl (
          j,
          hi,
          hit,
          λ l h. before l (omega arith) h,
          mem',
          dir_lookup-run de i name (entries + 2) mem mem' s (some (j * entry_size, number i s j))
              typed rounds ran,
        )
        | inr (missing, mem', ran) ↦ inr (
          λ l h. missing l (omega arith) h,
          mem',
          dir_lookup-run de i name (entries + 2) mem mem' s none typed rounds ran,
        )
      ]
