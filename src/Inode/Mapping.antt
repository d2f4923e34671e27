-- ===== src/Inode/Mapping.antt =====
-- `buffer_map` on a file whose indirect block is held: what it finds and what it allocates.
use risc_v_os.Base.{
  ℕ, ◌+◌, ◌-◌, ◌≤◌, ◌<◌, ◌≡◌, ◌≢◌, ◌⊎◌, inl, inr, refl, sym, ap, subst, ◌∙◌, true, false, arith,
  ◌==◌, ltb, if◌then◌else◌, dec_lt, Bool-cases, ℕ_discrete,
}
use risc_v_os.Base.Outcome.{Outcome, done, panic, >>=-eq-done, ◌>>=◌}
use risc_v_os.Base.Family.{update}
use risc_v_os.Bitmap.Alloc.{low_bit}
use risc_v_os.Inode.{State, ndirect, nindirect, log_block, alloc_block}
use risc_v_os.Inode.Storage.{map_direct, map_entry, buffer_map, put_address}
use risc_v_os.Inode.Fresh.{row, Fresh, alloc_block_lem, log_block-same}
use risc_v_os.Inode.Addresses.{
  indirect, address, address_in, IsHeld, Mapped, Mapped-present, Mapped-direct, Mapped-indirect,
  put-word, fresh-address, fresh-entries, fresh-IsGuarded, fresh-low_bit,
}

module _ (i : ℕ) (s t : State) (a : ℕ) (h : IsHeld i s) where
  -- The two ways in which `map_direct` returns.
  map_direct-cases :
      (k : ℕ)
      → map_direct i k s ≡ done (a, t)
      → (((s.table i).copy.addresses k ≡ a) × (a ≢ 0) × (s ≡ t))
        ⊎ (((s.table i).copy.addresses k ≡ 0)
            × (u : State) × Fresh s a u
            × (put_address i k a u ≡ t))
  unfolding map_direct
  map_direct-cases k ran = elim (Bool-cases ((s.table i).copy.addresses k == 0)) [
    | inl z ↦
        let fresh : (alloc_block s >>= λ p. done (p.0, put_address i k p.0 p.1)) ≡ done (a, t) =
          rw z refl ∙ ran in
        let (p, e, f) =
          >>=-eq-done (alloc_block s) (λ p. done (p.0, put_address i k p.0 p.1)) fresh in
        let here : p.0 ≡ a = cc in
        inr (
          ground arith,
          p.1,
          subst (λ x. Fresh s x p.1) here (alloc_block_lem s p.1 p.0 h.guarded e),
          subst (λ x. put_address i k x p.1 ≡ t) here cc,
        )
    | inr nz ↦
        let there : done ((s.table i).copy.addresses k, s) ≡ done (a, t) = rw nz refl ∙ ran in
        let e : (s.table i).copy.addresses k ≡ a = cc in
        inl (e, λ az. let zero_there = e ∙ az in ground arith, cc)
  ]

  map_entry-cases :
      (d m : ℕ)
      → map_entry d m s ≡ done (a, t)
      → ((s.words d m ≡ a) × (a ≢ 0) × (s ≡ t))
        ⊎ ((s.words d m ≡ 0)
            × (u : State) × Fresh s a u
            × (log_block d (record u { words = update u.words d (update (u.words d) m a) })
                ≡ done t))
  unfolding map_entry
  map_entry-cases d m ran = elim (Bool-cases (s.words d m == 0)) [
    | inl z ↦
        let then_log : ℕ × State → Outcome (ℕ × State) = λ p.
          log_block d (record (p.1) { words = update p.1.words d (update (p.1.words d) m p.0) })
          >>= λ v. done (p.0, v) in
        let fresh : (alloc_block s >>= then_log) ≡ done (a, t) = rw z refl ∙ ran in
        let (p, e, f) = >>=-eq-done (alloc_block s) then_log fresh in
        let (v, logged, r) =
          >>=-eq-done
            (log_block d (record (p.1) { words = update p.1.words d (update (p.1.words d) m p.0) }))
            (λ v. done (p.0, v)) f in
        let here : p.0 ≡ a = cc in
        let last : v ≡ t = cc in
        inr (
          ground arith,
          p.1,
          subst (λ x. Fresh s x p.1) here (alloc_block_lem s p.1 p.0 h.guarded e),
          subst
              (λ x.
                log_block d (record (p.1) { words = update p.1.words d (update (p.1.words d) m x) })
                ≡ done t)
              here (logged ∙ ap done last),
        )
    | inr nz ↦
        let there : done (s.words d m, s) ≡ done (a, t) = rw nz refl ∙ ran in
        let e : s.words d m ≡ a = cc in inl (e, λ az. let zero_there = e ∙ az in ground arith, cc)
  ]

  map_direct-Mapped : (n : ℕ) → n < ndirect → map_direct i n s ≡ done (a, t) → Mapped i n s a t
  map_direct-Mapped n direct ran = elim (map_direct-cases n ran) [
    | inl (e, some_block, same) ↦
        let small : ltb n ndirect ≡ true = ground arith in
        subst (Mapped i n s a) same (Mapped-present i s h n a (rw small e) some_block)
    | inr (z, u, f, same) ↦ subst (Mapped i n s a) same (Mapped-direct i s h u a f n direct)
  ]

  -- The indirect block, there or new: no address of the file changes.
  map_direct-indirect :
      map_direct i ndirect s ≡ done (a, t)
      → IsHeld i t × (indirect i t ≡ a) × (a ≢ 0) × ((k : ℕ) → address i k t ≡ address i k s)
  map_direct-indirect ran = elim (map_direct-cases ndirect ran) [
    | inl (e, some_block, same) ↦
        subst
          (λ x.
            IsHeld i x × (indirect i x ≡ a) × (a ≢ 0) × ((k : ℕ) → address i k x ≡ address i k s))
          same (h, e, some_block, λ k. refl)
    | inr (z, u, f, same) ↦
        let (held, at, addresses) = Mapped-indirect i s h u a f z in
        subst
          (λ x.
            IsHeld i x × (indirect i x ≡ a) × (a ≢ 0) × ((k : ℕ) → address i k x ≡ address i k s))
          same (held, at, f.some_block, addresses)
  ]

  map_entry-Mapped :
      (m : ℕ)
      → indirect i s ≢ 0
      → map_entry (indirect i s) m s ≡ done (a, t)
      → Mapped i (ndirect + m) s a t
  map_entry-Mapped m some_block ran = elim (map_entry-cases (indirect i s) m ran) [
    | inl (e, nz, same) ↦
        let large : ltb (ndirect + m) ndirect ≡ false = ground arith in
        let present : (indirect i s == 0) ≡ false = ground arith in
        let index : ndirect + m - ndirect ≡ m = omega arith in
        subst (Mapped i (ndirect + m) s a) same
          (Mapped-present i s h (ndirect + m) a (rw (large, present, index) e) nz)
    | inr (z, u, f, logged) ↦
        let d : ℕ = indirect i s in
        let words = update u.words d (update (u.words d) m a) in
        let (l, same) = log_block-same d (record u { words = words }) t logged in
        let entries = fresh-entries i s h u a f in
        let g = fresh-IsGuarded i s h u a f in
        let held : d ≢ 0 → low_bit (row u.blocks) d ≢ 0 =
          λ ne. fresh-low_bit i s h u a f d (inl (h.held ne)) in
        subst (Mapped i (ndirect + m) s a) same (record {
          held = record {
            guarded = record {
              some_block = g.some_block;
              one_bitmap = g.one_bitmap;
              bytes = g.bytes;
              zero_held = g.zero_held;
              bitmap_held = g.bitmap_held;
            };
            held =
                subst (λ e. e ≢ 0 → low_bit (row u.blocks) e ≢ 0)
                  (sym (ap (λ x. x ndirect) entries)) held;
          };
          some_block = f.some_block;
          at = λ k.
              ap (λ x. address_in x words k) entries
              ∙ (put-word (s.table i).copy.addresses u.words m a k some_block
                  ∙ ap (λ x. if ndirect + m == k then a else x)
                      (ap (λ x. address_in x u.words k) (sym entries)
                        ∙ fresh-address i s u a h f k));
        })
  ]

-- The file has an address at each index below `ndirect + nindirect`, or can get one.
abbrev pub maxfile : ℕ
maxfile = ndirect + nindirect

-- Past the last block of a file `buffer_map` panics.
pub buffer_map-past : (i n : ℕ) (s : State) → maxfile ≤ n → buffer_map i n s ≡ panic
unfolding buffer_map
buffer_map-past i n s far =
    let direct : ltb n ndirect ≡ false = ground arith in
    let entry : ltb (n - ndirect) nindirect ≡ false = ground arith in rw (direct, entry) refl

direct-present :
    (i k : ℕ) (s : State)
    → (s.table i).copy.addresses k ≢ 0
    → map_direct i k s ≡ done ((s.table i).copy.addresses k, s)
unfolding map_direct
direct-present i k s nz =
    let test : ((s.table i).copy.addresses k == 0) ≡ false = ground arith in rw test refl

entry-present : (d m : ℕ) (s : State) → s.words d m ≢ 0 → map_entry d m s ≡ done (s.words d m, s)
unfolding map_entry
entry-present d m s nz = let test : (s.words d m == 0) ≡ false = ground arith in rw test refl

pub present :
    (i n : ℕ) (s : State)
    → n < maxfile
    → address i n s ≢ 0
    → buffer_map i n s ≡ done (address i n s, s)
unfolding buffer_map
present i n s small nz = elim (Bool-cases (ltb n ndirect)) [
  | inl direct ↦
      let some_block : (s.table i).copy.addresses n ≢ 0 = λ e. nz (rw direct e) in
      rw direct (direct-present i n s some_block)
  | inr far ↦
      let entry : ltb (n - ndirect) nindirect ≡ true = ground arith in
      elim (Bool-cases (indirect i s == 0)) [
        | inl z ↦ absurd (nz (rw (far, z) refl))
        | inr there ↦
            let some_block : indirect i s ≢ 0 = ground arith in
            let word : s.words (indirect i s) (n - ndirect) ≢ 0 = λ e. nz (rw (far, there) e) in
            rw (far, entry, direct-present i ndirect s some_block, there) (entry-present _ _ s word)
      ]
]

mapped :
    (i n : ℕ) (s : State)
    → IsHeld i s
    → (a : ℕ) (t : State) → buffer_map i n s ≡ done (a, t)
    → Mapped i n s a t
unfolding buffer_map
mapped i n s h a t ran = elim (Bool-cases (ltb n ndirect)) [
  | inl direct ↦
      let there : map_direct i n s ≡ done (a, t) = rw direct refl ∙ ran in
      map_direct-Mapped i s t a h n (ground arith) there
  | inr far ↦ elim (Bool-cases (ltb (n - ndirect) nindirect)) [
    | inl entry ↦
        let rest : ℕ × State → Outcome (ℕ × State) = λ p. map_entry p.0 (n - ndirect) p.1 in
        let there : (map_direct i ndirect s >>= rest) ≡ done (a, t) = rw (far, entry) refl ∙ ran in
        let (p, e, f) = >>=-eq-done (map_direct i ndirect s) rest there in
        let (held, at, some_block, kept) = map_direct-indirect i s p.1 p.0 h e in
        let nonzero : indirect i p.1 ≢ 0 = λ z. some_block (sym at ∙ z) in
        let m =
          map_entry-Mapped i p.1 t a held (n - ndirect) nonzero
            (subst (λ d. map_entry d (n - ndirect) p.1 ≡ done (a, t)) (sym at) f) in
        let index : ndirect + (n - ndirect) ≡ n = ground arith in
        record {
          held = m.held;
          some_block = m.some_block;
          at = λ k.
              m.at k
              ∙ (ap (λ j. if j == k then a else address i k p.1) index
                  ∙ ap (λ x. if n == k then a else x) (kept k));
        }
    | inr out ↦ let stop : panic ≡ done (a, t) = rw (far, out) refl ∙ ran in cc
  ]
]

-- With the bitmap guarded and the indirect block held: whenever `buffer_map` returns, the block has
-- the address that it returned, which is not 0, every other block of the file has the address it
-- had, and what was assumed holds again; and either the block had no address before, or this was
-- its address and nothing has changed.
pub buffer_map_lem :
    (i n : ℕ) (s : State)
    → IsHeld i s
    → (a : ℕ) (t : State) → buffer_map i n s ≡ done (a, t)
    → Mapped i n s a t × ((address i n s ≡ 0) ⊎ ((a ≡ address i n s) × (s ≡ t)))
buffer_map_lem i n s h a t ran = (
  mapped i n s h a t ran,
  elim (ℕ_discrete (address i n s) 0) [
    | yes none_there ↦ inl none_there
    | no some_there ↦ elim (dec_lt n maxfile) [
      | yes small ↦ let there = present i n s small some_there in inr (cc, cc)
      | no large ↦ let stop = buffer_map-past i n s (omega arith) in cc
    ]
  ],
)
