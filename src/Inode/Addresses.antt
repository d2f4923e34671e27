-- ===== src/Inode/Addresses.antt =====
-- `buffer_map`: the addresses of the blocks of a file, in its inode and in its indirect block.
use risc_v_os.Base.{
  ℕ, ◌+◌, ◌-◌, ◌<◌, ◌≡◌, ◌≢◌, ◌⊎◌, inl, inr, refl, sym, ap, subst, ◌∙◌, true, false, arith, ◌==◌,
  ltb, if◌then◌else◌, Bool-cases, ℕ_discrete,
}
use risc_v_os.Base.Family.{update, update_self, update_ne}
use risc_v_os.Bitmap.Alloc.{low_bit}
use risc_v_os.Inode.{State, ndirect}
use risc_v_os.Inode.Storage.{put_address}
use risc_v_os.Inode.Fresh.{row, IsGuarded, Fresh}

abbrev pub indirect : ℕ → State → ℕ
indirect i s = (s.table i).copy.addresses ndirect

-- The address of block `k` of the file in slot `i`, 0 for none.
abbrev pub address_in : (ℕ → ℕ) → (ℕ → ℕ → ℕ) → ℕ → ℕ
address_in entries words k =
    if ltb k ndirect
    then entries k
    else if entries ndirect == 0
    then 0
    else words (entries ndirect) (k - ndirect)

abbrev pub address : ℕ → ℕ → State → ℕ
address i k s = address_in (s.table i).copy.addresses s.words k

-- The bitmap is guarded, and the indirect block of the file is not free.
pub record IsHeld (i : ℕ) (s : State) : Type 0 where
  pub guarded : IsGuarded s.blocks
  pub held : indirect i s ≢ 0 → low_bit (row s.blocks) (indirect i s) ≢ 0

module _ (i : ℕ) (s t : State) (a : ℕ) (h : IsHeld i s) (f : Fresh s a t) where
  pub fresh-apart : indirect i s ≢ 0 → a ≢ indirect i s
  fresh-apart some_block e = h.held some_block (subst (λ k. low_bit (row s.blocks) k ≡ 0) e f.free)

  pub fresh-address : (k : ℕ) → address i k t ≡ address i k s
  fresh-address k =
      subst (λ x. address i k x ≡ address i k s) f.after
        (elim (ℕ_discrete (indirect i s) 0) [
          | yes e ↦ let test : (indirect i s == 0) ≡ true = ground arith in rw test refl
          | no ne ↦ rw (update_ne s.words a (indirect i s) (λ k. 0) (fresh-apart ne)) refl
        ])

  pub fresh-table : (t.table ≡ s.table) × (t.words ≡ update s.words a (λ k. 0))
  fresh-table =
      subst (λ x. (x.table ≡ s.table) × (x.words ≡ update s.words a (λ k. 0))) f.after (refl, refl)

  fresh-blocks : f.block ≡ t.blocks
  fresh-blocks = ap (λ x. x.blocks) f.after

put_address-at :
    (i k a : ℕ) (s : State)
    → ((put_address i k a s).table i).copy.addresses ≡ update (s.table i).copy.addresses k a
put_address-at i k a s = ap (λ x. x.copy.addresses) (update_self s.table i _)

module _ (entries : ℕ → ℕ) (words : ℕ → ℕ → ℕ) where
  put-entry :
      (n a k : ℕ)
      → n < ndirect
      → address_in (update entries n a) words k ≡ (if n == k then a else address_in entries words k)
  put-entry n a k direct = elim (Bool-cases (ltb k ndirect)) [
    | inl small ↦ elim (ℕ_discrete n k) [
      | yes e ↦
          let test : (n == k) ≡ true = ground arith in
          rw (small, test) (ap (update entries n a) (sym e) ∙ update_self entries n a)
      | no ne ↦
          let test : (n == k) ≡ false = ground arith in
          rw (small, test) (update_ne entries n k a ne)
    ]
    | inr large ↦
        let test : (n == k) ≡ false = ground arith in
        let apart : n ≢ ndirect = omega arith in
        rw (large, test, update_ne entries n ndirect a apart) refl
  ]

  put-indirect :
      (a k : ℕ)
      → entries ndirect ≡ 0
      → words a ≡ (λ j. 0)
      → address_in (update entries ndirect a) words k ≡ address_in entries words k
  put-indirect a k empty blank = elim (Bool-cases (ltb k ndirect)) [
    | inl small ↦
        let apart : ndirect ≢ k = ground arith in rw small (update_ne entries ndirect k a apart)
    | inr large ↦
        rw (large, update_self entries ndirect a, empty, blank)
          (elim (Bool-cases (a == 0)) [ inl z ↦ rw z refl | inr nz ↦ rw nz refl ])
  ]

  pub put-word :
      (m b k : ℕ)
      → entries ndirect ≢ 0
      → address_in entries (update words (entries ndirect) (update (words (entries ndirect)) m b)) k
        ≡ (if ndirect + m == k then b else address_in entries words k)
  put-word m b k some_block = elim (Bool-cases (ltb k ndirect)) [
    | inl small ↦ let test : (ndirect + m == k) ≡ false = ground arith in rw (small, test) refl
    | inr large ↦
        let present : (entries ndirect == 0) ≡ false = ground arith in
        let at = update_self words (entries ndirect) (update (words (entries ndirect)) m b) in
        elim (ℕ_discrete m (k - ndirect)) [
          | yes e ↦
              let test : (ndirect + m == k) ≡ true = ground arith in
              rw (large, present, test, at)
                (ap (update (words (entries ndirect)) m b) (sym e)
                  ∙ update_self (words (entries ndirect)) m b)
          | no ne ↦
              let test : (ndirect + m == k) ≡ false = ground arith in
              rw (large, present, test, at)
                (update_ne (words (entries ndirect)) m (k - ndirect) b ne)
        ]
  ]

-- What a call that finds or allocates block `n` of the file leaves: all other addresses stand.
pub record Mapped (i n : ℕ) (s : State) (a : ℕ) (t : State) : Type 0 where
  pub held : IsHeld i t
  pub some_block : a ≢ 0
  pub at : (k : ℕ) → address i k t ≡ (if n == k then a else address i k s)

module _ (i : ℕ) (s : State) (h : IsHeld i s) where
  -- An address that is there already.
  pub Mapped-present : (n a : ℕ) → address i n s ≡ a → a ≢ 0 → Mapped i n s a s
  Mapped-present n a e some_block = record {
    held = h;
    some_block = some_block;
    at = λ k. elim (ℕ_discrete n k) [
      | yes same ↦
          let test : (n == k) ≡ true = ground arith in
          rw test (ap (λ j. address i j s) (sym same) ∙ e)
      | no other ↦ let test : (n == k) ≡ false = ground arith in rw test refl
    ];
  }

  module _ (u : State) (a : ℕ) (f : Fresh s a u) where
    pub fresh-IsGuarded : IsGuarded u.blocks
    fresh-IsGuarded = subst IsGuarded (fresh-blocks i s u a h f) f.guarded

    pub fresh-low_bit :
        (k : ℕ) → (low_bit (row s.blocks) k ≢ 0) ⊎ (k ≡ a) → low_bit (row u.blocks) k ≢ 0
    fresh-low_bit k (inl held) =
        subst (λ b. low_bit (row b) k ≢ 0) (fresh-blocks i s u a h f) (f.others k held)
    fresh-low_bit k (inr e) =
        subst (λ j. low_bit (row u.blocks) j ≢ 0) (sym e)
          (subst (λ b. low_bit (row b) a ≢ 0) (fresh-blocks i s u a h f) f.taken)

    pub fresh-entries : (u.table i).copy.addresses ≡ (s.table i).copy.addresses
    fresh-entries = ap (λ x. (x i).copy.addresses) ((fresh-table i s u a h f).0)

    pub Mapped-direct : (n : ℕ) → n < ndirect → Mapped i n s a (put_address i n a u)
    Mapped-direct n direct =
        let entries = put_address-at i n a u in
        let apart : n ≢ ndirect = omega arith in
        let same_indirect : indirect i s ≡ indirect i (put_address i n a u) =
          ap (λ x. x ndirect) (sym fresh-entries)
          ∙ sym (ap (λ x. x ndirect) entries ∙ update_ne _ n ndirect a apart) in
        record {
          held = record {
            guarded = fresh-IsGuarded;
            held =
                subst (λ d. d ≢ 0 → low_bit (row u.blocks) d ≢ 0) same_indirect
                  (λ ne. fresh-low_bit _ (inl (h.held ne)));
          };
          some_block = f.some_block;
          at = λ k.
              ap (λ x. address_in x u.words k) entries
              ∙ (put-entry (u.table i).copy.addresses u.words n a k direct
                  ∙ ap (λ x. if n == k then a else x) (fresh-address i s u a h f k));
        }

    -- A new indirect block: it is held, and all its entries are 0.
    pub Mapped-indirect :
        indirect i s ≡ 0
        → IsHeld i (put_address i ndirect a u)
          × (indirect i (put_address i ndirect a u) ≡ a)
          × ((k : ℕ) → address i k (put_address i ndirect a u) ≡ address i k s)
    Mapped-indirect empty =
        let entries = put_address-at i ndirect a u in
        let at_a : indirect i (put_address i ndirect a u) ≡ a =
          ap (λ x. x ndirect) entries ∙ update_self _ ndirect a in
        (
          record { guarded = fresh-IsGuarded; held = λ ne. fresh-low_bit _ (inr at_a) },
          at_a,
          λ k.
              ap (λ x. address_in x u.words k) entries
              ∙ (put-indirect (u.table i).copy.addresses u.words a k
                    (ap (λ x. x ndirect) fresh-entries ∙ empty)
                    (ap (λ x. x a) ((fresh-table i s u a h f).1) ∙ update_self s.words a (λ j. 0))
                  ∙ fresh-address i s u a h f k),
        )
