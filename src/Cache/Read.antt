-- ===== src/Cache/Read.antt =====
-- `buffer_read`: the caller holds a buffer with the block, and no block has two buffers.
use risc_v_os.Base.{
  ℕ, ◌<◌, ◌≡◌, ◌≢◌, ◌⊎◌, inl, inr, refl, sym, ap, subst, ◌∙◌, true, false, List, [], arith,
  ℕ_discrete,
}
use risc_v_os.Base.Outcome.{done, panic}
use risc_v_os.Base.Family.{update_self, update_ne}
use risc_v_os.Cache.{
  State, Buffer, numbuf, put_buffer, is_block, inc_buf_refcount, recycle, choose,
  is_holding_sleeplock, buffer_get, buffer_read,
}
use risc_v_os.Cache.Chain.{Ring, backwards}
use risc_v_os.Cache.Get.{Member, Unique, IsValid, NotCached, AllBusy, chosen, others_differ}
use risc_v_os.Cache.Fill.{locked, filled, acquired, locked-Loaded}

-- Process `pid` holds the one buffer of the block, filled with the block as it is on the disk.
pub record HasBlock (pid dev blockno : ℕ) (s : State) (xs : List ℕ) (i : ℕ) (t : State)
    : Type 0 where
  pub valid : IsValid t xs
  pub inside : i < numbuf
  pub named : ((t.buffer i).dev ≡ dev) × ((t.buffer i).blockno ≡ blockno)
  pub filled : (t.buffer i).valid ≡ true
  pub bytes : (t.buffer i).bytes ≡ s.disk blockno
  pub held : is_holding_sleeplock pid (t.buffer i).lock ≡ true
  pub counted :
      ((is_block dev blockno (s.buffer i) ≡ true)
        × ((t.buffer i).refcount ≡ (inc_buf_refcount (s.buffer i)).refcount))
      ⊎ (((s.buffer i).refcount ≡ 0) × ((t.buffer i).refcount ≡ 1))
  pub others : (j : ℕ) → j ≢ i → t.buffer j ≡ s.buffer j
  pub disk : t.disk ≡ s.disk

-- One buffer `i` is for the block and the others, unchanged, are not: then no block has two.
Unique-one :
    (dev blockno : ℕ) (old new : ℕ → Buffer) (xs : List ℕ) (i : ℕ)
    → Unique old xs
    → ((j : ℕ) → j ≢ i → new j ≡ old j)
    → ((new i).dev ≡ dev) × ((new i).blockno ≡ blockno)
    → ((j : ℕ) → Member j xs → j ≢ i → is_block dev blockno (old j) ≡ false)
    → Unique new xs
Unique-one dev blockno old new xs i unique same (nd, nb) differ j k mj mk some_dev ed eb =
    elim (ℕ_discrete j i) [
      | yes ji ↦ elim (ℕ_discrete k i) [
        | yes ki ↦ ji ∙ sym ki
        | no kn ↦
            let off = differ k mk kn in
            let ek : (new k).dev ≡ (old k).dev = ap (λ (b : Buffer). b.dev) (same k kn) in
            let fk : (new k).blockno ≡ (old k).blockno =
              ap (λ (b : Buffer). b.blockno) (same k kn) in
            let ej : (new j).dev ≡ dev = ap (λ x. (new x).dev) ji ∙ nd in
            let fj : (new j).blockno ≡ blockno = ap (λ x. (new x).blockno) ji ∙ nb in
            absurd (ground arith)
      ]
      | no jn ↦
          let ej : (new j).dev ≡ (old j).dev = ap (λ (b : Buffer). b.dev) (same j jn) in
          let fj : (new j).blockno ≡ (old j).blockno = ap (λ (b : Buffer). b.blockno) (same j jn) in
          elim (ℕ_discrete k i) [
            | yes ki ↦
                let off = differ j mj jn in
                let ek : (new k).dev ≡ dev = ap (λ x. (new x).dev) ki ∙ nd in
                let fk : (new k).blockno ≡ blockno = ap (λ x. (new x).blockno) ki ∙ nb in
                absurd (ground arith)
            | no kn ↦
                let ek : (new k).dev ≡ (old k).dev = ap (λ (b : Buffer). b.dev) (same k kn) in
                let fk : (new k).blockno ≡ (old k).blockno =
                  ap (λ (b : Buffer). b.blockno) (same k kn) in
                unique j k mj mk (λ e. some_dev (ej ∙ e)) (sym ej ∙ ed ∙ ek) (sym fj ∙ eb ∙ fk)
          ]
    ]

module _ (pid dev blockno : ℕ) (s : State) (xs : List ℕ) (v : IsValid s xs) where
  Read : Type 0
  Read =
      (i : ℕ) × (t : State) × (buffer_read pid [] dev blockno s ≡ done (i, t))
      × HasBlock pid dev blockno s xs i t

  -- The rest of `buffer_read` after the choice of buffer `i`, with contents `b`.
  finish :
      (i : ℕ) (b : Buffer)
      → choose dev blockno s ≡ done (i, put_buffer i b s)
      → i < numbuf
      → (b.dev ≡ dev) × (b.blockno ≡ blockno)
      → b.lock.locked ≡ false
      → (b.valid ≡ true → b.bytes ≡ s.disk blockno)
      → ((j : ℕ) → Member j xs → j ≢ i → is_block dev blockno (s.buffer j) ≡ false)
      → ((is_block dev blockno (s.buffer i) ≡ true)
          × (b.refcount ≡ (inc_buf_refcount (s.buffer i)).refcount))
        ⊎ (((s.buffer i).refcount ≡ 0) × (b.refcount ≡ 1))
      → Read
  unfolding Read buffer_read buffer_get filled
  finish i b e low (nd, nb) free clean differ count =
      let t : State = put_buffer i b s in
      let self : t.buffer i ≡ b = update_self s.buffer i b in
      let l = locked-Loaded pid i t (λ w.
        ap (λ (x : Buffer). x.bytes) self
        ∙ clean (sym (ap (λ (x : Buffer). x.valid) self) ∙ w)
        ∙ ap s.disk (sym (ap (λ (x : Buffer). x.blockno) self ∙ nb))) in
      let done_t = acquired pid i t (ap (λ (x : Buffer). x.lock.locked) self ∙ free) in
      let u : State = filled pid i t (locked pid i t) in
      let named : ((u.buffer i).dev ≡ dev) × ((u.buffer i).blockno ≡ blockno) = (
        l.dev ∙ ap (λ (x : Buffer). x.dev) self ∙ nd,
        l.blockno ∙ ap (λ (x : Buffer). x.blockno) self ∙ nb,
      ) in
      let others : (j : ℕ) → j ≢ i → u.buffer j ≡ s.buffer j =
        λ j ne. l.others j ne ∙ update_ne s.buffer i j b (λ e. ne (sym e)) in
      let counted = l.refcount ∙ ap (λ (x : Buffer). x.refcount) self in
      (
        i,
        u,
        rw (e, done_t) refl,
        record {
          valid = record {
            ring = subst (λ k. Ring k xs) (sym l.links) v.ring;
            nodes = v.nodes;
            distinct = v.distinct;
            few = v.few;
            unique = Unique-one dev blockno s.buffer u.buffer xs i v.unique others named differ;
          };
          inside = low;
          named = named;
          filled = l.filled;
          bytes = l.bytes ∙ ap s.disk (ap (λ (x : Buffer). x.blockno) self ∙ nb);
          held = l.held;
          counted = elim count [
            | inl (hit, r) ↦ inl (hit, counted ∙ r)
            | inr (idle, r) ↦ inr (idle, counted ∙ r)
          ];
          others = others;
          disk = l.disk;
        },
      )

  -- `buffer_read` of a block of a device other than 0, when no process holds the buffer that it would
  -- take and a cached copy agrees with the disk: it panics only when the block is not cached and
  -- every buffer has references; otherwise the process holds a buffer with the block as it is on the
  -- disk, the buffer has one reference more than it had for the block, no other buffer and no disk
  -- block has changed, the list is intact, and no block has two buffers.
  pub buffer_read_lem :
      dev ≢ 0
      → ((i : ℕ)
          → (is_block dev blockno (s.buffer i) ≡ true) ⊎ ((s.buffer i).refcount ≡ 0)
          → (s.buffer i).lock.locked ≡ false)
      → ((i : ℕ)
          → is_block dev blockno (s.buffer i) ≡ true
          → (s.buffer i).valid ≡ true
          → (s.buffer i).bytes ≡ s.disk blockno)
      → ((i : ℕ) × (t : State) × (buffer_read pid [] dev blockno s ≡ done (i, t))
          × HasBlock pid dev blockno s xs i t)
        ⊎ ((buffer_read pid [] dev blockno s ≡ panic)
            × NotCached dev blockno s xs
            × AllBusy s (backwards xs))
  unfolding Read buffer_read buffer_get
  buffer_read_lem some_dev free clean = elim (chosen dev blockno s xs v) [
    | inr (e, missing, busy) ↦ inr (rw e refl, missing, busy)
    | inl (i, t, e, c) ↦
        let differ = others_differ dev blockno s xs v i t some_dev c in
        inl (elim c.source [
          | inl (hit, et) ↦
              finish i (inc_buf_refcount (s.buffer i)) (e ∙ ap (λ u. done (i, u)) et) c.inside
                (ground (arith, hit)) (free i (inl hit)) (clean i hit) differ (inl (hit, refl))
          | inr (missing, idle, et) ↦
              let zero_refs : (s.buffer i).refcount ≡ 0 = ground (arith, idle) in
              finish i (recycle dev blockno (s.buffer i)) (e ∙ ap (λ u. done (i, u)) et) c.inside
                (refl, refl) (free i (inr zero_refs)) (λ w. cc) differ (inr (zero_refs, refl))
        ])
  ]
