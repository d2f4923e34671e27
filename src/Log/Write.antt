-- ===== src/Log/Write.antt =====
-- `log_write`: an entry for each block that a transaction writes.
use risc_v_os.Base.{
  ℕ, zero, suc, ◌+◌, ◌-◌, ◌%◌, ◌≤◌, ◌<◌, ◌≡◌, ◌≢◌, ◌⊎◌, inl, inr, refl, subst, ==-self, sym, ap,
  ◌∙◌, false, ◌||◌, arith, ◌==◌, ltb, leb, ℕ_discrete, Bool-cases,
}
use risc_v_os.Base.Outcome.{done, panic}
use risc_v_os.Base.Family.{update, update_self, update_ne}
use risc_v_os.Log.{Log, State, logsize, u32_mod, find_entry, log_write}
use risc_v_os.Log.Blocks.{IsValid}

-- The search ends at an entry that names the block, or at the end with none.
find_entry_lem :
    (b left i : ℕ) (log : Log)
    → (i ≤ find_entry b left i log)
      × (find_entry b left i log ≤ i + left)
      × (find_entry b left i log < i + left → log.block (find_entry b left i log) ≡ b)
      × ((j : ℕ) → i ≤ j → j < find_entry b left i log → log.block j ≢ b)
unfolding find_entry
find_entry_lem b zero i log =
    (omega arith, omega arith, λ h. absurd (omega arith), λ j lo hi. absurd (omega arith))
find_entry_lem b (suc left) i log = elim (Bool-cases (log.block i == b)) [
  | inl here ↦
      rw here (omega arith, omega arith, λ h. ground arith, λ j lo hi. absurd (omega arith))
  | inr more ↦
      let (low, high, hit, before) = find_entry_lem b left (i + 1) log in
      rw more (
        omega arith,
        omega arith,
        λ h. hit (omega arith),
        λ j lo hi. elim (ℕ_discrete i j) [
          | yes same ↦ ground arith
          | no other ↦ before j (omega arith) hi
        ],
      )
]

-- There is room for one more entry, inside a transaction.
pub record HasRoom (log : Log) : Type 0 where
  pub below : log.count < logsize
  pub fits : log.count < log.size - 1
  pub inside : 0 < log.num_syscalls

-- What a `log_write` of block `b` has done.
pub record Logged (b : ℕ) (s t : State) : Type 0 where
  pub valid : IsValid t.log
  pub entry : (k : ℕ) × (k < t.log.count) × (t.log.block k ≡ b)
  pub kept : (j : ℕ) → j < s.log.count → t.log.block j ≡ s.log.block j
  pub grows : s.log.count ≤ t.log.count
  pub absorbed : (j : ℕ) → j < s.log.count → s.log.block j ≡ b → t.log.count ≡ s.log.count
  pub appended : ((j : ℕ) → j < s.log.count → s.log.block j ≢ b) → t.log.count ≡ s.log.count + 1
  pub cache : t.cache ≡ s.cache
  pub disk : t.disk ≡ s.disk

room-passes :
    (log : Log)
    → HasRoom log
    → ((leb logsize log.count || leb (log.size - 1) log.count) ≡ false)
      × (ltb log.num_syscalls 1 ≡ false)
room-passes log r = ground arith

module _ (b : ℕ) (s : State) (v : IsValid s.log) where
  -- An entry that names the block already is written again.
  again : (r : ℕ) → State
  again r = record s { log = record (s.log) { block = update s.log.block r b } }

  again-kept : (r j : ℕ) → s.log.block r ≡ b → update s.log.block r b j ≡ s.log.block j
  unfolding update
  again-kept r j hit = ground arith

  again-Logged : (r : ℕ) → r < s.log.count → s.log.block r ≡ b → Logged b s (again r)
  unfolding again
  again-Logged r h hit = record {
    valid = record {
      few = v.few;
      home = λ j lt.
          subst (λ x. (x < s.log.start) ⊎ (s.log.start + logsize < x)) (sym (again-kept r j hit))
            (v.home j lt);
      distinct =
          λ j k hj hk e. v.distinct j k hj hk (sym (again-kept r j hit) ∙ e ∙ again-kept r k hit);
    };
    entry = (r, h, update_self s.log.block r b);
    kept = λ j lt. again-kept r j hit;
    grows = omega arith;
    absorbed = λ j lt e. refl;
    appended = λ fresh. absurd (fresh r h hit);
    cache = refl;
    disk = refl;
  }

  -- A new entry behind the others.
  append : State
  append = record s {
    log = record (s.log) { block = update s.log.block s.log.count b; count = s.log.count + 1 };
    pins = update s.pins b ((s.pins b + 1) % u32_mod);
  }

  append-kept : (j : ℕ) → j < s.log.count → update s.log.block s.log.count b j ≡ s.log.block j
  append-kept j lt = update_ne s.log.block s.log.count j b (omega arith)

  append-home :
      (b < s.log.start) ⊎ (s.log.start + logsize < b)
      → (j : ℕ) → j < s.log.count + 1
      → (update s.log.block s.log.count b j < s.log.start)
        ⊎ (s.log.start + logsize < update s.log.block s.log.count b j)
  append-home out j lt = elim (ℕ_discrete s.log.count j) [
    | yes last ↦
        subst (λ x. (x < s.log.start) ⊎ (s.log.start + logsize < x))
          (sym (update_self s.log.block s.log.count b) ∙ ap (update s.log.block s.log.count b) last)
          out
    | no before ↦
        subst (λ x. (x < s.log.start) ⊎ (s.log.start + logsize < x))
          (sym (append-kept j (omega arith))) (v.home j (omega arith))
  ]

  append-distinct :
      ((j : ℕ) → j < s.log.count → s.log.block j ≢ b)
      → (j k : ℕ) → j < s.log.count + 1
      → k < s.log.count + 1
      → update s.log.block s.log.count b j ≡ update s.log.block s.log.count b k
      → j ≡ k
  unfolding update
  append-distinct fresh j k hj hk e = ground (arith, fresh j, fresh k, v.distinct j k)

  append-Logged :
      s.log.count < logsize
      → (b < s.log.start) ⊎ (s.log.start + logsize < b)
      → ((j : ℕ) → j < s.log.count → s.log.block j ≢ b)
      → Logged b s append
  unfolding append
  append-Logged below out fresh = record {
    valid = record { few = omega arith; home = append-home out; distinct = append-distinct fresh };
    entry = (s.log.count, omega arith, update_self s.log.block s.log.count b);
    kept = append-kept;
    grows = omega arith;
    absorbed = λ j lt e. absurd (fresh j lt e);
    appended = λ f. refl;
    cache = refl;
    disk = refl;
  }

  -- `log_write` of a block outside the log area, with room for an entry and inside a transaction:
  -- it does not panic; the block has an entry afterwards, the entries stay distinct and within the
  -- limit, the earlier ones are kept, a block that had an entry takes no second one, and neither the
  -- cache nor the disk changes.
  pub log_write_lem :
      HasRoom s.log
      → (b < s.log.start) ⊎ (s.log.start + logsize < b)
      → (t : State) × (log_write b s ≡ done t) × Logged b s t
  unfolding log_write again append
  log_write_lem r out =
      let (passes, within) = room-passes s.log r in
      let (low, high, hit, before) = find_entry_lem b s.log.count 0 s.log in
      let i = find_entry b s.log.count 0 s.log in
      elim (ℕ_discrete i s.log.count) [
        | yes none_found ↦ (
          append,
          rw (passes, within, none_found, ==-self s.log.count),
          append-Logged r.below out (λ j lt. before j (omega arith) (omega arith)),
        )
        | no found ↦
            let differ : (i == s.log.count) ≡ false = ground arith in
            (again i, rw (passes, within, differ), again-Logged i (omega arith) (hit (omega arith)))
      ]

-- Outside a transaction, or with the log full, `log_write` panics.
pub log_write-panic :
    (b : ℕ) (s : State)
    → (logsize ≤ s.log.count) ⊎ (s.log.size - 1 ≤ s.log.count) ⊎ (s.log.num_syscalls ≡ 0)
    → log_write b s ≡ panic
unfolding log_write
log_write-panic b s h = ground arith
