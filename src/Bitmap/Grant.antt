-- ===== src/Bitmap/Grant.antt =====
-- `grant`: what it leaves of the blocks, and when it panics.
use risc_v_os.Base.{
  ℕ, ◌+◌, ◌-◌, ◌/◌, ◌%◌, ◌≤◌, ◌<◌, ◌≡◌, ◌⊎◌, inl, inr, refl, sym, subst, ◌∙◌, arith, Bool-cases,
  leb, ltb, ◌||◌, ◌==◌,
}
use risc_v_os.Base.Bits.{set_bit}
use risc_v_os.Base.Outcome.{done, panic, >>=-eq-done, ◌>>=◌}
use risc_v_os.Base.Family.{update}
use risc_v_os.Log as LogLayer
use risc_v_os.Log.{log_write, logsize, find_entry}
use risc_v_os.Bitmap.{Bytes, State, buffer_zero, grant, logged_write, put_bytes}

pub logged_write-same :
    (n : ℕ) (b c : State)
    → logged_write n b ≡ done c
    → (l : LogLayer.State) × (record b { log = l } ≡ c)
unfolding logged_write
logged_write-same n b c h =
    let (l, _, e) = >>=-eq-done (log_write n b.log) (λ l. done (record b { log = l })) h in (l, cc)

-- The bytes of the blocks with block `j` marked in the bitmap, block `n`.
abbrev pub marked : ℕ → ℕ → State → ℕ → Bytes
marked n j b = update b.bytes n (update (b.bytes n) (j / 8) (set_bit (b.bytes n (j / 8)) 0))

grant-at :
    (j a : ℕ) (b c : State)
    → grant 0 j b ≡ done (a, c)
    → (0 + j ≡ a)
      × (l : LogLayer.State) × (record b {
        bytes = update (marked (0 + b.bitmap_start) j b) (0 + j) (λ k. 0);
        log = l;
      }
          ≡ c)
unfolding grant buffer_zero
grant-at j a b c h =
    let n : ℕ = 0 + b.bitmap_start in
    let start : State =
      put_bytes n (update (b.bytes n) (j / 8) (set_bit (b.bytes n (j / 8)) 0)) b in
    let (b1, e1, f1) =
      >>=-eq-done (logged_write n start) (λ x. buffer_zero (0 + j) x >>= λ y. done (0 + j, y)) h in
    let (b2, e2, f2) =
      >>=-eq-done (logged_write (0 + j) (put_bytes (0 + j) (λ k. 0) b1)) (λ y. done (0 + j, y))
        f1 in
    let (l1, g1) = logged_write-same n start b1 e1 in
    let (l2, g2) = logged_write-same (0 + j) (put_bytes (0 + j) (λ k. 0) b1) b2 e2 in
    (cc, l2, subst (λ x. record (put_bytes (0 + j) (λ k. 0) x) { log = l2 } ≡ b2) (sym g1) g2 ∙ cc)

pub grant_lem :
    (j a : ℕ) (b c : State)
    → grant 0 j b ≡ done (a, c)
    → (j ≡ a)
      × (l : LogLayer.State) × (record b {
        bytes = update (marked b.bitmap_start a b) a (λ k. 0);
        log = l;
      }
          ≡ c)
grant_lem j a b c h =
    let (e, l, f) = grant-at j a b c h in
    let at : 0 + b.bitmap_start ≡ b.bitmap_start = omega arith in
    let same : j ≡ a = omega (arith, e) in
    (
      same,
      l,
      subst (λ n. record b { bytes = update (marked n a b) a (λ k. 0); log = l } ≡ c) at
          (subst
            (λ k.
              record b { bytes = update (marked (0 + b.bitmap_start) k b) a (λ k. 0); log = l } ≡ c)
            same
            (subst
              (λ k.
                record b { bytes = update (marked (0 + b.bitmap_start) j b) k (λ k. 0); log = l }
                ≡ c)
              e f)),
    )

-- The log refuses one of two further blocks: two entries do not fit, or no operation is open.
abbrev pub IsTight : LogLayer.Log → Type 0
IsTight log = (logsize ≤ log.count + 1) ⊎ ((log.size ≤ log.count + 2) ⊎ (log.num_syscalls < 1))

-- Log `m` is `l` with at most one entry more.
record IsNext (l m : LogLayer.Log) : Type 0 where
  count : m.count ≤ l.count + 1
  size : m.size ≡ l.size
  num_syscalls : m.num_syscalls ≡ l.num_syscalls

log_write-cases :
    (n : ℕ) (s : LogLayer.State)
    → ((t : LogLayer.State) × (log_write n s ≡ done t) × IsNext s.log t.log)
      ⊎ ((log_write n s ≡ panic)
          × ((logsize ≤ s.log.count) ⊎ ((s.log.size ≤ s.log.count + 1) ⊎ (s.log.num_syscalls < 1))))
unfolding log_write
log_write-cases n s =
    elim (Bool-cases (leb logsize s.log.count || leb (s.log.size - 1) s.log.count)) [
      | inl full ↦ inr (rw full refl, ground arith)
      | inr room ↦ elim (Bool-cases (ltb s.log.num_syscalls 1)) [
        | inl outside ↦ inr (rw (room, outside) refl, inr (inr (ground arith)))
        | inr inside ↦
            let i : ℕ = find_entry n s.log.count 0 s.log in
            let entered = record (s.log) { block = update s.log.block i n } in
            elim (Bool-cases (i == s.log.count)) [
              | inl new ↦ inl (
                record s {
                  log = record entered { count = s.log.count + 1 };
                  pins = update s.pins n ((s.pins n + 1) % LogLayer.u32_mod);
                },
                rw (room, inside, new) refl,
                record { count = omega arith; size = refl; num_syscalls = refl },
              )
              | inr old ↦ inl (
                record s { log = entered },
                rw (room, inside, old) refl,
                record { count = omega arith; size = refl; num_syscalls = refl },
              )
            ]
      ]
    ]

logged_write-done :
    (n : ℕ) (s : State) (l : LogLayer.State)
    → log_write n s.log ≡ done l
    → logged_write n s ≡ done (record s { log = l })
unfolding logged_write
logged_write-done n s l e = rw e refl

logged_write-panic : (n : ℕ) (s : State) → log_write n s.log ≡ panic → logged_write n s ≡ panic
unfolding logged_write
logged_write-panic n s e = rw e refl

-- `grant` returns, or it panics at a log that refuses a block.
pub grant-cases :
    (j : ℕ) (s : State)
    → ((p : ℕ × State) × (grant 0 j s ≡ done p)) ⊎ ((grant 0 j s ≡ panic) × IsTight s.log.log)
unfolding grant buffer_zero
grant-cases j s =
    let n : ℕ = 0 + s.bitmap_start in
    let start : State =
      put_bytes n (update (s.bytes n) (j / 8) (set_bit (s.bytes n (j / 8)) 0)) s in
    elim (log_write-cases n start.log) [
      | inr (e, why) ↦ inr (rw (logged_write-panic n start e) refl, ground arith)
      | inl (l, e, next) ↦
          let mid : State = put_bytes (0 + j) (λ k. 0) (record start { log = l }) in
          elim (log_write-cases (0 + j) l) [
            | inr (f, why) ↦ inr (
              rw (logged_write-done n start l e, logged_write-panic (0 + j) mid f) refl,
              ground (arith, next.count, next.size, next.num_syscalls),
            )
            | inl (m, f, last) ↦ inl (
              (0 + j, record mid { log = m }),
              rw (logged_write-done n start l e, logged_write-done (0 + j) mid m f) refl,
            )
          ]
    ]
