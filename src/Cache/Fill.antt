-- ===== src/Cache/Fill.antt =====
-- Locking a buffer and filling it from the disk, the second half of `buffer_read`.
use risc_v_os.Base.{
  ℕ, ◌≡◌, ◌≢◌, inl, inr, refl, sym, ap, ◌∙◌, true, false, [], ==-self, if◌then◌else◌, Bool-cases,
}
use risc_v_os.Base.Outcome.{done}
use risc_v_os.Base.Family.{update, update_self, update_ne}
use risc_v_os.Cache.{State, Buffer, put_buffer, acquire_sleeplock, is_holding_sleeplock}

-- From `t` to `t'` process `pid` has locked buffer `i` and filled it; nothing else has changed.
pub record Loaded (pid i : ℕ) (t t' : State) : Type 0 where
  pub links : t'.links ≡ t.links
  pub disk : t'.disk ≡ t.disk
  pub others : (j : ℕ) → j ≢ i → t'.buffer j ≡ t.buffer j
  pub dev : (t'.buffer i).dev ≡ (t.buffer i).dev
  pub blockno : (t'.buffer i).blockno ≡ (t.buffer i).blockno
  pub refcount : (t'.buffer i).refcount ≡ (t.buffer i).refcount
  pub filled : (t'.buffer i).valid ≡ true
  pub bytes : (t'.buffer i).bytes ≡ t.disk (t.buffer i).blockno
  pub held : is_holding_sleeplock pid (t'.buffer i).lock ≡ true

module _ (pid i : ℕ) (t : State) where
  pub locked : State
  locked =
      put_buffer i (record (t.buffer i) { lock = record { locked = true; process_id = pid } }) t

  unfoldable pub filled : State → State
  filled u =
      if (u.buffer i).valid
      then u
      else put_buffer i (record (u.buffer i) { bytes = u.disk (u.buffer i).blockno; valid = true })
          u

  pub acquired : (t.buffer i).lock.locked ≡ false → acquire_sleeplock pid [] i t ≡ done locked
  unfolding acquire_sleeplock locked
  acquired free = rw free refl

  locked_self :
      locked.buffer i ≡ record (t.buffer i) { lock = record { locked = true; process_id = pid } }
  unfolding locked
  locked_self = update_self t.buffer i _

  filled-Loaded :
      (u : State)
      → u.links ≡ t.links
      → u.disk ≡ t.disk
      → ((j : ℕ) → j ≢ i → u.buffer j ≡ t.buffer j)
      → u.buffer i ≡ record (t.buffer i) { lock = record { locked = true; process_id = pid } }
      → ((t.buffer i).valid ≡ true → (t.buffer i).bytes ≡ t.disk (t.buffer i).blockno)
      → Loaded pid i t (filled u)
  unfolding filled
  filled-Loaded u l d o self clean = elim (Bool-cases (u.buffer i).valid) [
    | inl w ↦ rw w (record {
      links = l;
      disk = d;
      others = o;
      dev = ap (λ (b : Buffer). b.dev) self;
      blockno = ap (λ (b : Buffer). b.blockno) self;
      refcount = ap (λ (b : Buffer). b.refcount) self;
      filled = w;
      bytes =
          ap (λ (b : Buffer). b.bytes) self ∙ clean (sym (ap (λ (b : Buffer). b.valid) self) ∙ w);
      held = ap (λ (b : Buffer). is_holding_sleeplock pid b.lock) self ∙ ==-self pid;
    })
    | inr w ↦
        let fresh = record (u.buffer i) { bytes = u.disk (u.buffer i).blockno; valid = true } in
        let at : update u.buffer i fresh i ≡ fresh = update_self u.buffer i fresh in
        rw w (record {
          links = l;
          disk = d;
          others = λ j ne. update_ne u.buffer i j fresh (λ e. ne (sym e)) ∙ o j ne;
          dev = ap (λ (b : Buffer). b.dev) at ∙ ap (λ (b : Buffer). b.dev) self;
          blockno = ap (λ (b : Buffer). b.blockno) at ∙ ap (λ (b : Buffer). b.blockno) self;
          refcount = ap (λ (b : Buffer). b.refcount) at ∙ ap (λ (b : Buffer). b.refcount) self;
          filled = ap (λ (b : Buffer). b.valid) at;
          bytes =
              ap (λ (b : Buffer). b.bytes) at
              ∙ ap (λ d. d (u.buffer i).blockno) d
              ∙ ap (λ (b : Buffer). t.disk b.blockno) self;
          held =
              ap (λ (b : Buffer). is_holding_sleeplock pid b.lock) at
              ∙ ap (λ (b : Buffer). is_holding_sleeplock pid b.lock) self
              ∙ ==-self pid;
        })
  ]

  pub locked-Loaded :
      ((t.buffer i).valid ≡ true → (t.buffer i).bytes ≡ t.disk (t.buffer i).blockno)
      → Loaded pid i t (filled locked)
  unfolding locked
  locked-Loaded clean =
      filled-Loaded locked refl refl (λ j ne. update_ne t.buffer i j _ (λ e. ne (sym e)))
        locked_self clean
