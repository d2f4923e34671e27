-- ===== src/Locks/Spin.antt =====
-- What `acquire_lock` and `release_lock` promise of one hart.
use risc_v_os.Base.{
  ℕ, ◌+◌, ◌≡◌, ◌≢◌, sym, refl, ap, ◌∙◌, ◌↔◌, true, false, some, List, [], ◌∷◌, arith, ==-self,
  Bool-cases, inl, inr,
}
use risc_v_os.Base.Outcome.{Outcome, done, panic, ◌>>=◌, >>=-eq-done, >>=-done-panic}
use risc_v_os.Locks.{
  Cpu, Spinlock, initlock, lock_intr_disable, lock_intr_enable, holds, is_holding, spin,
  acquire_lock, release_lock,
}
use risc_v_os.Locks.Intr.{
  IsValid, settled, is_holding_lem, lock_intr_disable-IsValid, lock_intr_pair,
}

abbrev pub held_by : ℕ → Spinlock
held_by hart = record { locked = true; cpu = some hart }

nested-settled : (c : Cpu) → settled (lock_intr_disable c) ≡ lock_intr_disable c
unfolding lock_intr_disable
nested-settled c = ground arith

spin_once :
    (lock : Spinlock) → lock.locked ≡ false → spin [] lock ≡ done (record lock { locked = true })
unfolding spin
spin_once lock h = rw h

-- The loop ends with the lock taken, or not at all.
spin-locked :
    (others : List (Spinlock → Spinlock)) (lock : Spinlock) {l : Spinlock}
    → spin others lock ≡ done l
    → l.locked ≡ true
unfolding spin
spin-locked [] lock e = ground arith
spin-locked (f ∷ fs) lock {l} e = ground (arith, spin-locked fs (f lock) {l = l})

spin-ne-panic : (others : List (Spinlock → Spinlock)) (lock : Spinlock) → spin others lock ≢ panic
unfolding spin
spin-ne-panic [] lock e = ground arith
spin-ne-panic (f ∷ fs) lock e = ground (arith, spin-ne-panic fs (f lock))

module _ (hart : ℕ) (lock : Spinlock) (c : Cpu) (v : IsValid c) where
  -- `is_holding` inside the disabled section of `acquire_lock` changes nothing.
  inner : is_holding hart lock (lock_intr_disable c) ≡ done (holds hart lock, lock_intr_disable c)
  inner =
      is_holding_lem hart lock (lock_intr_disable c) (lock_intr_disable-IsValid c)
      ∙ ap (λ d. done (holds hart lock, d)) (nested-settled c)

  -- `acquire_lock` of a lock that this hart holds panics.
  pub acquire_lock-panic :
      (others : List (Spinlock → Spinlock))
      → holds hart lock ≡ true
      → acquire_lock hart others lock c ≡ panic
  unfolding acquire_lock
  acquire_lock-panic others h = rw (inner, h)

  -- Otherwise it returns when the test-and-set loop does, with the lock held by this hart.
  pub acquire_lock-done :
      (others : List (Spinlock → Spinlock)) (l : Spinlock)
      → holds hart lock ≡ false
      → spin others lock ≡ done l
      → acquire_lock hart others lock c ≡ done (record l { cpu = some hart }, lock_intr_disable c)
  unfolding acquire_lock
  acquire_lock-done others l h e = rw (inner, h, e)

  pub acquire_lock-free :
      lock.locked ≡ false → acquire_lock hart [] lock c ≡ done (held_by hart, lock_intr_disable c)
  acquire_lock-free h =
      acquire_lock-done [] (record lock { locked = true }) (rw h) (spin_once lock h)

  -- `release_lock` of a lock that this hart does not hold panics.
  pub release_lock-panic : holds hart lock ≡ false → release_lock hart lock c ≡ panic
  unfolding release_lock
  release_lock-panic h = rw (is_holding_lem hart lock c v, h)

  pub release_lock-done :
      (d : Cpu)
      → holds hart lock ≡ true
      → lock_intr_enable (settled c) ≡ done d
      → release_lock hart lock c ≡ done (initlock, d)
  unfolding release_lock
  release_lock-done d h e = rw (is_holding_lem hart lock c v, h, e)

pub release_lock-held :
    (hart : ℕ) (c : Cpu)
    → IsValid c
    → release_lock hart (held_by hart) (lock_intr_disable c) ≡ done (initlock, settled c)
release_lock-held hart c v =
    release_lock-done hart (held_by hart) (lock_intr_disable c) (lock_intr_disable-IsValid c)
      (settled c) (==-self hart) (ap lock_intr_enable (nested-settled c) ∙ lock_intr_pair c v)

module _ (hart : ℕ) (lock : Spinlock) (c : Cpu) (v : IsValid c) where
  -- The test-and-set loop decides, for a hart that does not hold the lock.
  acquire_lock-cases :
      (others : List (Spinlock → Spinlock))
      → holds hart lock ≡ false
      → acquire_lock hart others lock c
        ≡ (spin others lock >>= λ l. done (record l { cpu = some hart }, lock_intr_disable c))
  unfolding acquire_lock
  acquire_lock-cases others h = rw (inner hart lock c v, h)

  -- `acquire_lock` panics exactly when the hart already holds the lock, and when it returns the
  -- hart holds the lock, is one level deeper and has interrupts off, whatever the other harts did.
  pub acquire_lock_lem :
      (others : List (Spinlock → Spinlock))
      → ((acquire_lock hart others lock c ≡ panic) ↔ (holds hart lock ≡ true))
        × ((l : Spinlock) (d : Cpu)
            → acquire_lock hart others lock c ≡ done (l, d)
            → (l ≡ held_by hart)
              × (d.depth_lock_intr_disable ≡ c.depth_lock_intr_disable + 1)
              × (d.intr ≡ false))
  unfolding lock_intr_disable
  acquire_lock_lem others = elim (Bool-cases (holds hart lock)) [
    | inl own ↦ (
      (λ e. own, λ e. acquire_lock-panic hart lock c v others own),
      λ l d e. absurd (panic≢done (sym (acquire_lock-panic hart lock c v others own) ∙ e)),
    )
    | inr other ↦ (
      (
        λ e. absurd (
            spin-ne-panic others lock
              (>>=-done-panic (spin others lock) _ (sym (acquire_lock-cases others other) ∙ e))),
        λ own. cc,
      ),
      λ l d e.
          taken l d (>>=-eq-done (spin others lock) _ (sym (acquire_lock-cases others other) ∙ e)),
    )
  ]
    where
      panic≢done : {x : Spinlock × Cpu} → panic ≢ done x
      panic≢done e = cc

      taken :
          (l : Spinlock) (d : Cpu)
          → ((k : Spinlock) × (spin others lock ≡ done k)
              × ◌≡◌ {A = Outcome (Spinlock × Cpu)}
                  (done (record k { cpu = some hart }, lock_intr_disable c))
                  (done (l, d)))
          → (l ≡ held_by hart)
            × (d.depth_lock_intr_disable ≡ c.depth_lock_intr_disable + 1)
            × (d.intr ≡ false)
      taken l d (k, e, q) = ground (arith, spin-locked others lock e)

  -- Acquiring a free lock and releasing it again panics nowhere, leaves the lock free, and gives
  -- back the nesting depth and the interrupt state.
  pub acquire_lock-release_lock :
      lock.locked ≡ false
      → (d : Cpu) × ((do (l, c') ← acquire_lock hart [] lock c; release_lock hart l c')
          ≡ done (initlock, d))
        × (d.depth_lock_intr_disable ≡ c.depth_lock_intr_disable)
        × (d.intr ≡ c.intr)
  acquire_lock-release_lock h =
      (settled c, rw (acquire_lock-free hart lock c v h) (release_lock-held hart c v), refl, refl)
