-- ===== src/Pipe/Close.antt =====
-- Closing an end of a pipe, and writing to a pipe whose read end is closed.
use risc_v_os.Base.{
  ℕ, zero, suc, ◌+◌, ◌≡◌, refl, ap, true, Option, List, [], ◌∷◌, Bool-cases, Option-cases, inl, inr,
}
use risc_v_os.Base.Outcome.{done, panic}
use risc_v_os.Locks.{initlock, lock_intr_disable, holds}
use risc_v_os.Locks.Intr.{settled, settled-IsValid, lock_intr_disable-IsValid}
use risc_v_os.Locks.Intr
use risc_v_os.Locks.Spin.{acquire_lock-free, release_lock-panic}
use risc_v_os.Process.{sleep}
use risc_v_os.Process.Wakeup.{get_process_struct_lem, OthersFree, woken_from-OthersFree}
use risc_v_os.Process.Sleep.{opened}
use risc_v_os.Pipe.{
  State, Event, put, is_full, is_cut, release, block, wake, read_channel, write_channel,
  finish_write, Round, failed, stored, full, write_round, write_loop, pipewrite,
}
use risc_v_os.Pipe.Critical.{
  Ready, entered, entered-Inside, acquire_lem, release_lem, wake_lem, after_wake,
}
use risc_v_os.Pipe.Write.{with_byte}

-- The lock has been released once already.
record Released (s : State) : Type 0 where
  free : s.lock ≡ initlock
  valid : Intr.IsValid s.cpu
  own : s.proc.lock ≡ initlock
  others : OthersFree s.self 0 s.procs

-- The state that a round hands on has lost the lock, and its caller is still cut off.
abbrev Lost : Round → Type 0
Lost (full t) = Released t
Lost (failed t) = Released t
Lost (stored t) = Released t × (is_cut t ≡ true)

module _ (hart : ℕ) where
  release-panic : (s : State) → Released s → release hart s ≡ panic
  unfolding release
  release-panic s r = rw (release_lock-panic hart s.lock s.cpu r.valid (ap (holds hart) r.free))

  block-panic :
      (channel : ℕ) (others : Event) (s : State) → Released s → block hart channel others s ≡ panic
  unfolding block sleep
  block-panic channel others s r = rw (
    get_process_struct_lem s.cpu r.valid,
    acquire_lock-free hart s.proc.lock (settled s.cpu) (settled-IsValid s.cpu r.valid)
        (ap (λ l. l.locked) r.own),
    release_lock-panic hart s.lock (lock_intr_disable (settled s.cpu))
        (lock_intr_disable-IsValid (settled s.cpu)) (ap (holds hart) r.free),
  )

  Released-wake :
      (channel : ℕ) (s : State)
      → Released s
      → (t : State) × (wake hart channel s ≡ done t) × Released t
  Released-wake channel s r =
      let (d, e, same) = wake_lem hart channel s r.valid r.others in
      (
        after_wake channel s d,
        e,
        record {
          free = r.free;
          valid = same.valid;
          own = r.own;
          others = woken_from-OthersFree s.self channel 0 s.procs r.others;
        },
      )

module _ (hart pi : ℕ) (fetch : ℕ → Option ℕ) (addr : ℕ) where
  finish-panic : (i : ℕ) (s : State) → Released s → finish_write hart pi i s ≡ panic
  unfolding finish_write
  finish-panic i s r =
      let (t, e, t_r) = Released-wake hart (read_channel pi) s r in
      rw (e, release-panic hart t t_r) refl

  -- Once the lock is lost, every way on panics: a further round, a sleep, and the end of the call.
  lost :
      (events : List Event) (left i : ℕ) (s : State)
      → Released s
      → is_cut s ≡ true
      → write_loop hart pi fetch addr events left i s ≡ panic
  unfolding write_loop write_round
  lost events zero i s r cut = finish-panic i s r
  lost [] (suc left) i s r cut = rw (cut, release-panic hart s r)
  lost (others ∷ events) (suc left) i s r cut = rw (cut, release-panic hart s r)

  -- What a round hands on after the release, by the cases of the ring and of the fetch.
  cut_round :
      (i : ℕ) (s t : State)
      → is_cut s ≡ true
      → release hart s ≡ done t
      → Released t
      → is_cut t ≡ true
      → (r : Round) × (write_round hart pi fetch addr i s ≡ done r) × Lost r
  unfolding write_round put
  cut_round i s t cut e r cut' = elim (Bool-cases (is_full t.pipe)) [
    | inl stuck ↦ (full t, rw (cut, e, stuck), r)
    | inr room ↦ elim (Option-cases (fetch (addr + i))) [
      | inl stop ↦ (failed t, rw (cut, e, room, stop), r)
      | inr (ch, got) ↦ (
        stored (with_byte t ch),
        rw (cut, e, room, got),
        (record { free = r.free; valid = r.valid; own = r.own; others = r.others }, cut'),
      )
    ]
  ]

  -- The rest of the loop after such a round.
  after_round :
      (events : List Event) (left i : ℕ) (s : State) (r : Round)
      → write_round hart pi fetch addr i s ≡ done r
      → Lost r
      → write_loop hart pi fetch addr events (suc left) i s ≡ panic
  unfolding write_loop
  after_round [] left i s (full t) e l =
      let (u, w, lost_too) = Released-wake hart (read_channel pi) t l in
      rw (e, w, block-panic hart (write_channel pi) (λ x. x) u lost_too) refl
  after_round [] left i s (failed t) e l = rw (e, finish-panic i t l)
  after_round [] left i s (stored t) e (l, cut) = rw (e, lost [] left (i + 1) t l cut)
  after_round (others ∷ events) left i s (full t) e l =
      let (u, w, lost_too) = Released-wake hart (read_channel pi) t l in
      rw (e, w, block-panic hart (write_channel pi) others u lost_too) refl
  after_round (others ∷ events) left i s (failed t) e l = rw (e, finish-panic i t l)
  after_round (others ∷ events) left i s (stored t) e (l, cut) =
      rw (e, lost (others ∷ events) left (i + 1) t l cut)

  -- A caller outside every critical section, with the pipe's lock, its own process lock and those of
  -- the other processes free, that writes at least one byte and is killed or finds the read end
  -- closed, panics the kernel: `pipewrite` releases the lock in the loop, does not return, and
  -- releases it again. So whatever the pipe holds and whether or not its bytes can be fetched; what
  -- others would do during a sleep is never reached.
  pub pipewrite-panic :
      (events : List Event) (n : ℕ) (s : State)
      → Ready s
      → s.proc.lock ≡ initlock
      → is_cut s ≡ true
      → pipewrite hart pi fetch events (suc n) addr s ≡ panic
  unfolding pipewrite
  pipewrite-panic events n s ready own cut =
      let inside = entered-Inside hart s ready in
      let t : State = record (entered s hart) { lock = initlock; cpu = opened inside.one } in
      let (r, e, l) =
        cut_round 0 (entered s hart) t cut (release_lem hart (entered s hart) inside)
          (record {
            free = refl;
            valid = record { masked = λ h. elim h [ ] };
            own = own;
            others = ready.others;
          })
          cut in
      rw (acquire_lem hart s ready) (after_round events n 0 (entered s hart) r e l)
