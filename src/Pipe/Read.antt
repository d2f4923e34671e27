-- ===== src/Pipe/Read.antt =====
-- `piperead`: what it takes from the queue.
use risc_v_os.Base.{
  ℕ, zero, suc, ◌+◌, ◌<◌, ◌≡◌, refl, sym, ap, ◌∙◌, Bool, true, false, ◌&&◌, Option, none, some,
  List, [], ◌∷◌, arith, Option-cases, inl, inr, ◌⊎◌, dec_lt,
}
use risc_v_os.Base.Outcome.{done, asleep, in_turn, ◌>>=◌}
use risc_v_os.Locks.{initlock}
use risc_v_os.Locks.Spin.{held_by}
use risc_v_os.Process.{Process, running}
use risc_v_os.Process.Wakeup.{woken_from}
use risc_v_os.Process.Sleep.{opened, sleep_lem}
use risc_v_os.Pipe.{
  block, read_channel, Pipe, State, Event, get, is_empty, wake, write_channel, await, read_loop,
  release, piperead,
}
use risc_v_os.Pipe.Ring.{
  IsValid, window, count, contents, contents-get, get-IsValid, not-empty, empty,
}
use risc_v_os.Pipe.Critical.{
  Ready, Inside, entered, entered-Inside, acquire_lem, release_lem, wake-release,
}

module _ {M : Type 0} (store : ℕ → ℕ → M → Option M) (addr : ℕ) where
  -- The memory and the queue that a reader leaves: bytes are taken from the front and stored until
  -- `n` are out, none is left, or one cannot be stored (that one is lost).
  unfoldable pub deliver : ℕ → ℕ → M → List ℕ → ℕ × M × List ℕ
  deliver zero i mem q = (i, mem, q)
  deliver (suc left) i mem [] = (i, mem, [])
  deliver (suc left) i mem (ch ∷ q) = elim (store (addr + i) ch mem) [
    | none ↦ (i, mem, q)
    | some mem' ↦ deliver left (i + 1) mem' q
  ]

  abbrev view : ℕ × M × Pipe → ℕ × M × List ℕ
  view (i, mem, p) = (i, mem, contents p)

  deliver-nil : (left i : ℕ) (mem : M) → deliver left i mem [] ≡ (i, mem, [])
  unfolding deliver
  deliver-nil zero i mem = refl
  deliver-nil (suc left) i mem = refl

  deliver_lost :
      (left i : ℕ) (mem : M) (ch : ℕ) (q : List ℕ)
      → store (addr + i) ch mem ≡ none
      → deliver (suc left) i mem (ch ∷ q) ≡ (i, mem, q)
  unfolding deliver
  deliver_lost left i mem ch q stop = rw (deliver, stop)

  deliver_stored :
      (left i : ℕ) (mem mem' : M) (ch : ℕ) (q : List ℕ)
      → store (addr + i) ch mem ≡ some mem'
      → deliver (suc left) i mem (ch ∷ q) ≡ deliver left (i + 1) mem' q
  unfolding deliver
  deliver_stored left i mem mem' ch q ok = rw (deliver, ok)

  nil : (p : Pipe) → count p ≡ 0 → contents p ≡ []
  nil p h = ap (window p.bytes p.num_read) h

  abbrev rest : ℕ × M × Pipe → Pipe
  rest (i, mem, p) = p

  -- The loop on the ring is `deliver` on the queue, and keeps the ring valid.
  read_loop_lem :
      (left i : ℕ) (mem : M) (p : Pipe)
      → IsValid p
      → (view (read_loop store addr left i mem p) ≡ deliver left i mem (contents p))
        × IsValid (rest (read_loop store addr left i mem p))
  unfolding read_loop deliver
  read_loop_lem zero i mem p v = (refl, v)
  read_loop_lem (suc left) i mem p v = elim (dec_lt 0 (count p)) [
    | no e ↦
        let none_left = nil p (omega arith) in
        rw (empty p v (omega arith), read_loop)
          (ap (λ q. (i, mem, q)) none_left ∙ sym (ap (deliver (suc left) i mem) none_left), v)
    | yes h ↦ elim (Option-cases (store (addr + i) (get p).0 mem)) [
      | inl stop ↦
          rw (read_loop, not-empty p v h, stop)
            (
              sym (
                  ap (deliver (suc left) i mem) (contents-get p v h)
                  ∙ deliver_lost left i mem (get p).0 (contents (get p).1) stop),
              get-IsValid p v h,
            )
      | inr (mem', ok) ↦
          let (same, keep) = read_loop_lem left (i + 1) mem' (get p).1 (get-IsValid p v h) in
          rw (read_loop, not-empty p v h, ok)
            (
              same
                  ∙ sym (
                      ap (deliver (suc left) i mem) (contents-get p v h)
                      ∙ deliver_stored left i mem mem' (get p).0 (contents (get p).1) ok),
              keep,
            )
    ]
  ]

-- Nothing to wait for: bytes are there, or no writer is left.
abbrev pub HasData : Pipe → Type 0
HasData p = (0 < count p) ⊎ (p.write_open ≡ false)

no_wait : (p : Pipe) → IsValid p → HasData p → (is_empty p && p.write_open) ≡ false
no_wait p v (inl h) = rw (not-empty p v h)
no_wait p v (inr h) = rw h (and_false (is_empty p))
  where
    and_false : (b : Bool) → (b && false) ≡ false
    and_false true = refl
    and_false false = refl

await_lem :
    (hart pi : ℕ) (events : List Event) (s : State)
    → (is_empty s.pipe && s.pipe.write_open) ≡ false
    → await hart pi events s ≡ done (some tt, s)
unfolding await
await_lem hart pi [] s h = rw (await, h)
await_lem hart pi (e ∷ events) s h = rw (await, h)

and_true : (a b : Bool) → a ≡ true → b ≡ true → (a && b) ≡ true
and_true a b e o = rw (e, o)

module _ (hart pi : ℕ) (s : State) (inside : Inside hart s) where
  await-killed :
      (events : List Event)
      → (is_empty s.pipe && s.pipe.write_open) ≡ true
      → s.proc.killed ≡ true
      → await hart pi events s ≡ done (none, record s { lock = initlock; cpu = opened inside.one })
  unfolding await
  await-killed [] w k = rw (await, w) (simp (k, release_lem hart s inside))
  await-killed (e ∷ events) w k = rw (await, w) (simp (k, release_lem hart s inside))

  blocked :
      s.proc.lock ≡ initlock
      → block hart (read_channel pi) (λ e. e) s
        ≡ done (record s {
          lock = held_by hart;
          proc = record (s.proc) { lock = initlock; state = running; sleep_channel = 0 };
        })
  unfolding block
  blocked own = rw (
    inside.held,
    sleep_lem {S = Pipe × List Process} hart (read_channel pi) (λ e. e) (s.pipe, s.procs)
        (s.pipe, s.procs) s.proc.killed s.proc inside.one own refl,
  )

  await-asleep :
      s.proc.lock ≡ initlock
      → (is_empty s.pipe && s.pipe.write_open) ≡ true
      → s.proc.killed ≡ false
      → await hart pi [] s ≡ asleep
  unfolding await
  await-asleep own w k = rw (await, w, k, blocked own)

-- How a read ends.
pub record DidRead {M : Type 0} (out : ℕ × M × List ℕ) (procs' : List Process)
    (r : Option ℕ × M × State) : Type 0 where
  pub returned : r.0 ≡ some out.0
  pub memory : r.1 ≡ out.1
  pub queue : contents r.2.pipe ≡ out.2
  pub valid : IsValid r.2.pipe
  pub free : r.2.lock ≡ initlock
  pub procs : r.2.procs ≡ procs'

module _ {M : Type 0} (hart pi : ℕ) (store : ℕ → ℕ → M → Option M) (addr : ℕ) where
  -- A caller outside every critical section, with the pipe's lock and the locks of the other
  -- processes free, and data in the pipe or no writer left: `piperead` returns without waiting or
  -- panicking. It takes bytes from the front of the queue in order and stores them, up to `n`, the
  -- end of the queue or the first that cannot be stored, which is lost, returns the number stored,
  -- makes runnable exactly the other processes that sleep on the writers' channel, and leaves the
  -- lock free.
  pub piperead_lem :
      (events : List Event) (n : ℕ) (mem : M) (s : State)
      → Ready s
      → IsValid s.pipe
      → HasData s.pipe
      → (r : Option ℕ × M × State) × (piperead hart pi store events n addr mem s ≡ done r)
        × DidRead
            (deliver store addr n 0 mem (contents s.pipe))
            (woken_from s.self (write_channel pi) 0 s.procs)
            r
  unfolding piperead
  piperead_lem events n mem s ready v data_in =
      let inside = entered-Inside hart s ready in
      let (i, mem', p) = read_loop store addr n 0 mem s.pipe in
      let (same, keep) = read_loop_lem store addr n 0 mem s.pipe v in
      let last : State = record (entered s hart) { pipe = p } in
      let (d, e, out) =
        wake-release hart (write_channel pi) last
          (record { held = refl; one = inside.one; others = ready.others }) in
      (
        (
          some i,
          mem',
          record last {
            lock = initlock;
            procs = woken_from s.self (write_channel pi) 0 s.procs;
            cpu = d;
          },
        ),
        rw
            (
              acquire_lem hart s ready,
              await_lem hart pi events (entered s hart) (no_wait s.pipe v data_in),
            )
            (in_turn (wake hart (write_channel pi) last) (release hart)
                (λ s. done (some i, mem', s))
              ∙ ap (λ m. m >>= λ s. done (some i, mem', s)) e),
        record {
          returned = ap (λ o. some o.0) same;
          memory = ap (λ o. o.1) same;
          queue = ap (λ o. o.2) same;
          valid = keep;
          free = refl;
          procs = refl;
        },
      )

  -- On an empty pipe with a writer left, a killed caller gets -1 with the lock free, the pipe and
  -- the memory untouched, and a caller that is not killed sleeps until an event comes.
  pub piperead-empty :
      (events : List Event) (n : ℕ) (mem : M) (s : State)
      → Ready s
      → is_empty s.pipe ≡ true
      → s.pipe.write_open ≡ true
      → s.proc.lock ≡ initlock
      → (s.proc.killed ≡ true
          → (t : State) × (piperead hart pi store events n addr mem s ≡ done (none, mem, t))
            × (t.pipe ≡ s.pipe)
            × (t.lock ≡ initlock))
        × (s.proc.killed ≡ false → piperead hart pi store [] n addr mem s ≡ asleep)
  unfolding piperead
  piperead-empty events n mem s ready e o own =
      let inside = entered-Inside hart s ready in
      let waits = and_true (is_empty s.pipe) s.pipe.write_open e o in
      (
        λ k. (
          record (entered s hart) { lock = initlock; cpu = opened inside.one },
          rw (
            acquire_lem hart s ready,
            await-killed hart pi (entered s hart) inside events waits k,
          ),
          refl,
          refl,
        ),
        λ k.
            rw (acquire_lem hart s ready, await-asleep hart pi (entered s hart) inside own waits k),
      )
