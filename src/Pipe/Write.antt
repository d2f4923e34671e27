-- ===== src/Pipe/Write.antt =====
-- `pipewrite`: what it appends, and when it panics.
use risc_v_os.Base.{
  ℕ, zero, suc, ◌+◌, ◌≤◌, ◌<◌, ◌≡◌, refl, ap, ◌∙◌, false, Option, none, some, List, [], ◌∷◌, ◌++◌,
  arith, Option-cases, inl, inr,
}
use risc_v_os.Base.Outcome.{done, in_turn, ◌>>=◌}
use risc_v_os.Locks.{initlock}
use risc_v_os.Process.Wakeup.{woken_from, woken_from-OthersFree}
use risc_v_os.Pipe.{
  State, Event, pipesize, put, is_cut, release, wake, read_channel, finish_write, failed, stored,
  write_round, write_loop, pipewrite,
}
use risc_v_os.Pipe.Ring.{IsValid, count, contents, contents-put, put-IsValid, count-put, not-full}
use risc_v_os.Pipe.Critical.{Ready, Inside, entered, entered-Inside, acquire_lem, wake-release}

abbrev pub with_byte : State → ℕ → State
with_byte s ch = record s { pipe = put s.pipe ch }

-- The queue that a writer leaves: bytes are fetched and appended until `n` are in or one cannot be
-- fetched.
unfoldable pub append_fetched : (ℕ → Option ℕ) → ℕ → ℕ → ℕ → List ℕ → ℕ × List ℕ
append_fetched fetch addr zero i q = (i, q)
append_fetched fetch addr (suc left) i q = elim (fetch (addr + i)) [
  | none ↦ (i, q)
  | some ch ↦ append_fetched fetch addr left (i + 1) (q ++ (ch ∷ []))
]

-- How a write ends.
pub record Wrote (pi : ℕ) (before : State) (out : ℕ × List ℕ) (r : ℕ × State) : Type 0 where
  pub returned : r.0 ≡ out.0
  pub queue : contents r.1.pipe ≡ out.1
  pub valid : IsValid r.1.pipe
  pub ready : Ready r.1
  pub read_open : r.1.pipe.read_open ≡ before.pipe.read_open
  pub write_open : r.1.pipe.write_open ≡ before.pipe.write_open
  pub procs : r.1.procs ≡ woken_from before.self (read_channel pi) 0 before.procs

module _ (hart pi : ℕ) (fetch : ℕ → Option ℕ) (addr : ℕ) where
  finish :
      (i : ℕ) (s : State)
      → Inside hart s
      → IsValid s.pipe
      → (r : ℕ × State) × (finish_write hart pi i s ≡ done r) × Wrote pi s (i, contents s.pipe) r
  unfolding finish_write
  finish i s inside v =
      let (d, e, out) = wake-release hart (read_channel pi) s inside in
      (
        (
          i,
          record s {
            lock = initlock;
            procs = woken_from s.self (read_channel pi) 0 s.procs;
            cpu = d;
          },
        ),
        in_turn (wake hart (read_channel pi) s) (release hart) (λ s. done (i, s))
            ∙ ap (λ m. m >>= λ s. done (i, s)) e,
        record {
          returned = refl;
          queue = refl;
          valid = v;
          ready = record {
            free = refl;
            depth = out;
            others = woken_from-OthersFree s.self (read_channel pi) 0 s.procs inside.others;
          };
          read_open = refl;
          write_open = refl;
          procs = refl;
        },
      )

  cut_put : (s : State) (ch : ℕ) → is_cut (with_byte s ch) ≡ is_cut s
  unfolding put
  cut_put s ch = refl

  Inside-put : (s : State) (ch : ℕ) → Inside hart s → Inside hart (with_byte s ch)
  Inside-put s ch inside = record { held = inside.held; one = inside.one; others = inside.others }

  round_failed :
      (i : ℕ) (s : State)
      → IsValid s.pipe
      → is_cut s ≡ false
      → count s.pipe < pipesize
      → fetch (addr + i) ≡ none
      → write_round hart pi fetch addr i s ≡ done (failed s)
  unfolding write_round
  round_failed i s v k room stop = rw (k, not-full s.pipe v room, stop)

  round_stored :
      (i : ℕ) (s : State) (ch : ℕ)
      → IsValid s.pipe
      → is_cut s ≡ false
      → count s.pipe < pipesize
      → fetch (addr + i) ≡ some ch
      → write_round hart pi fetch addr i s ≡ done (stored (with_byte s ch))
  unfolding write_round
  round_stored i s ch v k room got = rw (k, not-full s.pipe v room, got)

  -- A round of the loop that stores a byte, before the rest of the loop.
  Wrote-put :
      (s : State) (ch left i : ℕ) (r : ℕ × State)
      → IsValid s.pipe
      → count s.pipe < pipesize
      → Wrote pi (with_byte s ch) (append_fetched fetch addr left i (contents (put s.pipe ch))) r
      → Wrote pi s (append_fetched fetch addr left i (contents s.pipe ++ (ch ∷ []))) r
  unfolding put
  Wrote-put s ch left i r v room w =
      let same = contents-put s.pipe ch v room in
      record {
        returned = w.returned ∙ ap (λ q. (append_fetched fetch addr left i q).0) same;
        queue = w.queue ∙ ap (λ q. (append_fetched fetch addr left i q).1) same;
        valid = w.valid;
        ready = w.ready;
        read_open = w.read_open;
        write_open = w.write_open;
        procs = w.procs;
      }

  write_loop_lem :
      (events : List Event) (left i : ℕ) (s : State)
      → Inside hart s
      → IsValid s.pipe
      → is_cut s ≡ false
      → count s.pipe + left ≤ pipesize
      → (r : ℕ × State) × (write_loop hart pi fetch addr events left i s ≡ done r)
        × Wrote pi s (append_fetched fetch addr left i (contents s.pipe)) r
  unfolding write_loop append_fetched
  write_loop_lem events zero i s inside v k room = finish i s inside v
  write_loop_lem [] (suc left) i s inside v k room = elim (Option-cases (fetch (addr + i))) [
    | inl stop ↦
        rw (round_failed i s v k (omega arith) stop, stop, append_fetched) (finish i s inside v)
    | inr (ch, got) ↦
        let (r, e, w) =
          write_loop_lem [] left (i + 1) (with_byte s ch) (Inside-put s ch inside)
            (put-IsValid s.pipe ch v (omega arith)) (cut_put s ch ∙ k)
            (omega (arith, count-put s.pipe ch v)) in
        rw (round_stored i s ch v k (omega arith) got, got, append_fetched)
          (r, e, Wrote-put s ch left (i + 1) r v (omega arith) w)
  ]
  write_loop_lem (others ∷ events) (suc left) i s inside v k room =
      elim (Option-cases (fetch (addr + i))) [
        | inl stop ↦
            rw (round_failed i s v k (omega arith) stop, stop, append_fetched) (finish i s inside v)
        | inr (ch, got) ↦
            let (r, e, w) =
              write_loop_lem (others ∷ events) left (i + 1) (with_byte s ch)
                (Inside-put s ch inside) (put-IsValid s.pipe ch v (omega arith)) (cut_put s ch ∙ k)
                (omega (arith, count-put s.pipe ch v)) in
            rw (round_stored i s ch v k (omega arith) got, got, append_fetched)
              (r, e, Wrote-put s ch left (i + 1) r v (omega arith) w)
      ]

  -- A caller outside every critical section, not killed, with the pipe's lock and the locks of the
  -- other processes free, the read end open and room for `n` bytes: `pipewrite` returns without
  -- waiting or panicking. It appends to the queue the bytes that it can fetch, in order, up to `n` or
  -- the first that it cannot fetch, returns their number, makes runnable exactly the other processes
  -- that sleep on the readers' channel, and leaves the lock free and both ends as they were, whatever
  -- the two counters are.
  pub pipewrite_lem :
      (events : List Event) (n : ℕ) (s : State)
      → Ready s
      → IsValid s.pipe
      → is_cut s ≡ false
      → count s.pipe + n ≤ pipesize
      → (r : ℕ × State) × (pipewrite hart pi fetch events n addr s ≡ done r)
        × Wrote pi s (append_fetched fetch addr n 0 (contents s.pipe)) r
  unfolding pipewrite
  pipewrite_lem events n s ready v k room =
      let (r, e, w) =
        write_loop_lem events n 0 (entered s hart) (entered-Inside hart s ready) v k room in
      (
        r,
        rw (acquire_lem hart s ready) e,
        record {
          returned = w.returned;
          queue = w.queue;
          valid = w.valid;
          ready = w.ready;
          read_open = w.read_open;
          write_open = w.write_open;
          procs = w.procs;
        },
      )
