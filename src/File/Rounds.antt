-- ===== src/File/Rounds.antt =====
-- The loop of `write_file` on an inode, against the rounds that it makes.
use risc_v_os.Base.{
  ℕ, zero, suc, ◌+◌, ◌-◌, ◌≤◌, ◌<◌, ◌≡◌, ◌≢◌, inl, inr, refl, sym, ap, subst, ◌∙◌, true, false,
  Option, none, some, List, arith, ◌==◌, ltb, if◌then◌else◌, Bool-cases, dec_lt,
}
use risc_v_os.Base.Outcome.{Outcome, done, panic, asleep, fault, ◌>>=◌}
use risc_v_os.Log as LogLayer
use risc_v_os.File.{State, max_chunk}
use risc_v_os.File.Transfer.{Device, int_count, after_chunk, write_chunk, write_chunks}

module _ {M : Type 0} (hart : ℕ) (devices : ℕ → Device M) (fetch : ℕ → ℕ → Option (ℕ → ℕ))
    (log_events : List (LogLayer.State → LogLayer.State)) (f address n : ℕ) where
  abbrev pub size_of : ℕ → ℕ
  size_of i = if ltb max_chunk (n - i) then max_chunk else n - i

  -- The round with `i` bytes written.
  abbrev pub round : ℕ → State → Outcome (Option ℕ × State)
  round i s = write_chunk hart devices fetch log_events f (address + i) (size_of i) s

  -- Full rounds lead from `i` bytes written and the first state to `j` bytes and the second.
  pub data Rounds : ℕ → State → ℕ → State → Type 0 where
    here : (i : ℕ) (s : State) → Rounds i s i s
    next :
        (i : ℕ) (s t : State) (j : ℕ) (u : State)
        → i < int_count n
        → round i s ≡ done (some (size_of i), t)
        → Rounds (i + size_of i) t j u
        → Rounds i s j u

  abbrev loop : ℕ → ℕ → State → Outcome (ℕ × State)
  loop rounds i s = write_chunks hart devices fetch rounds log_events f address n i s

  -- How the loop ends after its full rounds: with all bytes written, or at a round that is not full,
  -- as that round does.
  pub data Ended (i : ℕ) (s : State) (run : Outcome (ℕ × State)) : Type 0 where
    all : (j : ℕ) (t : State) → Rounds i s j t → int_count n ≤ j → run ≡ done (j, t) → Ended i s run
    broken :
        (j : ℕ) (t : State)
        → Rounds i s j t
        → j < int_count n
        → ((u : State) → round j t ≢ done (some (size_of j), u))
        → run ≡ (round j t >>= λ p. done (j, p.1))
        → Ended i s run

  loop-step :
      (rounds i : ℕ) (s : State)
      → i < int_count n
      → loop (suc rounds) i s ≡ (round i s >>= after_chunk (loop rounds) (size_of i) i)
  unfolding write_chunks
  loop-step rounds i s h = let go : ltb i (int_count n) ≡ true = ground arith in rw go refl

  loop-end : (rounds i : ℕ) (s : State) → int_count n ≤ i → loop (suc rounds) i s ≡ done (i, s)
  unfolding write_chunks
  loop-end rounds i s h = let stop : ltb i (int_count n) ≡ false = ground arith in rw stop refl

  Ended-next :
      (i : ℕ) (s t : State) (run : Outcome (ℕ × State))
      → i < int_count n
      → round i s ≡ done (some (size_of i), t)
      → Ended (i + size_of i) t run
      → Ended i s run
  Ended-next i s t run h e (all j u r past same) = all j u (next i s t j u h e r) past same
  Ended-next i s t run h e (broken j u r less short same) =
      broken j u (next i s t j u h e r) less short same

  -- The rest of the loop after a round that ended in `o`.
  Ended-round :
      (i : ℕ) (s : State) (go : ℕ → State → Outcome (ℕ × State)) (o : Outcome (Option ℕ × State))
      → i < int_count n
      → round i s ≡ o
      → ((t : State) → Ended (i + size_of i) t (go (i + size_of i) t))
      → Ended i s (o >>= after_chunk go (size_of i) i)
  unfolding after_chunk
  Ended-round i s go (done (none, t)) h e more = broken i s (here i s) h (λ u q. cc) (rw e refl)
  Ended-round i s go (done (some count, t)) h e more = elim (Bool-cases (count == size_of i)) [
    | inl full ↦
        let same : count ≡ size_of i = ground arith in
        rw full (
          subst (λ c. Ended i s (go (i + c) t)) (sym same)
            (Ended-next i s t (go (i + size_of i) t) h (e ∙ ap (λ c. done (some c, t)) same)
              (more t)))
    | inr short ↦
        let differs : count ≢ size_of i = ground arith in
        rw short (broken i s (here i s) h (λ u q. differs (cc)) (rw e refl))
  ]
  Ended-round i s go panic h e more = broken i s (here i s) h (λ u q. cc) (rw e refl)
  Ended-round i s go asleep h e more = broken i s (here i s) h (λ u q. cc) (rw e refl)
  Ended-round i s go fault h e more = broken i s (here i s) h (λ u q. cc) (rw e refl)

  loop-Ended : (rounds i : ℕ) (s : State) → int_count n - i < rounds → Ended i s (loop rounds i s)
  loop-Ended zero i s enough = absurd (omega arith)
  loop-Ended (suc rounds) i s enough = elim (dec_lt i (int_count n)) [
    | no past ↦ all i s (here i s) (omega arith) (loop-end rounds i s (omega arith))
    | yes h ↦
        let moves : 0 < size_of i = ground arith in
        subst (Ended i s) (sym (loop-step rounds i s h)) (
          Ended-round i s (loop rounds) (round i s) h refl
            (λ t. loop-Ended rounds (i + size_of i) t (omega arith)))
  ]

  -- The loop of `write_file` on an inode, in the rounds that `write_file` gives it: it makes full
  -- rounds until all bytes are written and then returns their number, or it comes to a first round
  -- that is not full and ends with that round: when the round returns, with the number of bytes of
  -- the full rounds before it, and otherwise as the round does. A negative count has no rounds.
  pub write_chunks-Ended :
      (s : State) → Ended 0 s (write_chunks hart devices fetch (n + 1) log_events f address n 0 s)
  write_chunks-Ended s =
      let enough : int_count n - 0 < n + 1 = ground arith in loop-Ended (n + 1) 0 s enough
