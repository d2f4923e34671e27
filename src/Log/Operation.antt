-- ===== src/Log/Operation.antt =====
-- `begin_op` and `end_op`: reservation of room in the log and the end of a transaction.
use risc_v_os.Base.{
  ◌+◌, ◌*◌, ◌≤◌, ◌<◌, ◌≡◌, inl, inr, subst, true, false, List, [], ◌∷◌, arith, Bool-cases,
}
use risc_v_os.Base.Outcome.{Outcome, done, panic, asleep, fault}
use risc_v_os.Log.{Log, State, logsize, maxlogops, must_wait, enter, begin_op}

-- The room that `must_wait` has tested for.
abbrev Reserved : Log → Type 0
Reserved log =
    (log.commit ≡ false)
    × (0 < log.num_syscalls)
    × (log.count + log.num_syscalls * maxlogops ≤ logsize)

starts :
    (events : List (State → State)) (s : State)
    → must_wait s.log ≡ false
    → begin_op events s ≡ done (enter s)
unfolding begin_op
starts [] s w = rw w
starts (f ∷ fs) s w = rw w

Reserved-enter : (s : State) → must_wait s.log ≡ false → Reserved (enter s).log
Reserved-enter s w = ground arith

abbrev InDone : Outcome State → Type 0
InDone (done t) = Reserved t.log
InDone panic = Unit
InDone asleep = Unit
InDone fault = Unit

admitted : (events : List (State → State)) (s : State) → InDone (begin_op events s)
unfolding begin_op
admitted [] s = elim (Bool-cases (must_wait s.log)) [
  | inl w ↦ rw w tt
  | inr w ↦ rw w (Reserved-enter s w)
]
admitted (f ∷ fs) s = elim (Bool-cases (must_wait s.log)) [
  | inl w ↦ rw w (admitted fs (f s))
  | inr w ↦ rw w (Reserved-enter s w)
]

admits : (events : List (State → State)) (s t : State) → begin_op events s ≡ done t → Reserved t.log
admits events s t e = subst InDone e (admitted events s)

-- `begin_op` returns at once when no commit runs and ten more blocks fit beside what the other
-- transactions have reserved, and waits otherwise. Whenever it returns, whatever others did while it
-- slept, no commit runs, the caller is counted, and the entries with ten blocks for each open
-- transaction fit the log.
pub begin_op_lem :
    (events : List (State → State)) (s : State)
    → (must_wait s.log ≡ false → begin_op events s ≡ done (enter s))
      × (must_wait s.log ≡ true → begin_op [] s ≡ asleep)
      × ((t : State)
          → begin_op events s ≡ done t
          → (t.log.commit ≡ false)
            × (0 < t.log.num_syscalls)
            × (t.log.count + t.log.num_syscalls * maxlogops ≤ logsize))
unfolding begin_op
begin_op_lem events s = (starts events s, λ w. rw w, λ t. admits events s t)
