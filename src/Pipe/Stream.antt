-- ===== src/Pipe/Stream.antt =====
-- What a writer and then a reader of a pipe make together.
use risc_v_os.Base.{
  ℕ, ◌+◌, ◌≤◌, ◌<◌, ◌≡◌, sym, ap, ap₂, append-nil, append_assoc, ◌∙◌, false, Option, some, List, [],
  ◌∷◌, ◌++◌, arith, inl, length, length-append, subst,
}
use risc_v_os.Base.Outcome.{done}
use risc_v_os.Process.Wakeup.{woken_from}
use risc_v_os.Pipe.{write_channel, pipesize, is_cut, pipewrite, State, piperead}
use risc_v_os.Pipe.Ring.{IsValid, count, contents, length-contents}
use risc_v_os.Pipe.Critical.{Ready}
use risc_v_os.Pipe.Write.{append_fetched, pipewrite_lem}
use risc_v_os.Pipe.Read.{DidRead, deliver, piperead_lem}

-- Each byte of the list can be fetched, in order from address `addr + i`.
abbrev pub Fetches : (ℕ → Option ℕ) → ℕ → ℕ → List ℕ → Type 0
Fetches fetch addr i [] = Unit
Fetches fetch addr i (b ∷ bs) = (fetch (addr + i) ≡ some b) × Fetches fetch addr (i + 1) bs

abbrev pair : ℕ → List ℕ → ℕ × List ℕ
pair n q = (n, q)

append_fetched_lem :
    (fetch : ℕ → Option ℕ) (addr i : ℕ) (bs q : List ℕ)
    → Fetches fetch addr i bs
    → append_fetched fetch addr (length bs) i q ≡ (i + length bs, q ++ bs)
unfolding append_fetched
append_fetched_lem fetch addr i [] q f = ap₂ pair (omega arith) (sym (append-nil q))
append_fetched_lem fetch addr i (b ∷ bs) q f =
    rw (append_fetched, f.0)
      (append_fetched_lem fetch addr (i + 1) bs (q ++ (b ∷ [])) f.1
        ∙ ap₂ pair (omega arith) (append_assoc q (b ∷ []) bs))

-- A caller outside every critical section, not killed, with the pipe's lock and the locks of the
-- other processes free, writes at least one byte, from memory that can be read, into a pipe with
-- room and an open read end; then it reads. `pipewrite` takes all the bytes. `piperead` finds the
-- bytes that were there before and behind them those written, each once and in the order in which
-- they were written: it stores them up to `n`, the end of the queue or the first byte that cannot be
-- stored, which is lost, and returns the number stored; the others stay in the pipe in order.
pub piperead-pipewrite :
    {M : Type 0} (hart pi : ℕ) (fetch : ℕ → Option ℕ) (src : ℕ) (store : ℕ → ℕ → M → Option M)
    (dst n : ℕ) (mem : M) (bs : List ℕ) (s : State)
    → Ready s
    → IsValid s.pipe
    → is_cut s ≡ false
    → Fetches fetch src 0 bs
    → 0 < length bs
    → count s.pipe + length bs ≤ pipesize
    → (t : State) × (pipewrite hart pi fetch [] (length bs) src s ≡ done (length bs, t))
      × ((r : Option ℕ × M × State) × (piperead hart pi store [] n dst mem t ≡ done r)
          × DidRead
              (deliver store dst n 0 mem (contents s.pipe ++ bs))
              (woken_from t.self (write_channel pi) 0 t.procs)
              r)
piperead-pipewrite hart pi fetch src store dst n mem bs s ready v k f some_byte room =
    let (r, e, w) = pipewrite_lem hart pi fetch src [] (length bs) s ready v k room in
    let all = append_fetched_lem fetch src 0 bs (contents s.pipe) f in
    let t : State = r.1 in
    let q : contents t.pipe ≡ contents s.pipe ++ bs = w.queue ∙ ap (λ o. o.1) all in
    let full_enough : 0 < count t.pipe = omega (
      arith,
      length-contents t.pipe,
      ap length q,
      length-append {0} (contents s.pipe) bs,
      some_byte,
    ) in
    let (r', e', d) = piperead_lem hart pi store dst [] n mem t w.ready w.valid (inl full_enough) in
    (
      t,
      e
          ∙ ap (λ i. done (i, t))
              (let i : r.0 ≡ length bs = omega (arith, w.returned, ap (λ o. o.0) all) in i),
      (
        r',
        e',
        subst
            (λ q.
              DidRead (deliver store dst n 0 mem q) (woken_from t.self (write_channel pi) 0 t.procs)
                r')
            q d,
      ),
    )
