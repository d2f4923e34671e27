-- ===== src/SysFile/Descriptors.antt =====
-- `fdalloc`, and a descriptor that is duplicated and closed.
use risc_v_os.Base.{
  ℕ, zero, suc, ◌+◌, ◌≤◌, ◌<◌, ◌≡◌, ◌≢◌, ◌⊎◌, inl, inr, refl, sym, ap, subst, ◌∙◌, true, false,
  none, some, List, arith, leb, Option-cases, ℕ_discrete, dec_lt,
}
use risc_v_os.Base.Outcome.{done, fault}
use risc_v_os.Base.Family.{update, update_self, update_ne}
use risc_v_os.Log as LogLayer
use risc_v_os.File as FileLayer
use risc_v_os.File.{numfile, file_dup, file_close}
use risc_v_os.File.Table.{file_close-file_dup}
use risc_v_os.SysFile.{
  State, numofiles, put_fd, open_file, argfd, fdalloc_from, fdalloc, sys_dup, sys_close,
}

module _ (f : ℕ) (s : State) where
  fdalloc_from-used :
      (left fd : ℕ) (g : ℕ)
      → fd < numofiles
      → s.openfile fd ≡ some g
      → fdalloc_from (suc left) fd f s ≡ fdalloc_from left (fd + 1) f s
  unfolding fdalloc_from open_file
  fdalloc_from-used left fd g h used =
      let within : leb numofiles fd ≡ false = ground arith in rw (within, used) refl

  fdalloc_from-free :
      (left fd : ℕ)
      → fd < numofiles
      → s.openfile fd ≡ none
      → fdalloc_from (suc left) fd f s ≡ done (some fd, put_fd fd (some f) s)
  unfolding fdalloc_from open_file
  fdalloc_from-free left fd h free =
      let within : leb numofiles fd ≡ false = ground arith in rw (within, free) refl

  fdalloc_from-past : (left fd : ℕ) → numofiles ≤ fd → fdalloc_from (suc left) fd f s ≡ fault
  unfolding fdalloc_from open_file
  fdalloc_from-past left fd h = let past : leb numofiles fd ≡ true = ground arith in rw past refl

  Found : ℕ → ℕ → Type 0
  Found left fd =
      ((n : ℕ) × (fd ≤ n)
        × (n < numofiles)
        × (s.openfile n ≡ none)
        × ((k : ℕ) → fd ≤ k → k < n → s.openfile k ≢ none)
        × (fdalloc_from left fd f s ≡ done (some n, put_fd n (some f) s)))
      ⊎ (((k : ℕ) → fd ≤ k → k < numofiles → s.openfile k ≢ none)
          × (fdalloc_from left fd f s ≡ fault))

  fdalloc_from-Found : (left fd : ℕ) → fd ≤ numofiles → numofiles < fd + left → Found left fd
  unfolding Found
  fdalloc_from-Found zero fd small enough = absurd (omega arith)
  fdalloc_from-Found (suc left) fd small enough = elim (dec_lt fd numofiles) [
    | no past ↦ inr (λ k a b. absurd (omega arith), fdalloc_from-past left fd (omega arith))
    | yes h ↦ elim (Option-cases (s.openfile fd)) [
      | inl free ↦ inl (
        fd,
        omega arith,
        h,
        free,
        λ k a b. absurd (omega arith),
        fdalloc_from-free left fd h free,
      )
      | inr (g, used) ↦
          let later : (k : ℕ)
              → fd ≤ k
              → ((fd + 1 ≤ k → s.openfile k ≢ none) → s.openfile k ≢ none) =
            λ k a rest. elim (ℕ_discrete fd k) [
              | yes e ↦
                  subst (λ j. s.openfile j ≢ none) e
                    (λ z. let clash : some g ≡ none = sym used ∙ z in cc)
              | no ne ↦ rest (omega arith)
            ] in
          let step = fdalloc_from-used left fd g h used in
          elim (fdalloc_from-Found left (fd + 1) (omega arith) (omega arith)) [
            | inl (n, lo, hi, free, before, ran) ↦
                inl (n, omega arith, hi, free, λ k a b. later k a (λ c. before k c b), step ∙ ran)
            | inr (full, ran) ↦ inr (λ k a b. later k a (λ c. full k c b), step ∙ ran)
          ]
    ]
  ]

-- `fdalloc` gives the file the least free descriptor of the caller; when all NUMOFILES descriptors
-- are in use it goes on past the end of the array, because its loop runs to NUMFILE.
pub fdalloc_lem :
    (f : ℕ) (s : State)
    → ((n : ℕ) × (n < numofiles)
        × (s.openfile n ≡ none)
        × ((k : ℕ) → k < n → s.openfile k ≢ none)
        × (fdalloc f s ≡ done (some n, put_fd n (some f) s)))
      ⊎ (((k : ℕ) → k < numofiles → s.openfile k ≢ none) × (fdalloc f s ≡ fault))
unfolding fdalloc Found
fdalloc_lem f s = elim (fdalloc_from-Found f s numfile 0 (omega arith) (omega arith)) [
  | inl (n, lo, hi, free, before, ran) ↦ inl (n, hi, free, λ k h. before k (omega arith) h, ran)
  | inr (full, ran) ↦ inr (λ k h. full k (omega arith) h, ran)
]

argfd-open :
    (fd f : ℕ) (s : State)
    → fd < numofiles
    → s.openfile fd ≡ some f
    → argfd (some fd) s ≡ done (some (fd, f))
unfolding argfd open_file
argfd-open fd f s h e =
    let small : leb numfile fd ≡ false = ground arith in
    let within : leb numofiles fd ≡ false = ground arith in rw (small, within, e) refl

sys_dup-run :
    (fd f n : ℕ) (s u : State) (t : FileLayer.State)
    → argfd (some fd) s ≡ done (some (fd, f))
    → fdalloc f s ≡ done (some n, u)
    → file_dup f u.file ≡ done t
    → sys_dup (some fd) s ≡ done (some n, record u { file = t })
unfolding sys_dup
sys_dup-run fd f n s u t arg new dup = rw (arg, new, dup) refl

sys_close-run :
    (hart : ℕ) (events : List (LogLayer.State → LogLayer.State)) (fd f : ℕ) (s : State)
    (t : FileLayer.State)
    → argfd (some fd) s ≡ done (some (fd, f))
    → file_close hart events f s.file ≡ done t
    → sys_close hart events (some fd) s ≡ done (true, record (put_fd fd none s) { file = t })
unfolding sys_close
sys_close-run hart events fd f s t arg close = rw (arg, close) refl

-- With a descriptor of an open file and a free descriptor, `sys_dup` gives a new descriptor of the
-- same file, and `sys_close` of that one succeeds and leaves the descriptors, the file table with
-- its counts of references, the pipes and the inodes as they were before both calls.
pub sys_close-sys_dup :
    (hart : ℕ) (events : List (LogLayer.State → LogLayer.State)) (fd f free : ℕ) (s : State)
    → fd < numofiles
    → s.openfile fd ≡ some f
    → 0 < (s.file.files f).ref
    → free < numofiles
    → s.openfile free ≡ none
    → (n : ℕ) × (t u : State) × (sys_dup (some fd) s ≡ done (some n, t))
      × (t.openfile n ≡ some f)
      × (sys_close hart events (some n) t ≡ done (true, u))
      × ((k : ℕ) → u.openfile k ≡ s.openfile k)
      × ((j : ℕ) → u.file.files j ≡ s.file.files j)
      × (record (u.file) { files = s.file.files } ≡ s.file)
sys_close-sys_dup hart events fd f free s h at used small unused = elim (fdalloc_lem f s) [
  | inr (full, _) ↦ absurd (full free small unused)
  | inl (n, within, vacant, before, ran) ↦
      let (a, b, dup, close, files, rest) = file_close-file_dup hart events f s.file used in
      let u : State = put_fd n (some f) s in
      let t : State = record u { file = a } in
      let new : t.openfile n ≡ some f = update_self s.openfile n (some f) in
      (
        n,
        t,
        record (put_fd n none t) { file = b },
        sys_dup-run fd f n s u a (argfd-open fd f s h at) ran dup,
        new,
        sys_close-run hart events n f t b (argfd-open n f t within new) close,
        λ k. elim (ℕ_discrete n k) [
          | yes e ↦
              ap (update t.openfile n none) (sym e)
              ∙ (update_self t.openfile n none ∙ (sym vacant ∙ ap s.openfile e))
          | no ne ↦ update_ne t.openfile n k none ne ∙ update_ne s.openfile n k (some f) ne
        ],
        files,
        rest,
      )
]
