-- ===== src/File/Ends.antt =====
-- What `pipealloc` returns: two files of their own on one empty pipe.
use risc_v_os.Base.{
  ℕ, ◌≡◌, ◌≢◌, inl, inr, refl, sym, ap, subst, ◌∙◌, Bool, true, false, Option, none, some, List,
  arith, ◌==◌, if◌then◌else◌, Bool-cases,
}
use risc_v_os.Base.Outcome.{done, >>=-eq-done, ◌>>=◌}
use risc_v_os.Base.Family.{update, update_self, update_ne}
use risc_v_os.Locks.{Cpu}
use risc_v_os.Log as LogLayer
use risc_v_os.Pmm.{Pmm, kalloc}
use risc_v_os.File.{File, State, fd_pipe, put_file, file_alloc}
use risc_v_os.File.Table.{file_alloc_lem}
use risc_v_os.File.Creation.{
  close_end, new_pipe, pipe_end, pipe_bad, set_ends, pipe_of, with_first, with_second, pipealloc,
}

-- An end of the pipe at `pi`, with one reference.
pub record IsEnd (pi : ℕ) (writable : Bool) (file : File) : Type 0 where
  pub type : file.type ≡ fd_pipe
  pub ref : file.ref ≡ 1
  pub pipe : file.pipe ≡ pi
  pub readable : file.readable ≡ (if writable then false else true)
  pub writes : file.writable ≡ writable

pub record Opened (f0 f1 : ℕ) (s t : State) : Type 0 where
  pub page : ℕ
  pub apart : f0 ≢ f1
  pub unused : ((s.files f0).ref ≡ 0) × ((s.files f1).ref ≡ 0)
  pub reads : IsEnd page false (t.files f0)
  pub writes : IsEnd page true (t.files f1)
  pub empty : t.pipe page ≡ new_pipe (s.pipe page)
  pub others : (j : ℕ) → j ≢ f0 → j ≢ f1 → t.files j ≡ s.files j

abbrev with_file : (ℕ → File) → ℕ → File → ℕ → File
with_file files f file = update files f (record file { ref = 1 })

-- The files after both allocations and `set_ends`.
module _ (f0 f1 pi : ℕ) (s u : State) (apart : f0 ≢ f1) where
  abbrev claimed : ℕ → File
  claimed =
      update (update s.files f0 (record (s.files f0) { ref = 1 })) f1
        (record (s.files f1) { ref = 1 })

  claimed-reads : claimed f0 ≡ record (s.files f0) { ref = 1 }
  claimed-reads = update_ne _ f1 f0 _ (λ e. apart (sym e)) ∙ update_self s.files f0 _

  claimed-writes : claimed f1 ≡ record (s.files f1) { ref = 1 }
  claimed-writes = update_self _ f1 _

  abbrev ends : ℕ → File
  ends =
      update (update claimed f0 (pipe_end pi false (claimed f0))) f1
        (pipe_end pi true (update claimed f0 (pipe_end pi false (claimed f0)) f1))

  ends-reads : ends f0 ≡ pipe_end pi false (record (s.files f0) { ref = 1 })
  ends-reads =
      update_ne _ f1 f0 _ (λ e. apart (sym e))
      ∙ (update_self claimed f0 _ ∙ ap (pipe_end pi false) claimed-reads)

  ends-writes : ends f1 ≡ pipe_end pi true (record (s.files f1) { ref = 1 })
  ends-writes =
      update_self _ f1 _ ∙ ap (pipe_end pi true) (update_ne claimed f0 f1 _ apart ∙ claimed-writes)

  ends-others : (j : ℕ) → j ≢ f0 → j ≢ f1 → ends j ≡ s.files j
  ends-others j n0 n1 =
      let m0 : f0 ≢ j = λ e. n0 (sym e) in
      let m1 : f1 ≢ j = λ e. n1 (sym e) in
      update_ne _ f1 j _ m1
      ∙ (update_ne claimed f0 j _ m0 ∙ (update_ne _ f1 j _ m1 ∙ update_ne s.files f0 j _ m0))

  Opened-ends :
      (s.files f0).ref ≡ 0
      → (s.files f1).ref ≡ 0
      → u.pipe ≡ s.pipe
      → u.files ≡ claimed
      → (t : State) → set_ends f0 f1 pi u ≡ t
      → Opened f0 f1 s t
  unfolding set_ends
  Opened-ends free0 free1 same_pipes same_files t made =
      let files : ends ≡ t.files =
        subst
          (λ c.
            update (update c f0 (pipe_end pi false (c f0))) f1
              (pipe_end pi true (update c f0 (pipe_end pi false (c f0)) f1))
            ≡ t.files)
          same_files (ap (λ x. x.files) made) in
      let reads = sym (ap (λ c. c f0) files) ∙ ends-reads in
      let writes = sym (ap (λ c. c f1) files) ∙ ends-writes in
      record {
        page = pi;
        apart = apart;
        unused = (free0, free1);
        reads =
            subst (IsEnd pi false) (sym reads)
              (record { type = refl; ref = refl; pipe = refl; readable = refl; writes = refl });
        writes =
            subst (IsEnd pi true) (sym writes)
              (record { type = refl; ref = refl; pipe = refl; readable = refl; writes = refl });
        empty =
            sym (ap (λ x. x.pipe pi) made)
            ∙ (update_self u.pipe pi _ ∙ ap (λ p. new_pipe (p pi)) same_pipes);
        others = λ j n0 n1. sym (ap (λ c. c j) files) ∙ ends-others j n0 n1;
      }

module _ (mem_end hart : ℕ) (log_events : List (LogLayer.State → LogLayer.State)) where
  pipe_bad-some :
      (g0 g1 : Option ℕ) (m m' : Pmm) (s t : State) (made : ℕ × ℕ)
      → pipe_bad mem_end hart log_events g0 g1 m s ≡ done (some made, m', t)
      → true ≡ false
  unfolding pipe_bad
  pipe_bad-some g0 g1 m m' s t made ran =
      let (a, _, rest) =
        >>=-eq-done (close_end mem_end hart log_events g0 s)
          (λ a. close_end mem_end hart log_events g1 a >>= λ b. done (none, m, b)) ran in
      let (b, _, last) =
        >>=-eq-done (close_end mem_end hart log_events g1 a) (λ b. done (none, m, b)) rest in
      cc

  pipe_of-some :
      (f0 f1 g0 g1 : ℕ) (m m' : Pmm) (s t : State)
      → pipe_of mem_end hart log_events f0 f1 m s ≡ done (some (g0, g1), m', t)
      → (f0 ≡ g0)
        × (f1 ≡ g1)
        × (pi : ℕ) × (c : Cpu) × (set_ends f0 f1 pi (record s { cpu = c }) ≡ t)
  unfolding pipe_of
  pipe_of-some f0 f1 g0 g1 m m' s t ran =
      let (k, _, rest) =
        >>=-eq-done (kalloc mem_end hart m s.cpu)
          (λ k.
            if k.0 == 0
            then pipe_bad mem_end hart log_events (some f0) (some f1) k.1 (record s { cpu = k.2 })
            else done (some (f0, f1), k.1, set_ends f0 f1 k.0 (record s { cpu = k.2 })))
          ran in
      elim (Bool-cases (k.0 == 0)) [
        | inl zero_page ↦
            let bad = rw zero_page refl ∙ rest in
            let clash =
              pipe_bad-some (some f0) (some f1) k.1 m' (record s { cpu = k.2 }) t (g0, g1) bad in
            cc
        | inr page ↦
            let good : done (some (f0, f1), k.1, set_ends f0 f1 k.0 (record s { cpu = k.2 }))
                ≡ done (some (g0, g1), m', t) =
              rw page refl ∙ rest in
            (cc, cc, k.0, k.2, cc)
      ]

  pipealloc-both :
      (m : Pmm) (s u v : State) (f0 f1 : ℕ)
      → file_alloc s ≡ (some f0, u)
      → file_alloc u ≡ (some f1, v)
      → pipealloc mem_end hart log_events m s ≡ pipe_of mem_end hart log_events f0 f1 m v
  unfolding pipealloc with_first with_second
  pipealloc-both m s u v f0 f1 first second =
      ap (with_first mem_end hart log_events m) first
      ∙ ap (with_second mem_end hart log_events f0 m) second

  pipealloc-first :
      (m : Pmm) (s u : State) (f0 : ℕ)
      → file_alloc s ≡ (some f0, u)
      → file_alloc u ≡ (none, u)
      → pipealloc mem_end hart log_events m s ≡ pipe_bad mem_end hart log_events (some f0) none m u
  unfolding pipealloc with_first with_second
  pipealloc-first m s u f0 first second =
      ap (with_first mem_end hart log_events m) first
      ∙ ap (with_second mem_end hart log_events f0 m) second

  pipealloc-none :
      (m : Pmm) (s : State)
      → file_alloc s ≡ (none, s)
      → pipealloc mem_end hart log_events m s ≡ pipe_bad mem_end hart log_events none none m s
  unfolding pipealloc with_first with_second
  pipealloc-none m s first = ap (with_first mem_end hart log_events m) first

  -- When `pipealloc` succeeds, it has taken two different files that had no references, and they are
  -- the reading end and the writing end, with one reference each, of one pipe that is empty and open
  -- at both ends; no other file has changed.
  pub pipealloc_lem :
      (m m' : Pmm) (s t : State) (f0 f1 : ℕ)
      → pipealloc mem_end hart log_events m s ≡ done (some (f0, f1), m', t)
      → Opened f0 f1 s t
  pipealloc_lem m m' s t f0 f1 ran = elim (file_alloc_lem s) [
    | inr (_, first) ↦
        let clash =
          pipe_bad-some none none m m' s t (f0, f1) (sym (pipealloc-none m s first) ∙ ran) in
        cc
    | inl (a, _, free_a, _, first) ↦
        let u : State = put_file a (record (s.files a) { ref = 1 }) s in
        elim (file_alloc_lem u) [
          | inr (_, second) ↦
              let clash =
                pipe_bad-some (some a) none m m' u t (f0, f1)
                  (sym (pipealloc-first m s u a first second) ∙ ran) in
              cc
          | inl (b, _, free_b, _, second) ↦
              let v : State = put_file b (record (u.files b) { ref = 1 }) u in
              let (same_a, same_b, pi, c, made) =
                pipe_of-some a b f0 f1 m m' v t
                  (sym (pipealloc-both m s u v a b first second) ∙ ran) in
              let apart : a ≢ b = λ e.
                let one : 1 ≡ 0 =
                  sym (ap (λ x. x.ref) (ap u.files (sym e) ∙ update_self s.files a _)) ∙ free_b in
                omega (arith, one) in
              let at_b : u.files b ≡ s.files b = update_ne s.files a b _ apart in
              subst (λ x. Opened x f1 s t) same_a
                (subst (λ x. Opened a x s t) same_b
                  (Opened-ends a b pi s (record v { cpu = c }) apart free_a
                    (ap (λ x. x.ref) (sym at_b) ∙ free_b) refl (ap (with_file u.files b) at_b) t
                    made))
        ]
  ]
