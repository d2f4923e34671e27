-- ===== src/File/Table.antt =====
-- The counts of references of `file_alloc`, `file_dup` and `file_close`.
use risc_v_os.Base.{
  ℕ, zero, suc, ◌+◌, ◌-◌, ◌≤◌, ◌<◌, ◌≡◌, ◌≢◌, ◌⊎◌, inl, inr, refl, sym, ap, ◌∙◌, true, false, none,
  some, List, arith, ◌==◌, ltb, Bool-cases, Option-cases, ℕ_discrete,
}
use risc_v_os.Base.Outcome.{done}
use risc_v_os.Base.Family.{update, update_self, update_ne}
use risc_v_os.Log as LogLayer
use risc_v_os.File.{State, File, numfile, put_file, first_free, file_alloc, file_dup, file_close}

first_free-some :
    (left i f : ℕ) (files : ℕ → File)
    → first_free left i files ≡ some f
    → (i ≤ f) × (f < i + left) × ((files f).ref ≡ 0) × ((j : ℕ) → i ≤ j → j < f → (files j).ref ≢ 0)
unfolding first_free
first_free-some zero i f files e = cc
first_free-some (suc left) i f files e = elim (Bool-cases ((files i).ref == 0)) [
  | inl free ↦
      let found : some i ≡ some f = rw free refl ∙ e in
      let same : i ≡ f = cc in
      (omega arith, omega arith, ground arith, λ j lo hi. absurd (omega arith))
  | inr used ↦
      let (lo, hi, free, before) = first_free-some left (i + 1) f files (rw used refl ∙ e) in
      (
        omega arith,
        omega arith,
        free,
        λ j a b. elim (ℕ_discrete i j) [
          | yes here ↦ ground arith
          | no later ↦ before j (omega arith) b
        ],
      )
]

first_free-none :
    (left i : ℕ) (files : ℕ → File)
    → first_free left i files ≡ none
    → (j : ℕ) → i ≤ j
    → j < i + left
    → (files j).ref ≢ 0
unfolding first_free
first_free-none zero i files e j lo hi = absurd (omega arith)
first_free-none (suc left) i files e j lo hi = elim (Bool-cases ((files i).ref == 0)) [
  | inl free ↦ let found : some i ≡ none = rw free refl ∙ e in cc
  | inr used ↦ elim (ℕ_discrete i j) [
    | yes here ↦ ground arith
    | no later ↦ first_free-none left (i + 1) files (rw used refl ∙ e) j (omega arith) (omega arith)
  ]
]

-- `file_alloc` gives the first file without references, with one reference now, and changes nothing
-- else; it gives none, and changes nothing, exactly when all files have references.
pub file_alloc_lem :
    (s : State)
    → ((f : ℕ) × (f < numfile)
        × ((s.files f).ref ≡ 0)
        × ((j : ℕ) → j < f → (s.files j).ref ≢ 0)
        × (file_alloc s ≡ (some f, put_file f (record (s.files f) { ref = 1 }) s)))
      ⊎ (((j : ℕ) → j < numfile → (s.files j).ref ≢ 0) × (file_alloc s ≡ (none, s)))
unfolding file_alloc
file_alloc_lem s = elim (Option-cases (first_free numfile 0 s.files)) [
  | inr (f, e) ↦
      let (lo, hi, free, before) = first_free-some numfile 0 f s.files e in
      inl (f, omega arith, free, λ j h. before j (omega arith) h, rw (file_alloc, e) refl)
  | inl e ↦ inr (
    λ j h. first_free-none numfile 0 s.files e j (omega arith) (omega arith),
    rw (file_alloc, e) refl,
  )
]

-- A file that is duplicated and then closed has the references that it had, and nothing else has
-- changed: neither end of a pipe and no inode is closed.
pub file_close-file_dup :
    (hart : ℕ) (log_events : List (LogLayer.State → LogLayer.State)) (f : ℕ) (s : State)
    → 0 < (s.files f).ref
    → (t u : State) × (file_dup f s ≡ done t)
      × (file_close hart log_events f t ≡ done u)
      × ((j : ℕ) → u.files j ≡ s.files j)
      × (record u { files = s.files } ≡ s)
unfolding file_dup file_close
file_close-file_dup hart log_events f s used =
    let twice : File = record (s.files f) { ref = (s.files f).ref + 1 } in
    let back : File = record (s.files f) { ref = (s.files f).ref + 1 - 1 } in
    let t : State = put_file f twice s in
    let at : t.files f ≡ twice = update_self s.files f twice in
    let enough : ltb (s.files f).ref 1 ≡ false = ground arith in
    let enough' : ltb ((s.files f).ref + 1) 1 ≡ false = ground arith in
    let still : ltb 0 ((s.files f).ref + 1 - 1) ≡ true = ground arith in
    let count : (s.files f).ref + 1 - 1 ≡ (s.files f).ref = omega arith in
    (
      t,
      put_file f back t,
      rw enough refl,
      rw (at, enough', still) refl,
      λ j. elim (ℕ_discrete f j) [
        | yes here ↦
            ap (update t.files f back) (sym here)
            ∙ (update_self t.files f back
                ∙ (ap (λ n. record (s.files f) { ref = n }) count ∙ ap s.files here))
        | no other ↦ update_ne t.files f j back other ∙ update_ne s.files f j twice other
      ],
      refl,
    )
