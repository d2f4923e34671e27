-- ===== src/Libc/Strings.antt =====
-- `strlen` and `strcpy`: the first zero byte, and a copy that is always ended.
use risc_v_os.Base.{
  ℕ, zero, suc, ◌+◌, ◌-◌, ◌≤◌, ◌<◌, ◌≡◌, ◌≢◌, ◌⊎◌, inl, inr, refl, sym, ap, subst, ◌∙◌, true, false,
  some, arith, ◌==◌, ℕ_discrete, Bool-cases,
}
use risc_v_os.Base.Family.{update, update_self, update_ne}
use risc_v_os.Libc.{Memory, u32_mod, strlen_from, strlen, strcpy_from, strcpy}

-- The bytes before `len` are not zero, and the one at `len` is.
pub record IsString (str : ℕ → ℕ) (len : ℕ) : Type 0 where
  pub body : (j : ℕ) → j < len → str j ≢ 0
  pub ended : str len ≡ 0

strlen_from-some :
    (left cnt len : ℕ) (str : ℕ → ℕ)
    → IsString str len
    → cnt ≤ len
    → len < cnt + left
    → strlen_from left cnt str ≡ some len
unfolding strlen_from
strlen_from-some zero cnt len str s lo hi = absurd (omega arith)
strlen_from-some (suc left) cnt len str s lo hi = elim (ℕ_discrete cnt len) [
  | yes last ↦
      let hit : (str cnt == 0) ≡ true = ground (arith, ap str last, s.ended) in
      rw hit (ap some last)
  | no other ↦
      let miss : (str cnt == 0) ≡ false = ground (arith, s.body cnt (omega arith)) in
      rw miss (strlen_from-some left (cnt + 1) len str s (omega arith) (omega arith))
]

strlen_from-IsString :
    (left cnt len : ℕ) (str : ℕ → ℕ)
    → ((j : ℕ) → j < cnt → str j ≢ 0)
    → strlen_from left cnt str ≡ some len
    → IsString str len
unfolding strlen_from
strlen_from-IsString zero cnt len str before e = cc
strlen_from-IsString (suc left) cnt len str before e = elim (Bool-cases (str cnt == 0)) [
  | inl hit ↦
      let here : some cnt ≡ some len = (rw hit refl) ∙ e in
      let same : cnt ≡ len = cc in
      subst (IsString str) same (record { body = before; ended = ground arith })
  | inr miss ↦
      strlen_from-IsString left (cnt + 1) len str
        (λ j h. elim (ℕ_discrete j cnt) [
          | yes last ↦ ground arith
          | no other ↦ before j (omega arith)
        ])
        (rw miss refl ∙ e)
]

-- A string lies at `t`.
abbrev pub StringAt : ℕ → ℕ → Memory → Type 0
StringAt t len mem = IsString (λ j. mem (t + j)) len

-- `strlen` of a string inside the address space is the number of bytes before its first zero, and
-- a number that it returns is that of such a string.
pub strlen_lem :
    (len : ℕ) (str : ℕ → ℕ)
    → (IsString str len → len < u32_mod → strlen str ≡ some len)
      × (strlen str ≡ some len → IsString str len)
unfolding strlen
strlen_lem len str = (
  λ s h. strlen_from-some u32_mod 0 len str s (omega arith) (omega arith),
  λ e. strlen_from-IsString u32_mod 0 len str (λ j h. absurd (omega arith)) e,
)

-- A copy of the string of length `len` at `t` stands at `s`, cut to `n` bytes with its final zero.
pub record CopiedString (s t len n : ℕ) (mem mem' : Memory) : Type 0 where
  pub body : (j : ℕ) → j < len → j + 1 < n → mem' (s + j) ≡ mem (t + j)
  pub ended : (j : ℕ) → j < n → j ≤ len → (j ≡ len) ⊎ (j + 1 ≡ n) → mem' (s + j) ≡ 0
  pub others : (k : ℕ) → (k < s) ⊎ (s + n ≤ k) → mem' k ≡ mem k

StringAt-update :
    (s t len : ℕ) (mem : Memory) (ch : ℕ)
    → (s < t) ⊎ (t + suc len < s)
    → StringAt t (suc len) mem
    → StringAt (t + 1) len (update mem s ch)
StringAt-update s t len mem ch apart str = record {
  body = λ j h e.
      str.body (j + 1) (omega arith)
        (ap mem (omega arith) ∙ sym (update_ne mem s (t + 1 + j) ch (omega arith)) ∙ e);
  ended = update_ne mem s (t + 1 + len) ch (omega arith) ∙ ap mem (omega arith) ∙ str.ended;
}

strcpy_from-CopiedString :
    (left s t len : ℕ) (mem : Memory)
    → (s + left < t) ⊎ (t + len < s)
    → StringAt t len mem
    → CopiedString s t len (suc left) mem (strcpy_from left s t mem)
unfolding strcpy_from
strcpy_from-CopiedString zero s t len mem apart str = record {
  body = λ j h lt. absurd (omega arith);
  ended = λ j lt le at. ap (update mem s 0) (omega arith) ∙ update_self mem s 0;
  others = λ k out. update_ne mem s k 0 (omega arith);
}
strcpy_from-CopiedString (suc left) s t zero mem apart str =
    let nul : mem t ≡ 0 = ap mem (omega arith) ∙ str.ended in
    let hit : (mem t == 0) ≡ true = ground arith in
    rw hit (record {
      body = λ j h lt. absurd (omega arith);
      ended = λ j lt le at.
          ap (update (update mem s (mem t)) (s + 1) 0) (omega arith)
          ∙ update_ne (update mem s (mem t)) (s + 1) s 0 (omega arith)
          ∙ update_self mem s (mem t)
          ∙ nul;
      others = λ k out.
          update_ne (update mem s (mem t)) (s + 1) k 0 (omega arith)
          ∙ update_ne mem s k (mem t) (omega arith);
    })
strcpy_from-CopiedString (suc left) s t (suc len) mem apart str =
    let full : mem t ≢ 0 = λ e. str.body 0 (omega arith) (ap mem (omega arith) ∙ e) in
    let miss : (mem t == 0) ≡ false = ground arith in
    let m : Memory = update mem s (mem t) in
    let rest =
      strcpy_from-CopiedString left (s + 1) (t + 1) len m (omega arith)
        (StringAt-update s t len mem (mem t) (omega arith) str) in
    rw miss (record {
      body = λ j h lt. elim (ℕ_discrete j 0) [
        | yes first ↦
            ap (strcpy_from left (s + 1) (t + 1) m) (omega arith)
            ∙ rest.others s (omega arith)
            ∙ update_self mem s (mem t)
            ∙ ap mem (omega arith)
        | no further ↦
            ap (strcpy_from left (s + 1) (t + 1) m) (omega arith)
            ∙ rest.body (j - 1) (omega arith) (omega arith)
            ∙ update_ne mem s (t + 1 + (j - 1)) (mem t) (omega arith)
            ∙ ap mem (omega arith)
      ];
      ended = λ j lt le at.
          ap (strcpy_from left (s + 1) (t + 1) m) (omega arith)
          ∙ rest.ended (j - 1) (omega arith) (omega arith) (omega arith);
      others = λ k out. rest.others k (omega arith) ∙ update_ne mem s k (mem t) (omega arith);
    })

-- `strcpy` into `n` bytes, more than none, that do not overlap the string: the copy is the string or,
-- when it is too long, its first `n - 1` bytes; a zero ends it; no byte outside the `n` is written.
pub strcpy_lem :
    (s t len n : ℕ) (mem : Memory)
    → 0 < n
    → (s + n ≤ t) ⊎ (t + len < s)
    → StringAt t len mem
    → CopiedString s t len n mem (strcpy s t n mem)
unfolding strcpy
strcpy_lem s t len zero mem some_room apart str = absurd (omega arith)
strcpy_lem s t len (suc left) mem some_room apart str =
    strcpy_from-CopiedString left s t len mem (omega arith) str
