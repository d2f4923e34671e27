-- ===== src/Paging/Drawn.antt =====
-- Runs that come to a call of `kalloc` that does not return.
use risc_v_os.Base.{ℕ, zero, suc, ◌≡◌, ◌≢◌, ◌⊎◌, inl, inr, refl, sym, ap, subst}
use risc_v_os.Base.Outcome.{Outcome, done, panic, asleep, fault, ◌>>=◌}
use risc_v_os.Paging.{Allocator}

module _ {A : Type 0} (al : Allocator A) where
  -- At most `k` calls of `kalloc`, each of which returns, lead the allocator from `h` to `e`.
  unfoldable pub Draws : ℕ → A → A → Type 0
  Draws zero h e = h ≡ e
  Draws (suc k) h e =
      (h ≡ e) ⊎ ((page : ℕ) × (h' : A) × (al.kalloc h ≡ done (page, h')) × Draws k h' e)

  pub Draws-more : (k : ℕ) (h e : A) → Draws k h e → Draws (suc k) h e
  unfolding Draws
  Draws-more zero h e d = inl d
  Draws-more (suc k) h e (inl same) = inl same
  Draws-more (suc k) h e (inr (page, h', got, d)) = inr (page, h', got, Draws-more k h' e d)

  pub Draws-join : (k : ℕ) (h h' e : A) → Draws 1 h h' → Draws k h' e → Draws (suc k) h e
  unfolding Draws
  Draws-join k h h' e (inl same) d = subst (λ x. Draws (suc k) x e) (sym same) (Draws-more k h' e d)
  Draws-join k h h' e (inr (page, x, got, same)) d =
      inr (page, x, got, subst (λ y. Draws k y e) (sym same) d)

  -- A run that starts with the allocator at `h` has come, by at most `k` calls of `kalloc`, to one
  -- that does not return, and the run ends as that call does.
  pub record Exhausted {B : Type 0} (k : ℕ) (h : A) (run : Outcome B) : Type 0 where
    pub at : A
    pub drawn : Draws k h at
    pub refused : (page : ℕ) (h' : A) → al.kalloc at ≢ done (page, h')
    pub ends : run ≡ (al.kalloc at >>= λ _. fault)

  pub Draws-any : (k : ℕ) (h e : A) → Draws 0 h e → Draws k h e
  unfolding Draws
  Draws-any zero h e d = d
  Draws-any (suc k) h e d = inl d

  pub refusal :
      {B : Type 0} (m : Outcome (ℕ × A)) (f g : ℕ × A → Outcome B)
      → ((page : ℕ) (h' : A) → m ≢ done (page, h'))
      → (m >>= f) ≡ (m >>= g)
  refusal (done (page, h)) f g never = absurd (never page h refl)
  refusal panic f g never = refl
  refusal asleep f g never = refl
  refusal fault f g never = refl

  -- What follows a step that ends as a call of `kalloc` that does not return ends so too.
  pub ends_bind :
      {B C : Type 0} (run : Outcome B) (f : B → Outcome C) (m : Outcome (ℕ × A))
      → ((page : ℕ) (h' : A) → m ≢ done (page, h'))
      → run ≡ (m >>= λ _. fault)
      → (run >>= f) ≡ (m >>= λ _. fault)
  ends_bind run f (done (page, h)) never e = absurd (never page h refl)
  ends_bind run f panic never e = ap (λ r. r >>= f) e
  ends_bind run f asleep never e = ap (λ r. r >>= f) e
  ends_bind run f fault never e = ap (λ r. r >>= f) e
