-- ===== src/Base/Outcome.antt =====
-- How a kernel routine ends: it returns, it calls `panic` (which prints and then loops for
-- ever), its thread stays asleep or spinning under the events that it is given, or it reads or
-- writes outside the object that it works on.
use mathlib.Core.Path.{◌≡◌, refl}
use mathlib.Core.Bool.{Bool, true, false}

pub data Outcome {ℓ} (A : Type ℓ) : Type ℓ where
  done : A → Outcome A
  panic : Outcome A
  asleep : Outcome A
  fault : Outcome A

infixl 5 ◌>>=◌ ◌>>◌
abbrev pub ◌>>=◌ {ℓ κ} : {A : Type ℓ} {B : Type κ} → Outcome A → (A → Outcome B) → Outcome B
done a >>= f = f a
panic >>= f = panic
asleep >>= f = asleep
fault >>= f = fault

abbrev pub ◌>>◌ {ℓ} : {B : Type ℓ} → Outcome (Unit {0}) → Outcome B → Outcome B
m >> k = m >>= λ _. k

-- `if (bad) panic(…);`
abbrev pub panic_if : Bool → Outcome (Unit {0})
panic_if true = panic
panic_if false = done tt

pub >>=-eq-done {ℓ κ} :
    {A : Type ℓ} {B : Type κ} (m : Outcome A) (f : A → Outcome B) {b : B}
    → (m >>= f) ≡ done b
    → (a : A) × (m ≡ done a) × (f a ≡ done b)
>>=-eq-done (done a) f h = (a, refl, h)
>>=-eq-done panic f h = cc
>>=-eq-done asleep f h = cc
>>=-eq-done fault f h = cc

pub in_turn {ℓ κ μ} :
    {A : Type ℓ} {B : Type κ} {C : Type μ} (m : Outcome A) (f : A → Outcome B) (g : B → Outcome C)
    → (m >>= λ a. f a >>= g) ≡ ((m >>= f) >>= g)
in_turn (done a) f g = refl
in_turn panic f g = refl
in_turn asleep f g = refl
in_turn fault f g = refl

-- A step that always returns adds no panic.
pub >>=-done-panic {ℓ κ} :
    {A : Type ℓ} {B : Type κ} (m : Outcome A) (f : A → B)
    → (m >>= λ a. done (f a)) ≡ panic
    → m ≡ panic
>>=-done-panic (done a) f h = cc
>>=-done-panic panic f h = refl
>>=-done-panic asleep f h = cc
>>=-done-panic fault f h = cc
