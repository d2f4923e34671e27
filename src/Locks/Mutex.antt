-- ===== src/Locks/Mutex.antt =====
-- Several harts at one spinlock: `acquire_lock` and `release_lock` as interleaved memory accesses.
-- Each shared access of the two functions is one atomic step; `Phase` is where a hart stands in
-- them. The two stores that `is_holding` may race with, `lock->cpu = get_cpu_struct()` and
-- `lock->cpu = 0`, are steps of their own.
use risc_v_os.Base.{ℕ, ◌≡◌, ◌↔◌, refl, Bool, true, false, none, some, arith}
use risc_v_os.Base.Family.{update}
use risc_v_os.Locks.{Spinlock, initlock, holds}

pub data Phase : Type 0 where
  outside : Phase  -- before `acquire_lock`, or after `release_lock`
  spinning : Phase  -- past the `is_holding` test, in the test-and-set loop
  taken : Phase  -- the loop has ended, `lock->cpu` is not written yet
  critical : Phase  -- between `acquire_lock` and `release_lock`
  releasing : Phase  -- `lock->cpu = 0` is done, `__sync_lock_release` is not

pub record System : Type 0 where
  pub lock : Spinlock
  pub phase : ℕ → Phase

abbrev pub start : System
start = record { lock = initlock; phase = λ _. outside }

abbrev pub in_section : Phase → Bool
in_section outside = false
in_section spinning = false
in_section _ = true

abbrev pub goes : System → ℕ → Phase → Spinlock → System
goes s h p l = record { lock = l; phase = update s.phase h p }

pub data Step (s : System) : System → Type 0 where
  test : (h : ℕ) → s.phase h ≡ outside → holds h s.lock ≡ false → Step s (goes s h spinning s.lock)
  retry : (h : ℕ) → s.phase h ≡ spinning → s.lock.locked ≡ true → Step s (goes s h spinning s.lock)
  win :
      (h : ℕ)
      → s.phase h ≡ spinning
      → s.lock.locked ≡ false
      → Step s (goes s h taken (record { locked = true; cpu = s.lock.cpu }))
  own :
      (h : ℕ)
      → s.phase h ≡ taken
      → Step s (goes s h critical (record { locked = s.lock.locked; cpu = some h }))
  disown :
      (h : ℕ)
      → s.phase h ≡ critical
      → holds h s.lock ≡ true
      → Step s (goes s h releasing (record { locked = s.lock.locked; cpu = none }))
  free :
      (h : ℕ)
      → s.phase h ≡ releasing
      → Step s (goes s h outside (record { locked = false; cpu = s.lock.cpu }))

pub data Reach : System → Type 0 where
  begin : Reach start
  next : {s t : System} → Reach s → Step s t → Reach t

-- What holds of every reachable system.
pub record Inv (s : System) : Type 0 where
  pub unique : (i j : ℕ) → in_section (s.phase i) ≡ true → in_section (s.phase j) ≡ true → i ≡ j
  pub locked : (i : ℕ) → in_section (s.phase i) ≡ true → s.lock.locked ≡ true
  pub owner : (i : ℕ) → s.phase i ≡ critical → s.lock.cpu ≡ some i
  pub owned : (i : ℕ) → s.lock.cpu ≡ some i → s.phase i ≡ critical

Step-unique :
    {s t : System}
    → Step s t
    → Inv s
    → (i j : ℕ) → in_section (t.phase i) ≡ true
    → in_section (t.phase j) ≡ true
    → i ≡ j
unfolding update
Step-unique (test h p q) v i j a b = ground (arith, v.unique i j)
Step-unique (retry h p q) v i j a b = ground (arith, v.unique i j)
Step-unique (win h p q) v i j a b = ground (arith, v.unique i j, v.locked i, v.locked j)
Step-unique (own h p) v i j a b = ground (arith, v.unique i j, v.unique h j, v.unique i h)
Step-unique (disown h p q) v i j a b = ground (arith, v.unique i j, v.unique h j, v.unique i h)
Step-unique (free h p) v i j a b = ground (arith, v.unique i j)

Step-locked :
    {s t : System}
    → Step s t
    → Inv s
    → (i : ℕ) → in_section (t.phase i) ≡ true
    → t.lock.locked ≡ true
unfolding update
Step-locked (test h p q) v i a = ground (arith, v.locked i)
Step-locked (retry h p q) v i a = ground (arith, v.locked i)
Step-locked (win h p q) v i a = refl
Step-locked (own h p) v i a = ground (arith, v.locked i, v.locked h)
Step-locked (disown h p q) v i a = ground (arith, v.locked i, v.locked h)
Step-locked (free h p) v i a = ground (arith, v.unique i h)

Step-owner :
    {s t : System} → Step s t → Inv s → (i : ℕ) → t.phase i ≡ critical → t.lock.cpu ≡ some i
unfolding update
Step-owner (test h p q) v i a = ground (arith, v.owner i)
Step-owner (retry h p q) v i a = ground (arith, v.owner i)
Step-owner (win h p q) v i a = ground (arith, v.owner i)
Step-owner (own h p) v i a = ground (arith, v.unique i h, v.owner i)
Step-owner (disown h p q) v i a = ground (arith, v.unique i h, v.owner i)
Step-owner (free h p) v i a = ground (arith, v.owner i)

Step-owned :
    {s t : System} → Step s t → Inv s → (i : ℕ) → t.lock.cpu ≡ some i → t.phase i ≡ critical
unfolding update
Step-owned (test h p q) v i a = ground (arith, v.owned i)
Step-owned (retry h p q) v i a = ground (arith, v.owned i)
Step-owned (win h p q) v i a = ground (arith, v.owned i)
Step-owned (own h p) v i a = ground (arith, v.owned i)
Step-owned (disown h p q) v i a = ground (arith, v.owned i)
Step-owned (free h p) v i a = ground (arith, v.owned i)

pub Step-Inv : {s t : System} → Step s t → Inv s → Inv t
Step-Inv st v = record {
  unique = Step-unique st v;
  locked = Step-locked st v;
  owner = Step-owner st v;
  owned = Step-owned st v;
}

pub Reach-Inv : {s : System} → Reach s → Inv s
Reach-Inv begin = record {
  unique = λ i j a b. cc;
  locked = λ i a. cc;
  owner = λ i a. cc;
  owned = λ i a. cc;
}
Reach-Inv (next r st) = Step-Inv st (Reach-Inv r)

-- In every reachable system at most one hart is past the test-and-set loop and before the release
-- of the lock, however the harts interleave.
pub mutual_exclusion :
    {s : System} (i j : ℕ)
    → Reach s
    → in_section (s.phase i) ≡ true
    → in_section (s.phase j) ≡ true
    → i ≡ j
mutual_exclusion i j r = (Reach-Inv r).unique i j

-- In every reachable system `is_holding` is true for a hart exactly between the end of its
-- `acquire_lock` and the start of its `release_lock`: neither of the two panics of those functions
-- is met by harts that pair the calls.
pub holds-critical :
    {s : System} (i : ℕ) → Reach s → (holds i s.lock ≡ true) ↔ (s.phase i ≡ critical)
holds-critical {s} i r =
    (λ h. ground (arith, v.owned i), λ h. ground (arith, v.owner i, v.locked i))
  where
    v : Inv s
    v = Reach-Inv r
