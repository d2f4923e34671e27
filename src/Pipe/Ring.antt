-- ===== src/Pipe/Ring.antt =====
-- The ring of a pipe as a bounded queue.
use risc_v_os.Base.{
  ℕ, zero, suc, ◌+◌, ◌-◌, ◌%◌, ◌≤◌, ◌<◌, ◌≡◌, refl, ap, ap₂, ◌∙◌, List, [], ◌∷◌, ◌++◌, arith,
  length, true, false,
}
use risc_v_os.Base.Family.{update, update_self, update_ne}
use risc_v_os.Pipe.{Pipe, pipesize, u32_mod, is_empty, is_full, put, get}

-- Bytes written and not yet read, by the wrapped counters.
abbrev pub count : Pipe → ℕ
count p = (p.num_write + u32_mod - p.num_read) % u32_mod

pub record IsValid (p : Pipe) : Type 0 where
  pub read_in : p.num_read < u32_mod
  pub write_in : p.num_write < u32_mod
  pub bounded : count p ≤ pipesize

-- The `n` bytes from counter `r` on.
abbrev pub window : (ℕ → ℕ) → ℕ → ℕ → List ℕ
window b r zero = []
window b r (suc n) = b (r % pipesize) ∷ window b ((r + 1) % u32_mod) n

abbrev pub contents : Pipe → List ℕ
contents p = window p.bytes p.num_read (count p)

pub length-contents : (p : Pipe) → length (contents p) ≡ count p
length-contents p = go p.num_read (count p)
  where
    go : (r n : ℕ) → length (window p.bytes r n) ≡ n
    go r zero = refl
    go r (suc n) = ap suc (go ((r + 1) % u32_mod) n)

-- A write past a window leaves it alone.
window-update :
    (b : ℕ → ℕ) (v n r w : ℕ)
    → r < u32_mod
    → w ≡ (r + n) % u32_mod
    → n < pipesize
    → window (update b (w % pipesize) v) r (suc n) ≡ window b r n ++ (v ∷ [])
window-update b v zero r w h e lt =
    let q : w % pipesize ≡ r % pipesize = omega arith in rw (q, update_self)
window-update b v (suc n) r w h e lt =
    ap₂ ◌∷◌ (update_ne b (w % pipesize) (r % pipesize) v (omega arith))
      (window-update b v n ((r + 1) % u32_mod) w (omega arith) (omega arith) (omega arith))

pub count-put :
    (p : Pipe) (ch : ℕ) → IsValid p → count p < pipesize → count (put p ch) ≡ suc (count p)
unfolding put
count-put p ch v h = omega arith

-- Writing one byte to a pipe with room appends it.
pub contents-put :
    (p : Pipe) (ch : ℕ)
    → IsValid p
    → count p < pipesize
    → contents (put p ch) ≡ contents p ++ (ch ∷ [])
unfolding put
contents-put p ch v h =
    ap (window (put p ch).bytes p.num_read) (count-put p ch v h)
    ∙ window-update p.bytes ch (count p) p.num_read p.num_write v.read_in (omega arith) h

pub put-IsValid : (p : Pipe) (ch : ℕ) → IsValid p → count p < pipesize → IsValid (put p ch)
unfolding put
put-IsValid p ch v h = omega arith

-- Reading one byte from a pipe that is not empty removes the oldest.
pub contents-get :
    (p : Pipe) → IsValid p → 0 < count p → contents p ≡ (get p).0 ∷ contents (get p).1
unfolding get
contents-get p v h =
    ap (window p.bytes p.num_read) (let e : count p ≡ suc (count (get p).1) = omega arith in e)

pub get-IsValid : (p : Pipe) → IsValid p → 0 < count p → IsValid (get p).1
unfolding get
get-IsValid p v h = omega arith

pub count-get : (p : Pipe) → IsValid p → 0 < count p → count p ≡ suc (count (get p).1)
unfolding get
count-get p v h = omega arith

pub not-full : (p : Pipe) → IsValid p → count p < pipesize → is_full p ≡ false
not-full p v h = ground arith

pub not-empty : (p : Pipe) → IsValid p → 0 < count p → is_empty p ≡ false
not-empty p v h = ground arith

pub empty : (p : Pipe) → IsValid p → count p ≡ 0 → is_empty p ≡ true
empty p v h = ground arith

pub full : (p : Pipe) → IsValid p → count p ≡ pipesize → is_full p ≡ true
full p v h = ground arith
