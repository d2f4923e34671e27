-- ===== src/PathName/Element.antt =====
-- The element that `skip_elem` splits off, and the bytes that it writes.
use risc_v_os.Base.{
  ℕ, zero, suc, ◌+◌, ◌-◌, ◌≤◌, ◌<◌, ◌≡◌, ◌≢◌, ◌⊎◌, sym, ap, ◌∙◌, Bool, true, false, some, arith,
  ◌==◌, leb, dec_lt,
}
use risc_v_os.Base.Family.{update_self, update_ne}
use risc_v_os.Libc.{Memory, i32_half, memmove}
use risc_v_os.Libc.Move.{Copied, memmove_lem}
use risc_v_os.PathName.{dirsize, is_slash, in_element, skip_while, copy_name, skip_elem}

skip_while-some :
    (test : ℕ → Bool) (rounds n path : ℕ) (mem : Memory)
    → ((j : ℕ) → j < n → test (mem (path + j)) ≡ true)
    → test (mem (path + n)) ≡ false
    → n < rounds
    → skip_while test rounds path mem ≡ some (path + n)
unfolding skip_while
skip_while-some test zero n path mem pass stop h = absurd (omega arith)
skip_while-some test (suc rounds) zero path mem pass stop h =
    let at : path + 0 ≡ path = omega arith in
    let off : test (mem path) ≡ false = ap (λ p. test (mem p)) (sym at) ∙ stop in
    rw off (ap some (sym at))
skip_while-some test (suc rounds) (suc n) path mem pass stop h =
    let at : path + 0 ≡ path = omega arith in
    let next : path + 1 + n ≡ path + suc n = omega arith in
    let on : test (mem path) ≡ true = ap (λ p. test (mem p)) (sym at) ∙ pass 0 (omega arith) in
    let rest =
      skip_while-some test rounds n (path + 1) mem
        (λ j lt.
          let here : path + 1 + j ≡ path + suc j = omega arith in
          ap (λ p. test (mem p)) here ∙ pass (suc j) (omega arith))
        (ap (λ p. test (mem p)) next ∙ stop) (omega arith) in
    rw on (rest ∙ ap some next)

-- At `path` stand `a` slashes, an element of `len` bytes, `b` slashes and what follows them.
pub record Begins (path a len b : ℕ) (mem : Memory) : Type 0 where
  pub leading : (j : ℕ) → j < a → mem (path + j) ≡ 47
  pub some_byte : 0 < len
  pub body : (j : ℕ) → j < len → in_element (mem (path + a + j)) ≡ true
  pub ended : in_element (mem (path + a + len)) ≡ false
  pub trailing : (j : ℕ) → j < b → mem (path + a + len + j) ≡ 47
  pub last : mem (path + a + len + b) ≢ 47

-- The name is written below or above the path, less than 2^31 bytes away.
pub record Apart (path name size : ℕ) : Type 0 where
  pub sides : (name + dirsize < path) ⊎ (path + size < name)
  pub low : name < path + i32_half
  pub high : path + size < name + i32_half

-- The name that `skip_elem` leaves: at most 14 bytes of the element, ended by a zero when it is
-- shorter.
pub record Named (path a len name : ℕ) (mem mem' : Memory) : Type 0 where
  pub bytes : (j : ℕ) → j < len → j < dirsize → mem' (name + j) ≡ mem (path + a + j)
  pub ended : len < dirsize → mem' (name + len) ≡ 0
  pub above : path < name → (k : ℕ) → (k < name) ⊎ (name + dirsize ≤ k) → mem' k ≡ mem k
  pub below : name < path → (k : ℕ) → (k < name) ⊎ (name + dirsize < k) → mem' k ≡ mem k
  pub beyond : name < path → dirsize ≤ len → mem' (name + dirsize) ≡ mem (path + a + dirsize)

module _ (path a len b name : ℕ) (mem : Memory) (begins : Begins path a len b mem)
    (apart : Apart path name (a + len + b)) where
  move :
      (n : ℕ)
      → 0 < n
      → n ≤ len
      → n ≤ dirsize
      → (path < name → Copied name (path + a) n mem (memmove name (path + a) n mem))
        × (name < path → Copied name (path + a) (n + 1) mem (memmove name (path + a) n mem))
  move n some_byte few short =
      let (up, over, down) =
        memmove_lem name (path + a) n mem some_byte (omega arith) (omega (arith, apart.low))
          (omega (arith, apart.high)) in
      (λ h. up (omega (arith, apart.sides)), λ h. down (omega (arith, apart.sides)))

  copy_name-Named : Named path a len name mem (copy_name name (path + a) len mem)
  unfolding copy_name
  copy_name-Named = elim (dec_lt len dirsize) [
    | no long ↦
        let test : leb dirsize len ≡ true = ground arith in
        let (up, down) = move dirsize (omega arith) (omega arith) (omega arith) in
        rw test (record {
          bytes = λ j h hd. elim (dec_lt path name) [
            | yes lt ↦ (up lt).inside j hd
            | no ge ↦ (down (omega (arith, apart.sides))).inside j (omega arith)
          ];
          ended = λ h. absurd (omega arith);
          above = λ h k out. (up h).others k out;
          below = λ h k out. (down h).others k (omega arith);
          beyond = λ h l. (down h).inside dirsize (omega arith);
        })
    | yes short ↦
        let test : leb dirsize len ≡ false = ground arith in
        let (up, down) = move len begins.some_byte (omega arith) (omega arith) in
        let m = memmove name (path + a) len mem in
        rw test (record {
          bytes = λ j h hd.
              update_ne m (name + len) (name + j) 0 (omega arith) ∙ elim (dec_lt path name) [
                | yes lt ↦ (up lt).inside j h
                | no ge ↦ (down (omega (arith, apart.sides))).inside j (omega arith)
              ];
          ended = λ h. update_self m (name + len) 0;
          above =
              λ h k out. update_ne m (name + len) k 0 (omega arith) ∙ (up h).others k (omega arith);
          below = λ h k out.
              update_ne m (name + len) k 0 (omega arith) ∙ (down h).others k (omega arith);
          beyond = λ h l. absurd (omega arith);
        })
  ]

  -- The path is left as it was.
  path_kept :
      (k : ℕ) → path ≤ k → k ≤ path + (a + len + b) → copy_name name (path + a) len mem k ≡ mem k
  path_kept k lo hi = elim (dec_lt path name) [
    | yes lt ↦ copy_name-Named.above lt k (omega (arith, apart.sides))
    | no ge ↦ copy_name-Named.below (omega (arith, apart.sides)) k (omega (arith, apart.sides))
  ]

  -- `skip_elem` on a path that begins with slashes, an element and slashes, with enough rounds for
  -- each of its loops and a name that does not overlap the path: it returns the address after the
  -- second slashes; the name has the first 14 bytes of the element, and a zero after a shorter one.
  -- Nothing else is written when the name lies above the path; when it lies below, an element of 14
  -- bytes or more writes one byte past the 14.
  pub skip_elem_lem :
      (rounds : ℕ)
      → a + len + b < rounds
      → (mem' : Memory) × (skip_elem rounds path name mem ≡ some (path + a + len + b, mem'))
        × Named path a len name mem mem'
  unfolding skip_elem
  skip_elem_lem rounds enough =
      let m = copy_name name (path + a) len mem in
      let first_byte : path + a + 0 ≡ path + a = omega arith in
      let inside : in_element (mem (path + a)) ≡ true =
        ap (λ p. in_element (mem p)) (sym first_byte) ∙ begins.body 0 begins.some_byte in
      let full : (mem (path + a) == 0) ≡ false = ground arith in
      let no_slash : is_slash (mem (path + a)) ≡ false = ground arith in
      let s1 =
        skip_while-some is_slash rounds a path mem (λ j h. ground (arith, begins.leading j h))
          no_slash (omega arith) in
      let s2 =
        skip_while-some in_element rounds len (path + a) mem begins.body begins.ended
          (omega arith) in
      let size : path + a + len - (path + a) ≡ len = omega arith in
      let s3 =
        skip_while-some is_slash rounds b (path + a + len) m
          (λ j h.
            let same = path_kept (path + a + len + j) (omega arith) (omega arith) in
            ground (arith, same, begins.trailing j h))
          (let same = path_kept (path + a + len + b) (omega arith) (omega arith) in
            ground (arith, same, begins.last))
          (omega arith) in
      (
        m,
        rw (skip_elem, s1, full, s2, size, s3)
            (ap (λ n. some (path + a + len + b, copy_name name (path + a) n mem)) size),
        copy_name-Named,
      )
