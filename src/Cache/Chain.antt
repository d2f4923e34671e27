-- ===== src/Cache/Chain.antt =====
-- A stretch of the doubly linked list as a list of nodes, and what the two link operations do to it.
use risc_v_os.Base.{
  ℕ, zero, suc, ◌<◌, ◌≡◌, ◌≢◌, inl, inr, refl, sym, ap, subst, ◌∙◌, Bool, true, false, Option, none,
  some, List, [], ◌∷◌, ◌++◌, arith, ◌==◌, if◌then◌else◌, length, length-append, Bool-cases,
}
use risc_v_os.Base.Outcome.{done}
use risc_v_os.Base.Family.{update, update_self, update_ne}
use risc_v_os.Cache.{Links, list_head, push_front, unlink, find}

-- From node `a` the links lead through `xs` to node `b` and back.
abbrev pub Chain : (ℕ → ℕ) → (ℕ → ℕ) → ℕ → List ℕ → ℕ → Type 0
Chain n p a [] b = (n a ≡ b) × (p b ≡ a)
Chain n p a (x ∷ xs) b = (n a ≡ x) × (p x ≡ a) × Chain n p x xs b

abbrev pub All : (ℕ → Type 0) → List ℕ → Type 0
All P [] = Unit
All P (x ∷ xs) = P x × All P xs

abbrev pub Distinct : List ℕ → Type 0
Distinct [] = Unit
Distinct (x ∷ xs) = All (λ k. k ≢ x) xs × Distinct xs

pub All-imp : (P Q : ℕ → Type 0) → ((k : ℕ) → P k → Q k) → (xs : List ℕ) → All P xs → All Q xs
All-imp P Q f [] h = tt
All-imp P Q f (x ∷ xs) (h, hs) = (f x h, All-imp P Q f xs hs)

pub All-both : (P Q : ℕ → Type 0) (xs : List ℕ) → All P xs → All Q xs → All (λ k. P k × Q k) xs
All-both P Q [] h g = tt
All-both P Q (x ∷ xs) (h, hs) (g, gs) = ((h, g), All-both P Q xs hs gs)

pub All-middle :
    (P : ℕ → Type 0) (ys zs : List ℕ) {x : ℕ} → All P (ys ++ x ∷ zs) → P x × All P (ys ++ zs)
All-middle P [] zs (h, hs) = (h, hs)
All-middle P (y ∷ ys) zs (h, hs) = let (here, rest) = All-middle P ys zs hs in (here, (h, rest))

pub All-split : (P : ℕ → Type 0) (ys zs : List ℕ) → All P (ys ++ zs) → All P ys × All P zs
All-split P [] zs h = (tt, h)
All-split P (y ∷ ys) zs (h, hs) = let (a, b) = All-split P ys zs hs in ((h, a), b)

pub Distinct-middle : (ys zs : List ℕ) (x : ℕ) → Distinct (ys ++ x ∷ zs) → Distinct (x ∷ (ys ++ zs))
Distinct-middle [] zs x d = d
Distinct-middle (y ∷ ys) zs x (h, d) =
    let (off, rest) = Distinct-middle ys zs x d in
    let (ne, others) = All-middle (λ k. k ≢ y) ys zs h in (((λ e. ne (sym e)), off), (others, rest))

-- Links that agree with the old ones along a chain make the same chain.
pub Chain-map :
    {n p n' p' : ℕ → ℕ} (P R : ℕ → Type 0) (a : ℕ) (xs : List ℕ) (b : ℕ)
    → P a
    → All (λ k. P k × R k) xs
    → R b
    → ((u v : ℕ) → P u → R v → n u ≡ v → p v ≡ u → (n' u ≡ v) × (p' v ≡ u))
    → Chain n p a xs b
    → Chain n' p' a xs b
Chain-map P R a [] b pa h rb keep (f, g) = keep a b pa rb f g
Chain-map P R a (x ∷ xs) b pa ((px, rx), h) rb keep (f, g, rest) =
    let (f', g') = keep a x pa rx f g in (f', g', Chain-map P R x xs b px h rb keep rest)

-- The neighbours of a node in a chain point back at it.
neighbours :
    (n p : ℕ → ℕ) (a : ℕ) (ys : List ℕ) (x : ℕ) (zs : List ℕ) (b : ℕ)
    → Chain n p a (ys ++ x ∷ zs) b
    → (n (p x) ≡ x) × (p (n x) ≡ x)
neighbours n p a [] x [] b (f, g, (h, k)) = (ap n g ∙ f, ap p h ∙ k)
neighbours n p a [] x (z ∷ zs) b (f, g, (h, k, rest)) = (ap n g ∙ f, ap p h ∙ k)
neighbours n p a (y ∷ ys) x zs b (f, g, rest) = neighbours n p y ys x zs b rest

-- A node of a chain without repetition is not its own successor.
not_next :
    (n p : ℕ → ℕ) (a : ℕ) (ys : List ℕ) (x : ℕ) (zs : List ℕ) (b : ℕ)
    → All (λ k. k ≢ x) (ys ++ zs)
    → b ≢ x
    → Chain n p a (ys ++ x ∷ zs) b
    → n x ≢ x
not_next n p a [] x [] b off nb (f, g, (h, k)) = λ e. nb (sym h ∙ e)
not_next n p a [] x (z ∷ zs) b (nz, off) nb (f, g, (h, k, rest)) = λ e. nz (sym h ∙ e)
not_next n p a (y ∷ ys) x zs b (ny, off) nb (f, g, rest) = not_next n p y ys x zs b off nb rest

module _ (n p : ℕ → ℕ) (x : ℕ) (back : n (p x) ≡ x) (forth : p (n x) ≡ x) where
  after_n : ℕ → ℕ
  after_n = update n (p x) (n x)

  after_p : ℕ → ℕ
  after_p = update p (n x) (p x)

  -- A link between two other nodes is not one of the two that change.
  kept_link : (u v : ℕ) → u ≢ x → v ≢ x → n u ≡ v → p v ≡ u → (after_n u ≡ v) × (after_p v ≡ u)
  unfolding after_n after_p
  kept_link u v nu nv f g = (
    update_ne n (p x) u (n x) (λ e. nv (sym f ∙ ap n (sym e) ∙ back)) ∙ f,
    update_ne p (n x) v (p x) (λ e. nu (sym g ∙ ap p (sym e) ∙ forth)) ∙ g,
  )

  removed :
      (a : ℕ) (ys zs : List ℕ) (b : ℕ)
      → a ≢ x
      → All (λ k. k ≢ x) (ys ++ zs)
      → b ≢ x
      → Chain n p a (ys ++ x ∷ zs) b
      → Chain after_n after_p a (ys ++ zs) b
  unfolding after_n after_p
  removed a [] [] b na off nb (f, g, (h, k)) = (
    ap (update n (p x) (n x)) (sym g) ∙ update_self n (p x) (n x) ∙ h,
    ap (update p (n x) (p x)) (sym h) ∙ update_self p (n x) (p x) ∙ g,
  )
  removed a [] (z ∷ zs) b na (nz, off) nb (f, g, (h, k, rest)) = (
    ap (update n (p x) (n x)) (sym g) ∙ update_self n (p x) (n x) ∙ h,
    ap (update p (n x) (p x)) (sym h) ∙ update_self p (n x) (p x) ∙ g,
    Chain-map (λ u. u ≢ x) (λ u. u ≢ x) z zs b nz (All-both (λ u. u ≢ x) (λ u. u ≢ x) zs off off) nb
        kept_link rest,
  )
  removed a (y ∷ ys) zs b na (ny, off) nb (f, g, rest) =
      let (f', g') = kept_link a y na ny f g in (f', g', removed y ys zs b ny off nb rest)

-- The nodes of the whole list.
abbrev pub Ring : Links → List ℕ → Type 0
Ring l xs = Chain l.next l.prev list_head xs list_head

pub unlink-Ring :
    (l : Links) (ys zs : List ℕ) (x : ℕ)
    → x ≢ list_head
    → All (λ k. k ≢ x) (ys ++ zs)
    → Ring l (ys ++ x ∷ zs)
    → Ring (unlink x l) (ys ++ zs)
unfolding unlink after_n after_p
unlink-Ring l ys zs x nh off c =
    let (back, forth) = neighbours l.next l.prev list_head ys x zs list_head c in
    let nb : list_head ≢ x = λ e. nh (sym e) in
    let own = not_next l.next l.prev list_head ys x zs list_head off nb c in
    subst
      (λ q.
        Chain (update l.next q (l.next x)) (update l.prev (l.next x) (l.prev x)) list_head
          (ys ++ zs) list_head)
      (sym (update_ne l.prev (l.next x) x (l.prev x) own))
      (removed l.next l.prev x back forth list_head ys zs list_head nb off nb c)

pub push_front-Ring :
    (l : Links) (xs : List ℕ) (x : ℕ)
    → x ≢ list_head
    → All (λ k. (k ≢ x) × (k ≢ list_head)) xs
    → Ring l xs
    → Ring (push_front x l) (x ∷ xs)
unfolding push_front update
push_front-Ring l [] x nh off (f, g) = (ground arith, ground arith, (ground arith, ground arith))
push_front-Ring l (y ∷ ys) x nh ((ny, nyh), off) (f, g, rest) = (
  ground arith,
  ground arith,
  (
    ground arith,
    ground arith,
    Chain-map (λ u. (u ≢ x) × (u ≢ list_head)) (λ v. v ≢ x) y ys list_head (ny, nyh)
        (All-imp (λ k. (k ≢ x) × (k ≢ list_head)) (λ k. ((k ≢ x) × (k ≢ list_head)) × (k ≢ x))
          (λ k h. (h, h.0)) ys off)
        (λ e. nh (sym e))
        (λ u v (nx, nuh) nv e e'.
          let far : v ≢ y = λ q. nuh (sym e' ∙ ap l.prev q ∙ g) in (ground arith, ground arith))
        rest,
  ),
)

-- A loop of `buffer_get` along a chain finds the first node that passes the test.
abbrev pub first : (ℕ → Bool) → List ℕ → Option ℕ
first test [] = none
first test (x ∷ xs) = if test x then some x else first test xs

pub find-first :
    (n p : ℕ → ℕ) (test : ℕ → Bool) (rounds a : ℕ) (xs : List ℕ)
    → Chain n p a xs list_head
    → All (λ k. k ≢ list_head) xs
    → length xs < rounds
    → find test n rounds (n a) ≡ done (first test xs)
unfolding find
find-first n p test zero a xs c off h = absurd (omega arith)
find-first n p test (suc rounds) a [] (f, g) off h =
    let stop : (n a == list_head) ≡ true = ground arith in rw stop refl
find-first n p test (suc rounds) a (x ∷ xs) (f, g, rest) (nh, off) h =
    let go : (x == list_head) ≡ false = ground arith in
    let later = find-first n p test rounds x xs rest off (omega arith) in
    ap (find test n (suc rounds)) f
    ∙ elim (Bool-cases (test x)) [ inl hit ↦ rw (go, hit) refl | inr miss ↦ rw (go, miss) later ]

-- The list read backwards.
abbrev pub backwards : List ℕ → List ℕ
backwards [] = []
backwards (x ∷ xs) = backwards xs ++ x ∷ []

Chain-snoc :
    (n p : ℕ → ℕ) (a : ℕ) (xs : List ℕ) (x b : ℕ)
    → Chain n p a xs x
    → n x ≡ b
    → p b ≡ x
    → Chain n p a (xs ++ x ∷ []) b
Chain-snoc n p a [] x b (f, g) e e' = (f, g, (e, e'))
Chain-snoc n p a (y ∷ ys) x b (f, g, rest) e e' = (f, g, Chain-snoc n p y ys x b rest e e')

pub Chain-backwards :
    (n p : ℕ → ℕ) (a : ℕ) (xs : List ℕ) (b : ℕ) → Chain n p a xs b → Chain p n b (backwards xs) a
Chain-backwards n p a [] b (f, g) = (g, f)
Chain-backwards n p a (x ∷ xs) b (f, g, rest) =
    Chain-snoc p n b (backwards xs) x a (Chain-backwards n p x xs b rest) g f

pub All-backwards : (P : ℕ → Type 0) (xs : List ℕ) → All P xs → All P (backwards xs)
All-backwards P [] h = tt
All-backwards P (x ∷ xs) (h, hs) = All-append (backwards xs) (All-backwards P xs hs)
  where
    All-append : (ys : List ℕ) → All P ys → All P (ys ++ x ∷ [])
    All-append [] g = (h, tt)
    All-append (y ∷ ys) (g, gs) = (g, All-append ys gs)

pub length-backwards : (xs : List ℕ) → length (backwards xs) ≡ length xs
length-backwards [] = refl
length-backwards (x ∷ xs) =
    omega (arith, length-append (backwards xs) (x ∷ []), length-backwards xs)

-- What passes or fails the test, by the result of the search.
pub first-some :
    (test : ℕ → Bool) (P : ℕ → Type 0) (xs : List ℕ) (i : ℕ)
    → All P xs
    → first test xs ≡ some i
    → (test i ≡ true) × P i
first-some test P [] i h e = cc
first-some test P (x ∷ xs) i (h, hs) e = elim (Bool-cases (test x)) [
  | inl hit ↦
      let found : some x ≡ some i = rw hit refl ∙ e in
      let same : x ≡ i = cc in (ap test (sym same) ∙ hit, subst P same h)
  | inr miss ↦ first-some test P xs i hs (rw miss refl ∙ e)
]

pub first-none :
    (test : ℕ → Bool) (xs : List ℕ) → first test xs ≡ none → All (λ k. test k ≡ false) xs
first-none test [] e = tt
first-none test (x ∷ xs) e = elim (Bool-cases (test x)) [
  | inl hit ↦ let found : some x ≡ none = rw hit refl ∙ e in cc
  | inr miss ↦ (miss, first-none test xs (rw miss refl ∙ e))
]
