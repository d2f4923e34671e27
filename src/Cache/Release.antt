-- ===== src/Cache/Release.antt =====
-- `buffer_init` and `buffer_release`: the list that they leave.
use risc_v_os.Base.{
  ℕ, zero, suc, ◌+◌, ◌≤◌, ◌<◌, ◌≡◌, ◌≢◌, inl, inr, refl, sym, ap, subst, ◌∙◌, true, false, List, [],
  ◌∷◌, ◌++◌, arith, ◌==◌, ℕ_discrete, length, length-append,
}
use risc_v_os.Base.Outcome.{done, panic}
use risc_v_os.Base.Family.{update, update_self, update_ne}
use risc_v_os.Cache.{
  Links, State, Buffer, numbuf, list_head, initsleeplock, dec_buf_refcount, is_holding_sleeplock,
  push_front, unlink, link_from, buffer_init, buffer_release,
}
use risc_v_os.Cache.Chain.{
  All, All-imp, All-both, All-middle, Distinct, Distinct-middle, Ring, unlink-Ring, push_front-Ring,
}
use risc_v_os.Cache.Get.{Member, Unique, IsValid}

-- The buffers from `i` on, `left` of them, each put before the list.
abbrev pub pushed : ℕ → ℕ → List ℕ → List ℕ
pushed zero i xs = xs
pushed (suc left) i xs = pushed left (i + 1) (i ∷ xs)

-- What holds of the list while `buffer_init` builds it, with `i` buffers linked.
record Built (i : ℕ) (l : Links) (xs : List ℕ) : Type 0 where
  pub ring : Ring l xs
  pub nodes : All (λ k. k < i) xs
  pub distinct : Distinct xs
  pub size : length xs ≡ i

link_from-Built :
    (left i : ℕ) (l : Links) (xs : List ℕ)
    → i + left ≤ numbuf
    → Built i l xs
    → Built (i + left) (link_from left i l) (pushed left i xs)
unfolding link_from
link_from-Built zero i l xs h b = subst (λ n. Built n l xs) (omega arith) b
link_from-Built (suc left) i l xs h b =
    let off : All (λ k. (k ≢ i) × (k ≢ list_head)) xs =
      All-imp (λ k. k < i) (λ k. (k ≢ i) × (k ≢ list_head)) (λ k lt. (omega arith, omega arith)) xs
        b.nodes in
    subst (λ n. Built n (link_from left (i + 1) (push_front i l)) (pushed left (i + 1) (i ∷ xs)))
      (omega arith)
      (link_from-Built left (i + 1) (push_front i l) (i ∷ xs) (omega arith) (record {
        ring = push_front-Ring l xs i (omega arith) off b.ring;
        nodes =
            (omega arith, All-imp (λ k. k < i) (λ k. k < i + 1) (λ k lt. omega arith) xs b.nodes);
        distinct = (All-imp (λ k. k < i) (λ k. k ≢ i) (λ k lt. omega arith) xs b.nodes, b.distinct);
        size = omega (arith, b.size);
      }))

-- After `buffer_init` over buffers that have had no block the list is whole: the links lead through
-- 30 different buffers and back.
pub buffer_init_lem :
    (s : State) → ((i : ℕ) → (s.buffer i).dev ≡ 0) → IsValid (buffer_init s) (pushed numbuf 0 [])
unfolding buffer_init
buffer_init_lem s blank =
    let b =
      link_from-Built numbuf 0
        (record {
          next = update s.links.next list_head list_head;
          prev = update s.links.prev list_head list_head;
        })
        [] (omega arith)
        (record {
          ring = (
            update_self s.links.next list_head list_head,
            update_self s.links.prev list_head list_head,
          );
          nodes = tt;
          distinct = tt;
          size = refl;
        }) in
    record {
      ring = b.ring;
      nodes = b.nodes;
      distinct = b.distinct;
      few = omega arith;
      unique = λ i j mi mj some_dev ed eb. absurd (some_dev (blank i));
    }

Member-middle : (ys zs : List ℕ) (x k : ℕ) → Member k (x ∷ (ys ++ zs)) → Member k (ys ++ x ∷ zs)
Member-middle [] zs x k m = m
Member-middle (y ∷ ys) zs x k (inl e) = inr (Member-middle ys zs x k (inl e))
Member-middle (y ∷ ys) zs x k (inr (inl e)) = inl e
Member-middle (y ∷ ys) zs x k (inr (inr m)) = inr (Member-middle ys zs x k (inr m))

length-middle : (ys zs : List ℕ) (x : ℕ) → length (x ∷ (ys ++ zs)) ≡ length (ys ++ x ∷ zs)
length-middle ys zs x = omega (arith, length-append ys zs, length-append ys (x ∷ zs))

module _ (pid i : ℕ) (s : State) where
  -- Buffer `i`, unlocked, with one reference less.
  abbrev pub let_go : Buffer
  let_go = dec_buf_refcount (record (s.buffer i) { lock = initsleeplock })

  same_names :
      (j : ℕ)
      → ((update s.buffer i let_go j).dev ≡ (s.buffer j).dev)
        × ((update s.buffer i let_go j).blockno ≡ (s.buffer j).blockno)
  unfolding update
  same_names j = elim (ℕ_discrete i j) [
    | yes e ↦
        subst
          (λ k.
            ((update s.buffer i let_go k).dev ≡ (s.buffer k).dev)
            × ((update s.buffer i let_go k).blockno ≡ (s.buffer k).blockno))
          e
          (
            ap (λ (b : Buffer). b.dev) (update_self s.buffer i let_go),
            ap (λ (b : Buffer). b.blockno) (update_self s.buffer i let_go),
          )
    | no ne ↦ (
      ap (λ (b : Buffer). b.dev) (update_ne s.buffer i j let_go ne),
      ap (λ (b : Buffer). b.blockno) (update_ne s.buffer i j let_go ne),
    )
  ]

  Unique-let_go :
      (xs zs : List ℕ)
      → ((k : ℕ) → Member k zs → Member k xs)
      → Unique s.buffer xs
      → Unique (update s.buffer i let_go) zs
  Unique-let_go xs zs sub u j k mj mk some_dev ed eb =
      let (dj, bj) = same_names j in
      let (dk, bk) = same_names k in
      u j k (sub j mj) (sub k mk) (λ e. some_dev (dj ∙ e)) (sym dj ∙ ed ∙ dk) (sym bj ∙ eb ∙ bk)

  moved :
      (ys zs : List ℕ)
      → IsValid s (ys ++ i ∷ zs)
      → IsValid
          (record s { buffer = update s.buffer i let_go; links = push_front i (unlink i s.links) })
          (i ∷ (ys ++ zs))
  moved ys zs v =
      let (off, distinct) = Distinct-middle ys zs i v.distinct in
      let (low, nodes) = All-middle (λ k. k < numbuf) ys zs v.nodes in
      let below : All (λ k. k ≢ list_head) (ys ++ zs) =
        All-imp (λ k. k < numbuf) (λ k. k ≢ list_head) (λ k h. omega arith) (ys ++ zs) nodes in
      record {
        ring =
            push_front-Ring (unlink i s.links) (ys ++ zs) i (omega arith)
              (All-both (λ k. k ≢ i) (λ k. k ≢ list_head) (ys ++ zs) off below)
              (unlink-Ring s.links ys zs i (omega arith) off v.ring);
        nodes = (low, nodes);
        distinct = (off, distinct);
        few = omega (arith, v.few, length-middle ys zs i);
        unique =
            Unique-let_go (ys ++ i ∷ zs) (i ∷ (ys ++ zs)) (λ k. Member-middle ys zs i k) v.unique;
      }

  -- `buffer_release` panics when the caller does not hold the buffer. Otherwise it unlocks the buffer
  -- and takes one reference away; a buffer that has references left stays where it is in the list,
  -- and one that has none becomes the first of it, the others keeping their order. The list stays
  -- whole, and no block gets a second buffer.
  pub buffer_release_lem :
      (ys zs : List ℕ)
      → IsValid s (ys ++ i ∷ zs)
      → (is_holding_sleeplock pid (s.buffer i).lock ≡ false → buffer_release pid i s ≡ panic)
        × (is_holding_sleeplock pid (s.buffer i).lock ≡ true
            → let_go.refcount ≢ 0
            → (t : State) × (buffer_release pid i s ≡ done t)
              × (t.buffer ≡ update s.buffer i let_go)
              × IsValid t (ys ++ i ∷ zs))
        × (is_holding_sleeplock pid (s.buffer i).lock ≡ true
            → let_go.refcount ≡ 0
            → (t : State) × (buffer_release pid i s ≡ done t)
              × (t.buffer ≡ update s.buffer i let_go)
              × IsValid t (i ∷ (ys ++ zs)))
  unfolding buffer_release
  buffer_release_lem ys zs v = (
    λ h. rw h refl,
    λ h more.
        let left : (let_go.refcount == 0) ≡ false = ground arith in
        (
          record s { buffer = update s.buffer i let_go },
          rw (h, left) refl,
          refl,
          record {
            ring = v.ring;
            nodes = v.nodes;
            distinct = v.distinct;
            few = v.few;
            unique = Unique-let_go (ys ++ i ∷ zs) (ys ++ i ∷ zs) (λ k m. m) v.unique;
          },
        ),
    λ h none_left.
        let gone : (let_go.refcount == 0) ≡ true = ground arith in
        (
          record s { buffer = update s.buffer i let_go; links = push_front i (unlink i s.links) },
          rw (h, gone) refl,
          refl,
          moved ys zs v,
        ),
  )
