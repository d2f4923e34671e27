-- ===== src/Cache.antt =====
-- src/kernel/bufcache.c: the buffer cache, a circular doubly linked list of buffers.
-- The buffers are 0 to 29 and `list_head` is 30; `next` and `prev` are the link fields. The functions
-- hold `buffer_cache.lock` around their accesses, which is left out here, as is the spinlock inside
-- a sleeplock (src/kernel/locks.c). The disk driver is `disk`, the blocks by their number. What other
-- threads do while a caller sleeps for a buffer is a list of events.
pub mod Chain
pub mod Get
pub mod Fill
pub mod Read
pub mod Release
mod Tests
use risc_v_os.Base.{
  ℕ, zero, suc, ◌+◌, ◌-◌, ◌%◌, ◌^◌, Bool, true, false, ◌&&◌, not, Option, none, some, List, [], ◌∷◌,
  ◌==◌, if◌then◌else◌,
}
use risc_v_os.Base.Outcome.{Outcome, done, panic, asleep, panic_if, ◌>>=◌, ◌>>◌}
use risc_v_os.Base.Family.{update}

abbrev pub numbuf : ℕ
numbuf = 30

abbrev pub list_head : ℕ
list_head = 30

abbrev pub u32_mod : ℕ
u32_mod = 2 ^ 32

pub record Sleeplock : Type 0 where
  pub locked : Bool
  pub process_id : ℕ

abbrev pub initsleeplock : Sleeplock
initsleeplock = record { locked = false; process_id = 0 }

-- `valid`, `dev`, `blockno`, `refcount`, the lock and the 1024 bytes of `struct buffer`.
pub record Buffer : Type 0 where
  pub valid : Bool
  pub dev : ℕ
  pub blockno : ℕ
  pub refcount : ℕ
  pub lock : Sleeplock
  pub bytes : ℕ → ℕ

pub record Links : Type 0 where
  pub next : ℕ → ℕ
  pub prev : ℕ → ℕ

pub record State : Type 0 where
  pub links : Links
  pub buffer : ℕ → Buffer
  pub disk : ℕ → ℕ → ℕ

abbrev pub put_buffer : ℕ → Buffer → State → State
put_buffer i b s = record s { buffer = update s.buffer i b }

-- `buf->next = list_head.next; buf->prev = &list_head; list_head.next->prev = buf;
-- list_head.next = buf;`
unfoldable pub push_front : ℕ → Links → Links
push_front i l =
    let l = record l { next = update l.next i (l.next list_head) } in
    let l = record l { prev = update l.prev i list_head } in
    let l = record l { prev = update l.prev (l.next list_head) i } in
    record l { next = update l.next list_head i }

-- `buf->next->prev = buf->prev; buf->prev->next = buf->next;`
unfoldable pub unlink : ℕ → Links → Links
unlink i l =
    let l = record l { prev = update l.prev (l.next i) (l.prev i) } in
    record l { next = update l.next (l.prev i) (l.next i) }

-- The loop of `buffer_init` from buffer `i` on.
unfoldable pub link_from : ℕ → ℕ → Links → Links
unfolding push_front
link_from zero i l = l
link_from (suc left) i l = link_from left (i + 1) (push_front i l)

unfoldable pub buffer_init : State → State
unfolding link_from
buffer_init s = record s {
  links = link_from numbuf 0 (record {
    next = update s.links.next list_head list_head;
    prev = update s.links.prev list_head list_head;
  });
  buffer = λ i. record (s.buffer i) { lock = initsleeplock };
}

-- A loop of `buffer_get` along one of the links, from node `cur` on: the first buffer that passes
-- the test. A loop that does not come back to `list_head` within its rounds runs for ever.
unfoldable pub find : (ℕ → Bool) → (ℕ → ℕ) → ℕ → ℕ → Outcome (Option ℕ)
find test link zero cur = asleep
find test link (suc rounds) cur =
    let rest = find test link rounds (link cur) in
    if cur == list_head then done none else if test cur then done (some cur) else rest

abbrev pub is_block : ℕ → ℕ → Buffer → Bool
is_block dev blockno b = (b.dev == dev) && (b.blockno == blockno)

abbrev pub is_idle : Buffer → Bool
is_idle b = b.refcount == 0

-- `acquire_sleeplock(&buf->lock)` by process `pid`.
unfoldable pub acquire_sleeplock : ℕ → List (State → State) → ℕ → State → Outcome State
acquire_sleeplock pid [] i s =
    if (s.buffer i).lock.locked
    then asleep
    else done
        (put_buffer i (record (s.buffer i) { lock = record { locked = true; process_id = pid } }) s)
acquire_sleeplock pid (others ∷ events) i s =
    let later = acquire_sleeplock pid events i (others s) in
    if (s.buffer i).lock.locked
    then later
    else done
        (put_buffer i (record (s.buffer i) { lock = record { locked = true; process_id = pid } }) s)

abbrev pub is_holding_sleeplock : ℕ → Sleeplock → Bool
is_holding_sleeplock pid lock = lock.locked && (lock.process_id == pid)

abbrev pub inc_buf_refcount : Buffer → Buffer
inc_buf_refcount b = record b { refcount = (b.refcount + 1) % u32_mod }

abbrev pub dec_buf_refcount : Buffer → Buffer
dec_buf_refcount b = record b { refcount = (b.refcount + u32_mod - 1) % u32_mod }

abbrev pub recycle : ℕ → ℕ → Buffer → Buffer
recycle dev blockno b = record b { valid = false; dev = dev; blockno = blockno; refcount = 1 }

-- The two loops, before the sleeplock: the buffer and the state.
unfoldable pub choose : ℕ → ℕ → State → Outcome (ℕ × State)
choose dev blockno s = do
  hit ←
      find (λ i. is_block dev blockno (s.buffer i)) s.links.next (numbuf + 1)
        (s.links.next list_head)
  elim hit [
    | some i ↦ done (i, put_buffer i (inc_buf_refcount (s.buffer i)) s)
    | none ↦ do
      idle ← find (λ i. is_idle (s.buffer i)) s.links.prev (numbuf + 1) (s.links.prev list_head)
      elim idle [
        | some i ↦ done (i, put_buffer i (recycle dev blockno (s.buffer i)) s)
        | none ↦ panic
      ]
  ]

unfoldable pub buffer_get : ℕ → List (State → State) → ℕ → ℕ → State → Outcome (ℕ × State)
unfolding choose
buffer_get pid events dev blockno s = do
  (i, s) ← choose dev blockno s
  s ← acquire_sleeplock pid events i s
  done (i, s)

unfoldable pub buffer_read : ℕ → List (State → State) → ℕ → ℕ → State → Outcome (ℕ × State)
unfolding buffer_get
buffer_read pid events dev blockno s = do
  (i, s) ← buffer_get pid events dev blockno s
  done (
    i,
    if (s.buffer i).valid
        then s
        else put_buffer i
            (record (s.buffer i) { bytes = s.disk (s.buffer i).blockno; valid = true }) s,
  )

unfoldable pub buffer_write : ℕ → ℕ → State → Outcome State
buffer_write pid i s = do
  panic_if (not (is_holding_sleeplock pid (s.buffer i).lock))
  done (record s { disk = update s.disk (s.buffer i).blockno (s.buffer i).bytes })

unfoldable pub buffer_release : ℕ → ℕ → State → Outcome State
unfolding unlink push_front
buffer_release pid i s = do
  panic_if (not (is_holding_sleeplock pid (s.buffer i).lock))
  let b = dec_buf_refcount (record (s.buffer i) { lock = initsleeplock })
  let t = put_buffer i b s
  done (if b.refcount == 0 then record t { links = push_front i (unlink i t.links) } else t)
