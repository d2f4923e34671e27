-- ===== src/Cache/Tests.antt =====
-- Runs of the buffer cache, and the theorems at the cache that `buffer_init` leaves.
use risc_v_os.Base.{ℕ, ◌≡◌, ◌≢◌, ◌⊎◌, refl, true, false, [], ◌∷◌, ◌++◌, arith}
use risc_v_os.Base.Family.{update}
use risc_v_os.Base.Outcome.{done, panic}
use risc_v_os.Cache.{
  State, numbuf, initsleeplock, is_holding_sleeplock, buffer_init, buffer_read, buffer_release,
  put_buffer,
}
use risc_v_os.Cache.Chain.{backwards}
use risc_v_os.Cache.Get.{IsValid, NotCached, AllBusy}
use risc_v_os.Cache.Read.{HasBlock, buffer_read_lem}
use risc_v_os.Cache.Release.{pushed, let_go, buffer_init_lem, buffer_release_lem}

-- Memory as the boot code clears it; disk block `b` holds the byte `b` everywhere.
abbrev blank : State
blank = record {
  links = record { next = λ i. 0; prev = λ i. 0 };
  buffer = λ i. record {
    valid = false;
    dev = 0;
    blockno = 0;
    refcount = 0;
    lock = initsleeplock;
    bytes = λ k. 0;
  };
  disk = λ b k. b;
}

abbrev cache : State
cache = buffer_init blank

buffer_read_lem_example :
    ((i : ℕ) × (t : State) × (buffer_read 7 [] 1 50 cache ≡ done (i, t))
      × HasBlock 7 1 50 cache (pushed numbuf 0 []) i t)
    ⊎ ((buffer_read 7 [] 1 50 cache ≡ panic)
        × NotCached 1 50 cache (pushed numbuf 0 [])
        × AllBusy cache (backwards (pushed numbuf 0 [])))
unfolding buffer_init
buffer_read_lem_example =
    buffer_read_lem 7 1 50 cache (pushed numbuf 0 []) (buffer_init_lem blank (λ i. refl))
      (λ e. ground arith) (λ i h. refl) (λ i h w. ground arith)

-- A cache whose first buffer, number 29, is held by process 7 for block 50.
abbrev in_use : State
in_use =
    put_buffer 29
      (record {
        valid = true;
        dev = 1;
        blockno = 50;
        refcount = 1;
        lock = record { locked = true; process_id = 7 };
        bytes = λ k. 50;
      })
      cache

in_use-IsValid : IsValid in_use ([] ++ 29 ∷ pushed 29 0 [])
unfolding buffer_init update
in_use-IsValid =
    let v = buffer_init_lem blank (λ i. refl) in
    record {
      ring = v.ring;
      nodes = v.nodes;
      distinct = v.distinct;
      few = v.few;
      unique = λ i j mi mj some_dev ed eb. ground arith;
    }

buffer_release_lem_example :
    (is_holding_sleeplock 7 (in_use.buffer 29).lock ≡ false → buffer_release 7 29 in_use ≡ panic)
    × (is_holding_sleeplock 7 (in_use.buffer 29).lock ≡ true
        → (let_go 7 29 in_use).refcount ≢ 0
        → (t : State) × (buffer_release 7 29 in_use ≡ done t)
          × (t.buffer ≡ update in_use.buffer 29 (let_go 7 29 in_use))
          × IsValid t ([] ++ 29 ∷ pushed 29 0 []))
    × (is_holding_sleeplock 7 (in_use.buffer 29).lock ≡ true
        → (let_go 7 29 in_use).refcount ≡ 0
        → (t : State) × (buffer_release 7 29 in_use ≡ done t)
          × (t.buffer ≡ update in_use.buffer 29 (let_go 7 29 in_use))
          × IsValid t (29 ∷ ([] ++ pushed 29 0 [])))
buffer_release_lem_example = buffer_release_lem 7 29 in_use [] (pushed 29 0 []) in_use-IsValid
