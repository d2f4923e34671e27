-- ===== src/Directory/Tests.antt =====
-- A directory of two entries, the first of them free.
use risc_v_os.Base.{ℕ, ◌≡◌, inl, refl, false, true, arith, ◌==◌, if◌then◌else◌}
use risc_v_os.Cache.{initsleeplock}
use risc_v_os.Libc.{Memory, strncmp, strncmp_from}
use risc_v_os.Inode.{State}
use risc_v_os.Directory.{bytes_at}
use risc_v_os.Directory.Lookup.{IsReadable, Result, has_name, dir_lookup_lem}

-- Entry 1 is inode 9 with the name "a".
abbrev block_46 : ℕ → ℕ
block_46 k = if k == 16 then 9 else if k == 18 then 97 else 0

abbrev system : State
system = record {
  blocks = record {
    size = 1000;
    bitmap_start = 45;
    bytes = λ n k. if n == 46 then block_46 k else 255;
    log = record {
      log = record {
        start = 2;
        size = 30;
        commit = false;
        num_syscalls = 1;
        count = 0;
        block = λ j. 0;
      };
      cache = λ b i. 0;
      disk = λ b i. 0;
      pins = λ b. 0;
    };
  };
  words = λ n k. 0;
  inodes = λ n k. record {
    type = 1;
    major_dev_num = 0;
    minor_dev_num = 0;
    num_link = 1;
    size = 32;
    addresses = λ k. if k == 0 then 46 else 0;
  };
  table = λ i. record {
    dev = 1;
    inode_num = 1;
    refcount = if i == 0 then 1 else 0;
    lock = initsleeplock;
    valid = true;
    copy = record {
      type = 1;
      major_dev_num = 0;
      minor_dev_num = 0;
      num_link = 1;
      size = 32;
      addresses = λ k. if k == 0 then 46 else 0;
    };
  };
  num_inodes = 200;
  inode_start = 32;
  buffers_below = true;
  after_block = λ n. 0;
}

abbrev name_a : Memory
name_a p = if p == 500 then 97 else 0

system-IsReadable : IsReadable 600 0 500 system 2
system-IsReadable = record {
  whole = record { bound = omega arith; present = λ k h e. ground arith };
  counted = refl;
  apart = inl (omega arith);
}

second_matches : has_name 0 system (bytes_at 500 name_a) 1 ≡ true
unfolding strncmp strncmp_from
second_matches = refl

dir_lookup_lem_example : Result 600 0 500 system 2 name_a
dir_lookup_lem_example = dir_lookup_lem 600 0 500 system 2 name_a refl system-IsReadable
