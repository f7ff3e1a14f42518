-- ===== src/Tests/Pfs.antt =====
-- shared/pfs.c: an inode made and read over a cache that is an array of blocks.
use Prim.Native.Nat.{min}
use ngnfs_progs.Prelude.{ℕ, ◌≡◌, ◌==◌, if◌then◌else◌, refl, arith, [], take}
use ngnfs_progs.Prelude.Run.{Returns}
use ngnfs_progs.Prelude.Errno.{ok}
use ngnfs_progs.Btree.Layout.{BtreeBlock}
use ngnfs_progs.Txn.State.{BlockOps, block}
use ngnfs_progs.Pfs.Inode.{Inode, inode_size, inode_bytes, new_inode}
use ngnfs_progs.Pfs.Ops.{Buffers, State, mkfs_read_inode}
use ngnfs_progs.Pfs.RoundTrip.{Caches, mkfs-read_inode}

abbrev pub Blocks : Type 0
Blocks = ℕ → BtreeBlock

abbrev pub array : BlockOps Blocks
array = record {
  get = λ s bnr nbf. (block bnr, s);
  put = λ s bl. s;
  dirty_begin = λ s bs. (ok 0, s);
  dirty_end = λ s bs. s;
}

abbrev pub array_buffers : Buffers Blocks
array_buffers = record { buf = λ s b. s b; set_buf = λ s b bt. λ c. if c == b then bt else s c }

pub array-Caches : Caches array array_buffers (λ bnr. bnr)
array-Caches = record {
  found = λ s bnr nbf e. refl;
  found_buf = λ s bnr nbf b e. refl;
  begin = λ s bs. refl;
  begin_buf = λ s bs b. refl;
  end_buf = λ s bs b. refl;
  put_buf = λ s bl b. refl;
  stored = λ s b bt. ground arith;
}

abbrev pub zeros : State Blocks
zeros = record {
  cache = λ b. record {
    bnr = 0;
    nr_items = 0;
    total_free = 0;
    avail_free = 0;
    level = 0;
    mem = λ a. 0;
  };
  ret = ok 0;
  ninode = [];
}

-- Memory that an allocation returns.
abbrev pub old_memory : Inode
old_memory = record {
  ino = 7;
  gen = 7;
  size = 7;
  version = 7;
  nlink = 7;
  uid = 7;
  gid = 7;
  mode = 7;
  rdev = 7;
  flags = 7;
  atime_nsec = 7;
  ctime_nsec = 7;
  mtime_nsec = 7;
  crtime_nsec = 7;
}

mkfs-read_inode_example :
    Returns (mkfs_read_inode array array_buffers old_memory 1 2 1 1000 96 zeros) (λ r.
      (r.0 ≡ ok (min 96 inode_size))
      × (r.2.ninode ≡ take 96 (inode_bytes (new_inode old_memory 1 1000))))
mkfs-read_inode_example =
    mkfs-read_inode array array_buffers (λ bnr. bnr) array-Caches old_memory 1 2 1 1000 96 zeros
