-- ===== src/Cache/State.antt =====
-- struct ngnfs_block_info, struct ngnfs_block_set and struct ngnfs_block of shared/block.c. Sets
-- are numbered; a block is named by its number bnr, by which the hash table finds it.
use ngnfs_progs.Prelude.{ℕ, ◌==◌, if◌then◌else◌, Option, List, Bool}
use ngnfs_progs.Prelude.Int.{ℤ}
use ngnfs_progs.Prelude.Errno.{Errno}

abbrev pub dirty_limit : ℕ
dirty_limit = 1024

abbrev pub writeback_thresh : ℕ
writeback_thresh = 256

abbrev pub set_limit : ℕ
set_limit = 64

-- The bits BL_READING, BL_UPTODATE, BL_ERROR and BL_DIRTY are `reading` to `dirty`; `error` is the
-- errno that belongs to BL_ERROR; a page is a number.
pub record Block : Type 0 where
  pub set : Option ℕ
  pub refcount : ℤ
  pub reading : Bool
  pub uptodate : Bool
  pub error_bit : Bool
  pub dirty : Bool
  pub error : Option Errno
  pub page : ℕ

-- The bits SET_DIRTYING, SET_DIRTY and SET_WRITEBACK are `dirtying` to `writeback`.
pub record BlockSet : Type 0 where
  pub refcount : ℤ
  pub submitted_blocks : ℤ
  pub block_list : List ℕ
  pub dirty_seq : ℕ
  pub dirtying : Bool
  pub dirty : Bool
  pub writeback : Bool
  pub size : ℕ

-- An llist is a list whose head was added last. The two `queued` bits are those of the works:
-- queue_work sets the bit, and the bit is cleared before the work runs.
pub record BlockInfo : Type 0 where
  pub ht : ℕ → Option Block
  pub sets : ℕ → BlockSet
  pub queue_depth : ℕ
  pub nr_dirty : ℤ
  pub nr_writeback : ℤ
  pub nr_submitted : ℤ
  pub sync_waiters : ℕ
  pub dirty_seq : ℕ
  pub writeback_seq : ℕ
  pub sync_seq : ℕ
  pub submit_llist : List ℕ
  pub submit_list : List ℕ
  pub writeback_llist : List ℕ
  pub writeback_list : List ℕ
  pub submit_queued : Bool
  pub writeback_queued : Bool

abbrev pub set_block : BlockInfo → ℕ → Option Block → BlockInfo
set_block s bnr bl = record s { ht = λ b. if b == bnr then bl else s.ht b }

abbrev pub set_set : BlockInfo → ℕ → BlockSet → BlockInfo
set_set s id set = record s { sets = λ i. if i == id then set else s.sets i }
