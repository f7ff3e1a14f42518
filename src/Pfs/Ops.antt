-- ===== src/Pfs/Ops.antt =====
-- ngnfs_pfs_mkfs and ngnfs_pfs_read_inode of shared/pfs.c, over transactions.
use ngnfs_progs.Prelude.{ℕ, ◌==◌, if◌then◌else◌, Option, none, some, List, []}
use ngnfs_progs.Prelude.Run.{Run, done, ◌>>=◌}
use ngnfs_progs.Prelude.Errno.{Ret, ok, err, enomem, or_else}
use ngnfs_progs.Btree.Keys.{Bytes}
use ngnfs_progs.Btree.Layout.{BtreeBlock}
use ngnfs_progs.Txn.State.{BlockOps, TransactionBlock, Transaction, Callbacks, nbf_read, nbf_write}
use ngnfs_progs.Txn.Execute.{
  ngnfs_txn_init, ngnfs_txn_add_block, ngnfs_txn_execute, ngnfs_txn_destroy,
}
use ngnfs_progs.Pfs.Inode.{Inode, new_inode, inode_bytes, commit_mkfs, prepare_read_inode}

-- ngnfs_block_buf, for reading and for writing.
pub record Buffers (S : Type 0) : Type 0 where
  pub buf : S → ℕ → BtreeBlock
  pub set_buf : S → ℕ → BtreeBlock → S

-- The cache, with `ret` of struct read_inode_args and the caller's buffer.
pub record State (S : Type 0) : Type 0 where
  pub cache : S
  pub ret : Ret
  pub ninode : Bytes

-- The prepare functions are prepare_read_inode for a buffer size, the commit functions are
-- commit_mkfs for an inode.
abbrev pub PfsBlock : Type 0
PfsBlock = TransactionBlock ℕ Bytes

abbrev pub Txn : Type 0
Txn = Transaction ℕ Bytes

-- The inode number is the block number.
abbrev pub map_iblock : ℕ → Ret × ℕ
map_iblock ino = (ok 0, ino)

module _ {S : Type 0} (cache : BlockOps S) (buffers : Buffers S) where
  abbrev pub ops : BlockOps (State S)
  ops = record {
    get = λ s bnr nbf. let (r, c) = cache.get s.cache bnr nbf in (r, record s { cache = c });
    put = λ s bl. record s { cache = cache.put s.cache bl };
    dirty_begin = λ s bs. let (r, c) = cache.dirty_begin s.cache bs in (r, record s { cache = c });
    dirty_end = λ s bs. record s { cache = cache.dirty_end s.cache bs };
  }

  abbrev pub run_prepare : ℕ → State S → ℕ → Run (Ret × List PfsBlock × State S)
  run_prepare size s bl = do
    r ← prepare_read_inode size (buffers.buf s.cache bl)
    done (ok 0, [], record s { ret = r.0; ninode = r.1 })

  abbrev pub run_commit : Bytes → State S → ℕ → Run (State S)
  run_commit ninode s bl = do
    bt ← commit_mkfs ninode (buffers.buf s.cache bl)
    done (record s { cache = buffers.set_buf s.cache bl bt })

  abbrev pub callbacks : Callbacks (State S) ℕ Bytes
  callbacks = record { prepare = run_prepare; commit = run_commit }

  -- `r ?: next`: a result other than 0 is returned, with the transaction and the state as they are.
  abbrev pub or_next : Ret → Txn → State S → Run (Ret × Txn × State S) → Run (Ret × Txn × State S)
  or_next (err e) txn s next = done (err e, txn, s)
  or_next (ok n) txn s next = if n == 0 then next else done (ok n, txn, s)

  -- map_iblock(&bnr, ino) ?: ngnfs_txn_add_block(nfi, txn, bnr, ...) ?: ngnfs_txn_execute(nfi, txn)
  abbrev pub add_execute :
      ℕ → Option ℕ → Txn → ℕ → ℕ → Option ℕ → Option Bytes → State S → Run (Ret × Txn × State S)
  add_execute fuel memory txn ino nbf prepare commit s =
      let (mapped, bnr) = map_iblock ino in
      let (added, txn1) = ngnfs_txn_add_block memory txn bnr nbf prepare commit in
      or_next mapped txn s (or_next added txn1 s (ngnfs_txn_execute ops callbacks fuel txn1 s))

  -- `inode_memory` and `memory` are what the two allocations return: the contents of the inode's
  -- memory, and the address of the transaction's block.
  unfoldable pub ngnfs_pfs_mkfs :
      ℕ → Option Inode → Option ℕ → Txn → ℕ → ℕ → State S → Run (Ret × Txn × State S)
  ngnfs_pfs_mkfs fuel none memory txn root_ino nsec s = done (err enomem, txn, s)
  ngnfs_pfs_mkfs fuel (some inode_memory) memory txn root_ino nsec s =
      add_execute fuel memory txn root_ino nbf_write none
        (some (inode_bytes (new_inode inode_memory root_ino nsec))) s

  unfoldable pub ngnfs_pfs_read_inode :
      ℕ → Option ℕ → Txn → ℕ → ℕ → State S → Run (Ret × Txn × State S)
  ngnfs_pfs_read_inode fuel memory txn ino size s = do
    r ← add_execute fuel memory txn ino nbf_read (some size) none (record s { ret = ok 0 })
    let (torn, t) = ngnfs_txn_destroy ops callbacks r.1 r.2
    done (or_else r.0 t.ret, torn, t)

  -- mkfs, the tear-down of its transaction, and the reading of an inode.
  abbrev pub mkfs_read_inode : Inode → ℕ → ℕ → ℕ → ℕ → ℕ → State S → Run (Ret × Txn × State S)
  mkfs_read_inode memory address address2 root_ino nsec size s =
      ngnfs_pfs_mkfs 1 (some memory) (some address) ngnfs_txn_init root_ino nsec s >>= λ m.
      ngnfs_pfs_read_inode 1 (some address2) ngnfs_txn_init root_ino size
        (ngnfs_txn_destroy ops callbacks m.1 m.2).1
