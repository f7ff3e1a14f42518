-- ===== src/Pfs/Inode.antt =====
-- struct ngnfs_inode of shared/format-block.h, and what shared/pfs.c does with the block of an
-- inode: commit_mkfs and prepare_read_inode.
use ngnfs_progs.Prelude.{ℕ, zero, suc, ◌/◌, ◌%◌, ◌==◌, Bool, false, not, [], ◌∷◌, ◌++◌}
use ngnfs_progs.Prelude.Run.{Run, done, bug_on, ◌>>=◌, ◌>>◌}
use ngnfs_progs.Prelude.Errno.{Ret, ok, err}
use ngnfs_progs.Btree.Keys.{Bytes}
use ngnfs_progs.Btree.Layout.{BtreeBlock}
use ngnfs_progs.Btree.Ops.{ngnfs_btree_init_block, ngnfs_btree_insert, ngnfs_btree_lookup}

pub record Inode : Type 0 where
  pub ino : ℕ
  pub gen : ℕ
  pub size : ℕ
  pub version : ℕ
  pub nlink : ℕ
  pub uid : ℕ
  pub gid : ℕ
  pub mode : ℕ
  pub rdev : ℕ
  pub flags : ℕ
  pub atime_nsec : ℕ
  pub ctime_nsec : ℕ
  pub mtime_nsec : ℕ
  pub crtime_nsec : ℕ

-- The little-endian bytes of a field of `n` bytes.
abbrev pub le_bytes : ℕ → ℕ → Bytes
le_bytes zero x = []
le_bytes (suc n) x = x % 256 ∷ le_bytes n (x / 256)

abbrev pub inode_size : ℕ
inode_size = 88

abbrev pub inode_bytes : Inode → Bytes
inode_bytes i =
    le_bytes 8 i.ino
    ++ (le_bytes 8 i.gen
        ++ (le_bytes 8 i.size
            ++ (le_bytes 8 i.version
                ++ (le_bytes 4 i.nlink
                    ++ (le_bytes 4 i.uid
                        ++ (le_bytes 4 i.gid
                            ++ (le_bytes 4 i.mode
                                ++ (le_bytes 4 i.rdev
                                    ++ (le_bytes 4 i.flags
                                        ++ (le_bytes 8 i.atime_nsec
                                            ++ (le_bytes 8 i.ctime_nsec
                                                ++ (le_bytes 8 i.mtime_nsec
                                                    ++ le_bytes 8 i.crtime_nsec))))))))))))

-- The key NGNFS_IBLOCK_KEY_INODE.
abbrev pub inode_key : Bytes
inode_key = 0 ∷ []

-- The inode that ngnfs_pfs_mkfs makes of the memory that it allocates: the fields that it does not
-- set keep what the memory held.
abbrev pub new_inode : Inode → ℕ → ℕ → Inode
new_inode memory root_ino nsec = record memory {
  ino = root_ino;
  gen = 1;
  nlink = 1;
  mode = 493;
  atime_nsec = nsec;
  ctime_nsec = nsec;
  mtime_nsec = nsec;
  crtime_nsec = nsec;
}

abbrev is_zero : Ret → Bool
is_zero (ok n) = n == 0
is_zero (err e) = false

unfoldable pub commit_mkfs : Bytes → BtreeBlock → Run BtreeBlock
commit_mkfs ninode bt = do
  r ← ngnfs_btree_insert (ngnfs_btree_init_block bt 0) inode_key ninode
  bug_on (not (is_zero r.0))
  done r.1

-- What args->ret becomes, and the bytes that are copied to args->ninode.
unfoldable pub prepare_read_inode : ℕ → BtreeBlock → Run (Ret × Bytes)
prepare_read_inode size bt = ngnfs_btree_lookup bt inode_key size
