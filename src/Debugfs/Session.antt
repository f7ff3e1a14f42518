-- ===== src/Debugfs/Session.antt =====
-- A session of cli/debugfs.c in which a file system is made and its root inode printed.
use ngnfs_progs.Prelude.{ℕ, ◌≡◌, some, List, [], ◌∷◌, ◌++◌}
use ngnfs_progs.Prelude.Run.{Run}
use ngnfs_progs.Prelude.Errno.{Ret, ok}
use ngnfs_progs.Btree.Keys.{Bytes, Sign, less, same, greater}
use ngnfs_progs.Txn.State.{BlockOps}
use ngnfs_progs.Pfs.Inode.{Inode}
use ngnfs_progs.Pfs.Block.{HasInode}
use ngnfs_progs.Pfs.Ops.{Buffers, State, Txn}
use ngnfs_progs.Pfs.RoundTrip.{Caches}
use ngnfs_progs.Options.Parse.{Str}
use ngnfs_progs.Options.Getopt.{Getopt}
use ngnfs_progs.Debugfs.{
  StatFields, Output, Context, CommandEnv, root_ino, Libc, Command, mkfs_name, stat_name, commands,
  parse_command,
}

-- What a stat of a new root inode prints.
abbrev pub root_fields : ℕ → StatFields
root_fields nsec = record {
  ino = 1;
  gen = 1;
  nlink = 1;
  mode = 493;
  atime = nsec;
  ctime = nsec;
  mtime = nsec;
  crtime = nsec;
}

-- Each element is before the next in the order.
abbrev pub Ascends : {C : Type 0} → (C → C → Sign) → List C → Type 0
Ascends c [] = Unit {0}
Ascends c (a ∷ []) = Unit {0}
Ascends c (a ∷ b ∷ l) = (c a b ≡ less) × Ascends c (b ∷ l)

abbrev pub AreAll : {C : Type 0} → (C → Sign) → Sign → List C → Type 0
AreAll c sign [] = Unit {0}
AreAll c sign (a ∷ l) = (c a ≡ sign) × AreAll c sign l

-- What the C library documents: strcmp orders the names of the commands, qsort leaves an ascending
-- array as it is, and bsearch finds the one element of an ordered array that compares the same.
pub record Sorts {C : Type 0} (libc : Libc C) : Type 0 where
  pub mkfs_mkfs : libc.strcmp mkfs_name mkfs_name ≡ same
  pub mkfs_stat : libc.strcmp mkfs_name stat_name ≡ less
  pub stat_mkfs : libc.strcmp stat_name mkfs_name ≡ greater
  pub stat_stat : libc.strcmp stat_name stat_name ≡ same
  pub qsort_sorted : (c : C → C → Sign) (l : List C) → Ascends c l → libc.qsort c l ≡ l
  pub bsearch_found :
      (c : Str → C → Sign) (key : Str) (before : List C) (e : C) (after : List C)
      → AreAll (c key) greater before
      → c key e ≡ same
      → AreAll (c key) less after
      → libc.bsearch c key (before ++ (e ∷ after)) ≡ some e

-- A sync that succeeds and keeps the buffers.
pub record Syncs {S : Type 0} (buffers : Buffers S) (sync : S → Ret × S) : Type 0 where
  pub synced : (s : S) → (sync s).0 ≡ ok 0
  pub synced_buf : (s : S) (b : ℕ) → buffers.buf (sync s).1 b ≡ buffers.buf s b

module _ {S : Type 0} (cache : BlockOps S) (buffers : Buffers S) (slot : ℕ → ℕ)
    (laws : Caches cache buffers slot) (sync : S → Ret × S) (syncs : Syncs buffers sync) where
  -- A context with the same directory, these outputs and the root inode on the disk.
  abbrev Goes : Bytes → List Output → Context S → Type 0
  Goes ninode outs ctx =
      (ctx.printed ≡ outs)
      × (ctx.cwd_ino ≡ root_ino)
      × HasInode ninode (buffers.buf ctx.fs.cache (slot root_ino))

module _ {S : Type 0} (cache : BlockOps S) (buffers : Buffers S) (sync : S → Ret × S)
    (libc : Libc (Command S)) (sorts : Sorts libc) where
  abbrev parse : CommandEnv → Str → Context S → Run (Context S)
  parse = parse_command cache buffers sync libc (commands cache buffers sync libc)

  module _ (slot : ℕ → ℕ) (laws : Caches cache buffers slot) (syncs : Syncs buffers sync) where
    abbrev table : List (Command S)
    table = commands cache buffers sync libc
