-- ===== src/Pfs/Block.antt =====
-- What shared/pfs.c writes to the block of an inode and reads from it.
use Prim.Native.Nat.{min}
use ngnfs_progs.Prelude.{ℕ, ◌≡◌, arith, length, take, inl, inr, refl, false, ◌∙◌, ap}
use ngnfs_progs.Prelude.Run.{done, Returns, Returns-done, Returns-bind}
use ngnfs_progs.Prelude.Errno.{ok}
use ngnfs_progs.Btree.Keys.{Bytes}
use ngnfs_progs.Btree.Layout.{BtreeBlock}
use ngnfs_progs.Btree.Valid.{IsValid, Maps, Maps-unique}
use ngnfs_progs.Btree.Ops.{ngnfs_btree_init_block, ngnfs_btree_insert, bad_sizes}
use ngnfs_progs.Btree.Map.{init_block-IsValid}
use ngnfs_progs.Btree.Map.Insertion.{Inserts, insert-Inserts}
use ngnfs_progs.Btree.Map.Lookup.{LooksUp, lookup-LooksUp}
use ngnfs_progs.Pfs.Inode.{inode_size, inode_key, commit_mkfs, prepare_read_inode}

-- A well-formed block with the inode.
abbrev pub HasInode : Bytes → BtreeBlock → Type 0
HasInode ninode bt = IsValid bt × Maps bt inode_key ninode

allowed : (ninode : Bytes) → length ninode ≡ inode_size → bad_sizes inode_key ninode ≡ false
unfolding bad_sizes
allowed ninode e = ground arith

-- Whatever the block was, mkfs makes such a block of it without a failed assertion.
pub commit_mkfs-HasInode :
    (ninode : Bytes) (bt : BtreeBlock)
    → length ninode ≡ inode_size
    → Returns (commit_mkfs ninode bt) (HasInode ninode)
unfolding commit_mkfs ngnfs_btree_init_block
commit_mkfs-HasInode ninode bt long =
    let (valid, empty) = init_block-IsValid bt 0 in
    Returns-bind (Inserts (ngnfs_btree_init_block bt 0) inode_key ninode) (HasInode ninode)
      (ngnfs_btree_insert (ngnfs_btree_init_block bt 0) inode_key ninode) _
      (insert-Inserts (ngnfs_btree_init_block bt 0) inode_key ninode valid (omega (arith, long)))
      (λ r ins. elim ins [
        | inl (bad, _) ↦ absurd (ground (arith, bad, allowed ninode long))
        | inr (inl (_, (old, m), _)) ↦ absurd (empty inode_key old m)
        | inr (inr (_, _, e, valid', maps)) ↦
            rw e (valid', (maps inode_key ninode).1 (inr (refl, refl)))
      ])

-- Reading such a block gives the inode, or what the buffer takes of it.
pub prepare_read_inode-HasInode :
    (ninode : Bytes) (size : ℕ) (bt : BtreeBlock)
    → HasInode ninode bt
    → prepare_read_inode size bt ≡ done (ok (min size (length ninode)), take size ninode)
unfolding prepare_read_inode
prepare_read_inode-HasInode ninode size bt (valid, m) =
    let (r, run, looks) =
      Returns-done (LooksUp bt inode_key size) _
        (lookup-LooksUp bt inode_key size valid (omega arith)) in
    run
    ∙ ap done (elim looks [
      | inl (val, n, e) ↦
          let same : val ≡ ninode = Maps-unique bt inode_key val ninode valid.sorted n m in
          e ∙ ap (λ v. (ok (min size (length v)), take size v)) same
      | inr (absent, _) ↦ absurd (absent ninode m)
    ])
