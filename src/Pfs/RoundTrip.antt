-- ===== src/Pfs/RoundTrip.antt =====
-- The inode that ngnfs_pfs_mkfs of shared/pfs.c makes is what ngnfs_pfs_read_inode reads.
use Prim.Native.Nat.{min}
use ngnfs_progs.Prelude.{ℕ, ◌%◌, ◌≡◌, Option, some, List, [], ◌∷◌, length, take, refl, ◌∙◌}
use ngnfs_progs.Prelude.Run.{done, Returns, Returns-done}
use ngnfs_progs.Prelude.Errno.{Ret, ok}
use ngnfs_progs.Btree.Keys.{Bytes}
use ngnfs_progs.Btree.Layout.{BtreeBlock}
use ngnfs_progs.Txn.State.{BlockOps, block, nbf_read, nbf_write}
use ngnfs_progs.Txn.Execute.{
  ngnfs_txn_init, ngnfs_txn_add_block, ngnfs_txn_destroy, destroy_loop, del_write,
}
use ngnfs_progs.Txn.Single.{execute-write, execute-read}
use ngnfs_progs.Pfs.Inode.{Inode, new_inode, inode_bytes, inode_size}
use ngnfs_progs.Pfs.Block.{HasInode, commit_mkfs-HasInode, prepare_read_inode-HasInode}
use ngnfs_progs.Pfs.Ops.{
  Buffers, State, Txn, PfsBlock, ops, callbacks, ngnfs_pfs_mkfs, ngnfs_pfs_read_inode,
  mkfs_read_inode,
}

-- A cache that always succeeds: block `bnr` has the buffer number `slot bnr`, and only the callers
-- change the buffers. Flags without NBF_NEW are even.
pub record Caches {S : Type 0} (cache : BlockOps S) (buffers : Buffers S) (slot : ℕ → ℕ)
    : Type 0 where
  pub found : (s : S) (bnr nbf : ℕ) → nbf % 2 ≡ 0 → (cache.get s bnr nbf).0 ≡ block (slot bnr)
  pub found_buf :
      (s : S) (bnr nbf b : ℕ)
      → nbf % 2 ≡ 0
      → buffers.buf (cache.get s bnr nbf).1 b ≡ buffers.buf s b
  pub begin : (s : S) (bs : List ℕ) → (cache.dirty_begin s bs).0 ≡ ok 0
  pub begin_buf :
      (s : S) (bs : List ℕ) (b : ℕ) → buffers.buf (cache.dirty_begin s bs).1 b ≡ buffers.buf s b
  pub end_buf :
      (s : S) (bs : List ℕ) (b : ℕ) → buffers.buf (cache.dirty_end s bs) b ≡ buffers.buf s b
  pub put_buf : (s : S) (bl : Option ℕ) (b : ℕ) → buffers.buf (cache.put s bl) b ≡ buffers.buf s b
  pub stored : (s : S) (b : ℕ) (bt : BtreeBlock) → buffers.buf (buffers.set_buf s b bt) b ≡ bt

module _ {S : Type 0} (cache : BlockOps S) (buffers : Buffers S) (slot : ℕ → ℕ)
    (laws : Caches cache buffers slot) where
  abbrev pub Made : Inode → ℕ → ℕ → Ret × Txn × State S → Type 0
  Made memory root_ino nsec r =
      (r.0 ≡ ok 0)
      × HasInode (inode_bytes (new_inode memory root_ino nsec))
          (buffers.buf r.2.cache (slot root_ino))

  -- mkfs succeeds, and the root's block then has the inode.
  pub mkfs-HasInode :
      (memory : Inode) (address root_ino nsec : ℕ) (s : State S)
      → Returns
          (ngnfs_pfs_mkfs cache buffers 1
            (some memory)
            (some address)
            ngnfs_txn_init
            root_ino
            nsec
            s)
          (Made memory root_ino nsec)
  unfolding ngnfs_pfs_mkfs ngnfs_txn_add_block
  mkfs-HasInode memory address root_ino nsec s =
      let ninode = inode_bytes (new_inode memory root_ino nsec) in
      let b = slot root_ino in
      let found = laws.found s.cache root_ino nbf_write refl in
      let s1 = (ops cache buffers).get s root_ino nbf_write in
      let s2 = ((ops cache buffers).dirty_begin s1.1 (b ∷ [])).1 in
      let (bt, run, has) =
        Returns-done (HasInode ninode) _
          (commit_mkfs-HasInode ninode (buffers.buf s2.cache b) refl) in
      let t : State S = record s2 { cache = buffers.set_buf s2.cache b bt } in
      let committed : (callbacks cache buffers).commit ninode s2 b ≡ done t = rw run refl in
      rw
        (execute-write (ops cache buffers) (callbacks cache buffers) address root_ino ninode s t b
          found (laws.begin s1.1.cache (b ∷ [])) committed)
        (refl, rw (laws.end_buf t.cache (b ∷ []) b, laws.stored s2.cache b bt) has)

  -- Where an inode's block has the inode, reading it copies what fits in the buffer and returns how
  -- much that is.
  pub read_inode-HasInode :
      (address ino size : ℕ) (ninode : Bytes) (s : State S)
      → HasInode ninode (buffers.buf s.cache (slot ino))
      → Returns
          (ngnfs_pfs_read_inode cache buffers 1 (some address) ngnfs_txn_init ino size s)
          (λ r. (r.0 ≡ ok (min size (length ninode))) × (r.2.ninode ≡ take size ninode))
  unfolding ngnfs_pfs_read_inode ngnfs_txn_add_block ngnfs_txn_destroy destroy_loop
  read_inode-HasInode address ino size ninode s has =
      let b = slot ino in
      let s0 : State S = record s { ret = ok 0 } in
      let found = laws.found s.cache ino nbf_read refl in
      let s1 = ((ops cache buffers).get s0 ino nbf_read).1 in
      let t : State S = record s1 {
        ret = ok (min size (length ninode));
        ninode = take size ninode;
      } in
      let kept : buffers.buf s1.cache b ≡ buffers.buf s.cache b =
        laws.found_buf s.cache ino nbf_read b refl in
      let prepared : (callbacks cache buffers).prepare size s1 b ≡ done (ok 0, [], t) =
        rw (kept, prepare_read_inode-HasInode ninode size (buffers.buf s.cache b) has) refl in
      rw
        (execute-read (ops cache buffers) (callbacks cache buffers) address ino size s0 t b 0 found
          prepared)
        (refl, refl)

  pub destroy-buf :
      (ts writes : List PfsBlock) (s : State S) (b : ℕ)
      → buffers.buf
          (destroy_loop (ops cache buffers) (callbacks cache buffers) ts writes s).1.cache
          b
        ≡ buffers.buf s.cache b
  unfolding destroy_loop
  destroy-buf [] writes s b = refl
  destroy-buf (t ∷ ts) writes s b =
      destroy-buf ts (del_write t.id writes) ((ops cache buffers).put s t.bl) b
      ∙ laws.put_buf s.cache t.bl b

  -- Over such a cache and where the memory is there, reading the root inode after mkfs returns the
  -- inode that mkfs made, or as much of it as the buffer takes.
  pub mkfs-read_inode :
      (memory : Inode) (address address2 root_ino nsec size : ℕ) (s : State S)
      → Returns (mkfs_read_inode cache buffers memory address address2 root_ino nsec size s) (λ r.
        (r.0 ≡ ok (min size inode_size))
        × (r.2.ninode ≡ take size (inode_bytes (new_inode memory root_ino nsec))))
  unfolding ngnfs_txn_destroy
  mkfs-read_inode memory address address2 root_ino nsec size s =
      let ninode = inode_bytes (new_inode memory root_ino nsec) in
      let (m, run, made) =
        Returns-done (Made memory root_ino nsec) _ (mkfs-HasInode memory address root_ino nsec s) in
      let t = (ngnfs_txn_destroy (ops cache buffers) (callbacks cache buffers) m.1 m.2).1 in
      let kept = destroy-buf m.1.blocks m.1.writes m.2 (slot root_ino) in
      rw run (read_inode-HasInode address2 root_ino size ninode t (rw kept made.1))
