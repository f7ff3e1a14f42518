-- ===== src/Protocol/WriteExchange.antt =====
-- The request of shared/btr-msg.c to write a block, its handling by devd/recv.c and the handling of
-- the answer.
use ngnfs_progs.Prelude.{
  ℕ, ◌+◌, ◌^◌, ◌<◌, ◌≡◌, ◌==◌, ◌||◌, not, if◌then◌else◌, false, Option, none, some, [], ◌∷◌, refl,
  arith, inl, inr,
}
use ngnfs_progs.Prelude.Errno.{Ret, ok, err, enomem, Ret-cases}
use ngnfs_progs.Prelude.Memory.{Mem}
use ngnfs_progs.Prelude.Run.{Run, done, ◌>>=◌}
use ngnfs_progs.Btree.Layout.{block_size}
use ngnfs_progs.Msg.Wire.{ngnfs_msg_err, received, msg_errno-msg_err}
use ngnfs_progs.Txn.State.{BlockOrErr, block, err_ptr, nbf_new, nbf_write, BlockOrErr-cases}
use ngnfs_progs.Txn.Execute.{ngnfs_txn_add_block}
use ngnfs_progs.Txn.Single.{execute-gotten}
use ngnfs_progs.Protocol.Desc.{MsgDesc, write_block_size, write_block_result_size, load_bnr}
use ngnfs_progs.Protocol.Client.{write_request, ngnfs_btr_msg_write_block_result}
use ngnfs_progs.Protocol.Server.{
  DevdOps, commit_write_block, callbacks, write_result, write_and_sync, devd_write_block,
}
use ngnfs_progs.Protocol.Exchange.{Delivered, load_bnr-stored, msg_err-byte}

-- What the writing of a page to a block does, without transactions: the block is got, dirtied and
-- filled, and the cache is synced; the first error ends it.
abbrev pub after_dirty : {S Page : Type 0} → DevdOps S Page → Page → ℕ → Ret × S → Ret × S
after_dirty ops page b (err e, s) = (err e, s)
after_dirty ops page b (ok n, s) =
    let t = ops.cache.dirty_end (ops.copy s b page) (b ∷ []) in
    if n == 0 then ops.sync t else (ok n, t)

abbrev pub after_get : {S Page : Type 0} → DevdOps S Page → Page → BlockOrErr × S → Ret × S
after_get ops page (err_ptr e, s) = (err e, s)
after_get ops page (block b, s) = after_dirty ops page b (ops.cache.dirty_begin s (b ∷ []))

abbrev pub write_page : {S Page : Type 0} → DevdOps S Page → Option ℕ → ℕ → Page → S → Ret × S
write_page ops none bnr page s = (err enomem, s)
write_page ops (some id) bnr page s = after_get ops page (ops.cache.get s bnr (nbf_new + nbf_write))

module _ {S Page : Type 0} (ops : DevdOps S Page) (page : Page) (mdesc : MsgDesc Page) (s : S) where
  write_and_sync-write_page :
      (memory : Option ℕ)
      → mdesc.data_page ≡ some page
      → write_and_sync ops memory mdesc s
        ≡ done (write_page ops memory (load_bnr mdesc.ctl_buf) page s)
  unfolding write_and_sync ngnfs_txn_add_block commit_write_block
  write_and_sync-write_page none e = refl
  write_and_sync-write_page (some id) e =
      let bnr = load_bnr mdesc.ctl_buf in
      let s1 = (ops.cache.get s bnr (nbf_new + nbf_write)).1 in
      rw
        (
          execute-gotten ops.cache (callbacks ops) id bnr mdesc.data_page (nbf_new + nbf_write) s
              refl,
          e,
        )
        (elim (BlockOrErr-cases (ops.cache.get s bnr (nbf_new + nbf_write)).0) [
          | inl (x, found) ↦ rw found refl
          | inr (b, found) ↦ elim (Ret-cases (ops.cache.dirty_begin s1 (b ∷ [])).0) [
            | inl (x, begun) ↦ rw (found, begun) refl
            | inr (n, begun) ↦ rw (found, begun) refl
          ]
        ])

-- The message that answers the request.
abbrev pub write_answer :
    {S Page : Type 0} → DevdOps S Page → Option ℕ → Mem → ℕ → Page → MsgDesc Page → S → MsgDesc Page
write_answer ops memory stack2 bnr page req s =
    write_result ops stack2 req (write_page ops memory bnr page s).0

module _ {S T Page : Type 0} (ops : DevdOps S Page) (end_io : T → ℕ → Option Page → Ret → Run T)
    (memory : Option ℕ) (stack stack2 : Mem) (bnr : ℕ) (small : bnr < 256 ^ 8) (page : Page)
    (addr : ℕ) (req back : MsgDesc Page) (s : S) where
  -- A request to write a page to a block, delivered to the device's daemon, makes it write the page
  -- to the block and sync, up to the first error, and send one answer. Delivered to the client, the
  -- answer completes the block of the request with that result, where errors other than ENOMEM are
  -- received as EIO.
  pub write-answered :
      (t : T)
      → Delivered (write_request stack (some page) bnr addr) req
      → Delivered (write_answer ops memory stack2 bnr page req s) back
      → (devd_write_block ops stack2 memory req s
          ≡ done (
              ops.send
                (write_page ops memory bnr page s).1
                (write_answer ops memory stack2 bnr page req s)))
        × (ngnfs_btr_msg_write_block_result end_io back t ≡ (
            end_io t bnr none (received (write_page ops memory bnr page s).0) >>= λ u.
            done (ok 0, u)))
  unfolding devd_write_block ngnfs_btr_msg_write_block_result
  write-answered t d e =
      let r = (write_page ops memory bnr page s).0 in
      let number : load_bnr req.ctl_buf ≡ bnr =
        load_bnr-stored req.ctl_buf stack bnr small (λ i h. ground (arith, d.same_ctl i, h)) in
      let number2 : load_bnr back.ctl_buf ≡ bnr =
        load_bnr-stored back.ctl_buf stack2 bnr small
          (λ i h. ground (arith, e.same_ctl i, number, h)) in
      let byte : back.ctl_buf 8 ≡ ngnfs_msg_err r = ground (arith, e.same_ctl 8, msg_err-byte r) in
      let good : (not (req.ctl_size == write_block_size) || not (req.data_size == block_size))
          ≡ false =
        ground (arith, d.same_ctl_size, d.same_data_size) in
      let good2 : (not (back.ctl_size == write_block_result_size) || not (back.data_size == 0))
          ≡ false =
        ground (arith, e.same_ctl_size, e.same_data_size) in
      let written = write_and_sync-write_page ops page req s memory d.same_page in
      (
        rw (good, devd_write_block, written, number) refl,
        rw
            (
              good2,
              number2,
              byte,
              (msg_errno-msg_err r 0).0,
              e.same_page,
              ngnfs_btr_msg_write_block_result,
            )
            refl,
      )
