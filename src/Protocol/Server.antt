-- ===== src/Protocol/Server.antt =====
-- devd/recv.c: the device daemon's handlers of the requests to read and to write a block.
use ngnfs_progs.Prelude.{ℕ, ◌+◌, ◌==◌, ◌||◌, not, leb, if◌then◌else◌, Option, none, some}
use ngnfs_progs.Prelude.Errno.{Ret, ok, err, einval, eio}
use ngnfs_progs.Prelude.Memory.{Mem}
use ngnfs_progs.Prelude.Run.{Run, done, bug, ◌>>=◌}
use ngnfs_progs.Btree.Layout.{block_size}
use ngnfs_progs.Msg.Wire.{
  get_block, get_block_result, write_block, write_block_result, ngnfs_msg_err,
}
use ngnfs_progs.Msg.Handlers.{RecvFns, ngnfs_msg_unregister_recv}
use ngnfs_progs.Txn.State.{
  BlockOrErr, block, err_ptr, BlockOps, Callbacks, nbf_new, nbf_read, nbf_write,
}
use ngnfs_progs.Txn.Execute.{ngnfs_txn_init, ngnfs_txn_add_block, ngnfs_txn_execute}
use ngnfs_progs.Protocol.Desc.{
  MsgDesc, get_block_size, get_block_result_size, write_block_size, write_block_result_size,
  access_unknown, load_bnr, store_bnr, store_byte,
}
use ngnfs_progs.Protocol.Client.{register_two}

-- What the handlers call: the cache, the contents of a block's page, the copy of a page to a block's
-- buffer, the sync
-- and the sending of a message.
pub record DevdOps (S Page : Type 0) : Type 0 where
  pub cache : BlockOps S
  pub page : S → ℕ → Page
  pub copy : S → ℕ → Page → S
  pub sync : S → Ret × S
  pub send : S → MsgDesc Page → Ret × S

-- The status of a block pointer, and the pointer for ngnfs_block_put, which ignores errors.
abbrev pub status : BlockOrErr → Ret
status (block b) = ok 0
status (err_ptr e) = err e

abbrev pub pointer : BlockOrErr → Option ℕ
pointer (block b) = some b
pointer (err_ptr e) = none

module _ {S Page : Type 0} (ops : DevdOps S Page) where
  abbrev pub get_result : Mem → MsgDesc Page → BlockOrErr → S → MsgDesc Page
  get_result stack mdesc bl s =
      let res =
        store_byte (store_byte (store_bnr stack (load_bnr mdesc.ctl_buf)) 8 (mdesc.ctl_buf 8)) 9
          (ngnfs_msg_err (status bl)) in
      record {
        addr = mdesc.addr;
        ctl_buf = res;
        data_page = elim bl [ block b ↦ some (ops.page s b) | err_ptr e ↦ none ];
        data_size = elim bl [ block b ↦ block_size | err_ptr e ↦ 0 ];
        ctl_size = get_block_result_size;
        type = get_block_result;
      }

  unfoldable pub devd_get_block : Mem → MsgDesc Page → S → Ret × S
  devd_get_block stack mdesc s =
      if not (mdesc.ctl_size == get_block_size)
        || leb access_unknown (mdesc.ctl_buf 8)
        || not (mdesc.data_size == 0)
      then (err einval, s)
      else (let (bl, s1) = ops.cache.get s (load_bnr mdesc.ctl_buf) nbf_read in
          let (ret, s2) = ops.send s1 (get_result stack mdesc bl s1) in
          (ret, ops.cache.put s2 (pointer bl)))

  -- The commit function copies the page of the request, its argument; a null page traps. No prepare
  -- functions are given.
  unfoldable pub commit_write_block : Option Page → S → ℕ → Run S
  commit_write_block none s b = bug
  commit_write_block (some page) s b = done (ops.copy s b page)

  abbrev pub callbacks : Callbacks S ⊥ (Option Page)
  callbacks = record { prepare = λ p s b. absurd p; commit = commit_write_block }

  abbrev pub write_result : Mem → MsgDesc Page → Ret → MsgDesc Page
  write_result stack mdesc ret = record {
    addr = mdesc.addr;
    ctl_buf = store_byte (store_bnr stack (load_bnr mdesc.ctl_buf)) 8 (ngnfs_msg_err ret);
    data_page = none;
    data_size = 0;
    ctl_size = write_block_result_size;
    type = write_block_result;
  }

  -- The sync where the transaction succeeds.
  abbrev pub then_sync : Ret × S → Run (Ret × S)
  then_sync (err e, s) = done (err e, s)
  then_sync (ok m, s) = done (if m == 0 then ops.sync s else (ok m, s))

  -- The transaction over the one block, which takes one unit of fuel. It is not torn down. `memory`
  -- is what kmalloc returns.
  unfoldable pub write_and_sync : Option ℕ → MsgDesc Page → S → Run (Ret × S)
  write_and_sync memory mdesc s =
      let (added, txn) =
        ngnfs_txn_add_block memory ngnfs_txn_init (load_bnr mdesc.ctl_buf) (nbf_new + nbf_write)
          none (some mdesc.data_page) in
      elim added [
        | err e ↦ done (err e, s)
        | ok n ↦ ngnfs_txn_execute ops.cache callbacks 1 txn s >>= λ r. then_sync (r.0, r.2)
      ]

  unfoldable pub devd_write_block : Mem → Option ℕ → MsgDesc Page → S → Run (Ret × S)
  devd_write_block stack memory mdesc s =
      if not (mdesc.ctl_size == write_block_size) || not (mdesc.data_size == block_size)
      then done (err eio, s)
      else (do
        r ← write_and_sync memory mdesc s
        done (ops.send r.1 (write_result stack mdesc r.0)))

unfoldable pub devd_recv_setup : RecvFns → ℕ → ℕ → Ret × RecvFns
devd_recv_setup fns get_fn write_fn = register_two fns get_block get_fn write_block write_fn

unfoldable pub devd_recv_destroy : Option RecvFns → ℕ → ℕ → Option RecvFns
devd_recv_destroy fns get_fn write_fn =
    ngnfs_msg_unregister_recv (ngnfs_msg_unregister_recv fns get_block get_fn) write_block write_fn
