-- ===== src/Protocol/Client.antt =====
-- shared/btr-msg.c: the block transport that sends requests to the devices' daemons, and its
-- handlers of the results.
use ngnfs_progs.Prelude.{ℕ, ◌==◌, ◌&&◌, ◌||◌, not, if◌then◌else◌, Bool, Option, none, some}
use ngnfs_progs.Prelude.Errno.{Ret, ok, err, einval, eopnotsupp}
use ngnfs_progs.Prelude.Memory.{Mem}
use ngnfs_progs.Prelude.Run.{Run, done, ◌>>=◌}
use ngnfs_progs.Cache.Submit.{BtxOp, get_read, get_write, write}
use ngnfs_progs.Manifest.{ManifestInfo, ngnfs_manifest_map_block}
use ngnfs_progs.Btree.Layout.{block_size}
use ngnfs_progs.Msg.Wire.{
  get_block, get_block_result, write_block, write_block_result, err_ok, ngnfs_msg_errno,
}
use ngnfs_progs.Msg.Handlers.{RecvFns, ngnfs_msg_register_recv, ngnfs_msg_unregister_recv}
use ngnfs_progs.Protocol.Desc.{
  MsgDesc, get_block_size, get_block_result_size, write_block_size, write_block_result_size,
  access_read, access_write, load_bnr, store_bnr, store_byte,
}

module _ {Page : Type 0} where
  -- The bytes that the structures do not set are those of the stack.
  abbrev pub get_request : Mem → ℕ → ℕ → ℕ → MsgDesc Page
  get_request stack access bnr addr = record {
    addr = addr;
    ctl_buf = store_byte (store_bnr stack bnr) 8 access;
    data_page = none;
    data_size = 0;
    ctl_size = get_block_size;
    type = get_block;
  }

  abbrev pub write_request : Mem → Option Page → ℕ → ℕ → MsgDesc Page
  write_request stack page bnr addr = record {
    addr = addr;
    ctl_buf = store_bnr stack bnr;
    data_page = page;
    data_size = block_size;
    ctl_size = write_block_size;
    type = write_block;
  }

  -- The switch over `op`; `none` is a number that is no operation.
  unfoldable pub request_of : Mem → Option BtxOp → ℕ → Option Page → ℕ → Option (MsgDesc Page)
  request_of stack none bnr page addr = none
  request_of stack (some get_read) bnr page addr = some (get_request stack access_read bnr addr)
  request_of stack (some get_write) bnr page addr = some (get_request stack access_write bnr addr)
  request_of stack (some write) bnr page addr = some (write_request stack page bnr addr)

  -- The manifest maps the block after the switch; the address is the last field that is set.
  unfoldable pub ngnfs_btr_msg_submit_block :
      {S : Type 0}
      → (S → MsgDesc Page → Ret × S)
      → Option ManifestInfo
      → Mem
      → Option BtxOp
      → ℕ
      → Option Page
      → S
      → Run (Ret × S)
  ngnfs_btr_msg_submit_block send manifest stack op bnr page s =
      elim (request_of stack op bnr page 0) [
        | none ↦ done (err eopnotsupp, s)
        | some mdesc ↦ do
          r ← ngnfs_manifest_map_block manifest bnr
          elim r.0 [
            | err e ↦ done (err e, s)
            | ok n ↦ if n == 0 then done (send s (record mdesc { addr = r.1 })) else done (ok n, s)
          ]
      ]

  abbrev pub bad_get_result : MsgDesc Page → Bool
  bad_get_result mdesc =
      let e = mdesc.ctl_buf 9 in
      not (mdesc.ctl_size == get_block_result_size)
      || ((e == err_ok) && not (mdesc.data_size == block_size))
      || (not (e == err_ok) && not (mdesc.data_size == 0))

  module _ {S : Type 0} (end_io : S → ℕ → Option Page → Ret → Run S) where
    unfoldable pub ngnfs_btr_msg_get_block_result : MsgDesc Page → S → Run (Ret × S)
    ngnfs_btr_msg_get_block_result mdesc s =
        if bad_get_result mdesc then done (err einval, s) else (do
          t ← end_io s (load_bnr mdesc.ctl_buf) mdesc.data_page (ngnfs_msg_errno (mdesc.ctl_buf 9))
          done (ok 0, t))

    unfoldable pub ngnfs_btr_msg_write_block_result : MsgDesc Page → S → Run (Ret × S)
    ngnfs_btr_msg_write_block_result mdesc s =
        if not (mdesc.ctl_size == write_block_result_size) || not (mdesc.data_size == 0)
        then done (err einval, s)
        else (do
          t ← end_io s (load_bnr mdesc.ctl_buf) mdesc.data_page (ngnfs_msg_errno (mdesc.ctl_buf 8))
          done (ok 0, t))

abbrev pub ngnfs_btr_msg_queue_depth : ℕ
ngnfs_btr_msg_queue_depth = 32

-- Two handlers are registered one after the other, the second where the first succeeded: the
-- `?:` of both setup functions.
unfoldable pub register_two : RecvFns → ℕ → ℕ → ℕ → ℕ → Ret × RecvFns
register_two fns t f u g =
    let (r, fns1) = ngnfs_msg_register_recv fns t f in
    let (r2, fns2) = ngnfs_msg_register_recv fns1 u g in
    elim r [ err e ↦ (err e, fns1) | ok n ↦ if n == 0 then (r2, fns2) else (ok n, fns1) ]

-- The numbers `get_fn` and `write_fn` stand for the two handlers.
unfoldable pub ngnfs_btr_msg_setup : RecvFns → ℕ → ℕ → Ret × RecvFns
ngnfs_btr_msg_setup fns get_fn write_fn =
    register_two fns get_block_result get_fn write_block_result write_fn

unfoldable pub ngnfs_btr_msg_destroy : Option RecvFns → ℕ → ℕ → Option RecvFns
ngnfs_btr_msg_destroy fns get_fn write_fn =
    ngnfs_msg_unregister_recv (ngnfs_msg_unregister_recv fns get_block_result get_fn)
      write_block_result write_fn
