-- ===== src/Cache/Submit.antt =====
-- ngnfs_block_submit_work of shared/block.c: it hands queued blocks to the transport.
use ngnfs_progs.Prelude.{ℕ, zero, suc, if◌then◌else◌, true, false, List, [], ◌∷◌, none, some}
use ngnfs_progs.Prelude.Int.{ℤ, pos, ◌+ℤ◌, ◌-ℤ◌, ltb_ℤ}
use ngnfs_progs.Prelude.Run.{Run, done, bug, ◌>>=◌}
use ngnfs_progs.Prelude.Errno.{Ret, ok, err}
use ngnfs_progs.Cache.State.{Block, BlockInfo}
use ngnfs_progs.Cache.Queues.{del_all_reverse_add_tail, put_block}

pub data BtxOp : Type 0 where
  get_read get_write write : BtxOp

-- A call of the transport's submit_block.
pub record Submission : Type 0 where
  pub op : BtxOp
  pub bnr : ℕ
  pub page : ℕ

abbrev pub op_of : Block → BtxOp
op_of bl = if bl.reading then get_read else write

module _ (submit_block : Submission → Ret) where
  -- The loop over the gathered list. `space` is tested and then counted down. A number that names no block
  -- cannot be on the list: the lists hold references.
  unfoldable pub submit_loop : List ℕ → ℤ → BlockInfo → Run (List Submission × BlockInfo)
  submit_loop [] space s = done ([], record s { submit_list = [] })
  submit_loop (bnr ∷ rest) space s = elim (ltb_ℤ space (pos 0)) [
    | true ↦ done ([], record s { submit_list = bnr ∷ rest })
    | false ↦ elim (s.ht bnr) [
      | none ↦ bug
      | some bl ↦
          let sub : Submission = record { op = op_of bl; bnr = bnr; page = bl.page } in
          elim (submit_block sub) [
            | err e ↦ bug
            | ok (suc n) ↦ bug
            | ok zero ↦
                (submit_loop rest (space -ℤ pos 1)
                  (put_block (record s { nr_submitted = s.nr_submitted +ℤ pos 1 }) bnr bl))
                >>= λ r. done (sub ∷ r.0, r.1)
          ]
    ]
  ]

  unfoldable pub ngnfs_block_submit_work : BlockInfo → Run (List Submission × BlockInfo)
  ngnfs_block_submit_work s =
      let list = del_all_reverse_add_tail s.submit_list s.submit_llist in
      submit_loop list (pos s.queue_depth -ℤ s.nr_submitted)
        (record s { submit_llist = []; submit_list = list })
