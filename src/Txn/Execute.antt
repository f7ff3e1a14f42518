-- ===== src/Txn/Execute.antt =====
-- shared/txn.c: adding blocks to a transaction, executing it and tearing it down.
use ngnfs_progs.Prelude.{ℕ, zero, suc, ◌==◌, if◌then◌else◌, Option, none, some, List, [], ◌∷◌, ◌++◌}
use ngnfs_progs.Prelude.Run.{Run, done, bug, hang, ◌>>=◌}
use ngnfs_progs.Prelude.Errno.{Ret, ok, err, enomem}
use ngnfs_progs.Txn.State.{
  block, err_ptr, BlockOps, TransactionBlock, Transaction, Callbacks, is_write,
}

module _ {Prepare Commit : Type 0} where
  abbrev pub ngnfs_txn_init : Transaction Prepare Commit
  ngnfs_txn_init = record { blocks = []; writes = [] }

  -- `memory` is the address that kmalloc returns, if it does.
  unfoldable pub ngnfs_txn_add_block :
      Option ℕ
      → Transaction Prepare Commit
      → ℕ
      → ℕ
      → Option Prepare
      → Option Commit
      → Ret × Transaction Prepare Commit
  ngnfs_txn_add_block none txn bnr nbf prepare commit = (err enomem, txn)
  ngnfs_txn_add_block (some id) txn bnr nbf prepare commit =
      let tblk : TransactionBlock Prepare Commit = record {
        id = id;
        bl = none;
        bnr = bnr;
        nbf = nbf;
        prepare = prepare;
        commit = commit;
      } in
      (ok 0, record txn { blocks = txn.blocks ++ (tblk ∷ []) })

  -- for_each_dirty_list_block, which dirty_begin and dirty_end use on the write list: it stops at
  -- the end or at the first entry without a block.
  abbrev pub bls : List (TransactionBlock Prepare Commit) → List ℕ
  bls [] = []
  bls (t ∷ ts) = elim t.bl [ some b ↦ b ∷ bls ts | none ↦ [] ]

  -- list_del_init of an entry that may be on the list.
  unfoldable pub del_write :
      ℕ → List (TransactionBlock Prepare Commit) → List (TransactionBlock Prepare Commit)
  del_write id [] = []
  del_write id (t ∷ ts) = if t.id == id then del_write id ts else t ∷ del_write id ts

  module _ {S : Type 0} (ops : BlockOps S) (callbacks : Callbacks S Prepare Commit) where
    abbrev pub call_prepare :
        Option Prepare → ℕ → S → ℕ → Run (Ret × List (TransactionBlock Prepare Commit) × S)
    call_prepare none ret s b = done (ok ret, [], s)
    call_prepare (some p) ret s b = callbacks.prepare p s b

    -- The first loop: `prev` are the blocks before the current one, `ret` is what it has from them. The fuel bounds the number of
    -- blocks, which the prepare functions may increase.
    unfoldable pub prepare_loop :
        ℕ
        → List (TransactionBlock Prepare Commit)
        → List (TransactionBlock Prepare Commit)
        → List (TransactionBlock Prepare Commit)
        → ℕ
        → S
        → Run (Ret × Transaction Prepare Commit × S)
    prepare_loop fuel prev [] writes ret s =
        done (ok ret, record { blocks = prev; writes = writes }, s)
    prepare_loop zero prev (t ∷ todo) writes ret s = hang
    prepare_loop (suc fuel) prev (t ∷ todo) writes ret s =
        let (found, s1) = ops.get s t.bnr t.nbf in
        elim found [
          | err_ptr e ↦ done (err e, record { blocks = prev ++ (t ∷ todo); writes = writes }, s1)
          | block b ↦
              let t1 : TransactionBlock Prepare Commit = record t { bl = some b } in
              call_prepare t.prepare ret s1 b >>= λ r. elim r.0 [
                | err e ↦
                    done (
                      err e,
                      record { blocks = prev ++ (t1 ∷ (todo ++ r.1)); writes = writes },
                      r.2,
                    )
                | ok n ↦
                    prepare_loop fuel (prev ++ (t1 ∷ [])) (todo ++ r.1)
                      (if is_write t.nbf then writes ++ (t1 ∷ []) else writes) n r.2
              ]
        ]

    -- tblk->commit of each block on the write list.
    unfoldable pub commit_loop : List (TransactionBlock Prepare Commit) → S → Run S
    commit_loop [] s = done s
    commit_loop (t ∷ ts) s = elim t.commit [
      | none ↦ commit_loop ts s
      | some c ↦ elim t.bl [
        | none ↦ bug
        | some b ↦ callbacks.commit c s b >>= λ s1. commit_loop ts s1
      ]
    ]

    -- What follows the first loop.
    unfoldable pub write_all :
        Ret × Transaction Prepare Commit × S → Run (Ret × Transaction Prepare Commit × S)
    write_all (err e, txn, s) = done (err e, txn, s)
    write_all (ok n, txn, s) = elim txn.writes [
      | [] ↦ done (ok n, txn, s)
      | w ∷ ws ↦
          let (ret, s1) = ops.dirty_begin s (bls (w ∷ ws)) in
          elim ret [
            | err e ↦ done (err e, txn, s1)
            | ok m ↦ do
              s2 ← commit_loop (w ∷ ws) s1
              done (ok m, txn, ops.dirty_end s2 (bls (w ∷ ws)))
          ]
    ]

    unfoldable pub ngnfs_txn_execute :
        ℕ → Transaction Prepare Commit → S → Run (Ret × Transaction Prepare Commit × S)
    ngnfs_txn_execute fuel txn s = prepare_loop fuel [] txn.blocks txn.writes 0 s >>= write_all

    unfoldable pub destroy_loop :
        List (TransactionBlock Prepare Commit)
        → List (TransactionBlock Prepare Commit)
        → S
        → Transaction Prepare Commit × S
    destroy_loop [] writes s = (record { blocks = []; writes = writes }, s)
    destroy_loop (t ∷ ts) writes s = destroy_loop ts (del_write t.id writes) (ops.put s t.bl)

    unfoldable pub ngnfs_txn_destroy :
        Transaction Prepare Commit → S → Transaction Prepare Commit × S
    ngnfs_txn_destroy txn s = destroy_loop txn.blocks txn.writes s

    -- An execution, and then the tear-down.
    abbrev pub execute_destroy :
        ℕ → Transaction Prepare Commit → S → Run (Ret × Transaction Prepare Commit × S)
    execute_destroy fuel txn s = ngnfs_txn_execute fuel txn s >>= λ r.
        let (torn, t) = ngnfs_txn_destroy r.1 r.2 in done (r.0, torn, t)
