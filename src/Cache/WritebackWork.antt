-- ===== src/Cache/WritebackWork.antt =====
-- ngnfs_block_writeback_work of shared/block.c: it sends the blocks of dirty sets to the submit
-- work.
use ngnfs_progs.Prelude.{ℕ, ◌+◌, ltb, if◌then◌else◌, Bool, true, false, List, [], ◌∷◌}
use ngnfs_progs.Prelude.Int.{pos, ◌+ℤ◌}
use ngnfs_progs.Prelude.Run.{Run, done, bug_on, ◌>>=◌, ◌>>◌}
use ngnfs_progs.Cache.State.{BlockInfo, set_set}
use ngnfs_progs.Cache.Queues.{
  get_block, get_set, put_set, del_all_reverse_add_tail, should_writeback, try_queue_submit_work,
}
use ngnfs_progs.Cache.EndIo.{the}

-- get_block and llist_add of each block of the set.
unfoldable pub submit_blocks : List ℕ → BlockInfo → Run BlockInfo
submit_blocks [] s = done s
submit_blocks (b ∷ rest) s = do
  bl ← the (s.ht b)
  let t = get_block s b bl
  submit_blocks rest (record t { submit_llist = b ∷ t.submit_llist })

-- The accounting of a set that is sent to the submit work.
abbrev pub count_set : BlockInfo → ℕ → BlockInfo
count_set s id =
    let size = (s.sets id).size in
    let t = record s { nr_writeback = s.nr_writeback +ℤ pos size } in
    get_set
      (set_set t id
        (record (t.sets id) { submitted_blocks = (t.sets id).submitted_blocks +ℤ pos size }))
      id

unfoldable pub submit_set : BlockInfo → ℕ → Run BlockInfo
submit_set s id =
    if ltb 0 (s.sets id).size
    then (do
      t ← submit_blocks (s.sets id).block_list (count_set s id)
      done (try_queue_submit_work t))
    else done s

-- One set; `false` is the `break` where the set is being dirtied. The wait that follows it is for
-- the set's dirtying and changes nothing.
unfoldable pub writeback_set : BlockInfo → ℕ → Run (Bool × BlockInfo)
writeback_set s id = do
  bug_on (s.sets id).writeback
  if (s.sets id).dirtying then done (false, s) else (do
    t ← submit_set (set_set s id (record (s.sets id) { writeback = true })) id
    u ← put_set (record t { writeback_seq = t.writeback_seq + 1 }) id
    done (true, u))

unfoldable pub writeback_loop : List ℕ → BlockInfo → Run BlockInfo
writeback_loop [] s = done (record s { writeback_list = [] })
writeback_loop (id ∷ rest) s = elim (should_writeback s) [
  | false ↦ done (record s { writeback_list = id ∷ rest })
  | true ↦ writeback_set s id >>= λ r. elim r.0 [
    | false ↦ done (record r.1 { writeback_list = id ∷ rest })
    | true ↦ writeback_loop rest r.1
  ]
]

unfoldable pub ngnfs_block_writeback_work : BlockInfo → Run BlockInfo
ngnfs_block_writeback_work s =
    let list = del_all_reverse_add_tail s.writeback_list s.writeback_llist in
    writeback_loop list (record s { writeback_llist = []; writeback_list = list })
