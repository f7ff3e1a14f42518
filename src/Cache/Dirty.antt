-- ===== src/Cache/Dirty.antt =====
-- ngnfs_block_dirty_begin and ngnfs_block_dirty_end of shared/block.c.
use mathlib.Core.List.{reverse}
use ngnfs_progs.Prelude.{
  ℕ, zero, suc, ◌+◌, ltb, ◌==◌, if◌then◌else◌, true, false, Option, none, some, List, [], ◌∷◌,
}
use ngnfs_progs.Prelude.Int.{pos, ◌+ℤ◌}
use ngnfs_progs.Prelude.Errno.{Ret, ok, err, Errno}
use ngnfs_progs.Prelude.Run.{Run, done, bug, hang, ◌>>=◌}
use ngnfs_progs.Cache.State.{Block, BlockInfo, set_set, set_limit}
use ngnfs_progs.Cache.Queues.{get_set, put_set, try_queue_writeback_work}
use ngnfs_progs.Cache.EndIo.{the}
use ngnfs_progs.Cache.Sync.{sync_up_to_seq}
use ngnfs_progs.Cache.Sets.{
  SetOrErr, set_ptr, null, err_ptr, set_of, get_other_set, clear_set_dirtying, merge_sets, is_dirty,
}

-- put_set on a pointer that may be NULL.
abbrev pub put_opt : BlockInfo → Option ℕ → Run BlockInfo
put_opt s none = done s
put_opt s (some id) = put_set s id

abbrev pub clear_opt : BlockInfo → Option ℕ → BlockInfo
clear_opt s none = s
clear_opt s (some id) = clear_set_dirtying s id

-- How a walk over the caller's blocks ends: with all of them in one set, or where it has to wait
-- for a set or for a sync and start again, or with an error.
pub data Pass : Type 0 where
  ready : Option ℕ → Pass
  wait_dirtying : ℕ → Pass
  wait_writeback : ℕ → Pass
  wait_sync : ℕ → Pass
  failed : Errno → Pass

-- The state with the pointers `small` and `large` at the end of the walk.
pub record Walk : Type 0 where
  pub pass : Pass
  pub small : Option ℕ
  pub large : Option ℕ
  pub state : BlockInfo

abbrev pub set_dirtying : BlockInfo → ℕ → BlockInfo
set_dirtying s id = set_set s id (record (s.sets id) { dirtying = true })

-- What is left of the pair once the smaller of two sets is in the larger, or the walk's end where
-- there would be too many blocks.
pub data Merged : Type 0 where
  merged : ℕ → ℕ → BlockInfo → Merged
  too_large : ℕ → ℕ → ℕ → BlockInfo → Merged

unfoldable pub merge_ordered : BlockInfo → ℕ → ℕ → Merged
merge_ordered s small large =
    if ltb set_limit ((s.sets large).size + (s.sets small).size)
    then too_large small large (s.sets large).dirty_seq
        (clear_set_dirtying (clear_set_dirtying s small) large)
    else merged small large (merge_sets s small large)

-- The swap comes first.
unfoldable pub merge_two : BlockInfo → ℕ → ℕ → Merged
merge_two s small large =
    if ltb (s.sets large).size (s.sets small).size
    then merge_ordered s large small
    else merge_ordered s small large

-- A set that is held: it joins `large`, or is the first. `next` is the loop from the next block on.
unfoldable pub join :
    (Option ℕ → Option ℕ → BlockInfo → Run Walk) → Option ℕ → ℕ → BlockInfo → Run Walk
join next large id s = elim (s.sets id).dirtying [
  | true ↦ done (record {
    pass = wait_dirtying id;
    small = some id;
    large = large;
    state = clear_opt s large;
  })
  | false ↦ elim (s.sets id).writeback [
    | true ↦ done (record {
      pass = wait_writeback id;
      small = some id;
      large = large;
      state = clear_opt (clear_set_dirtying (set_dirtying s id) id) large;
    })
    | false ↦ elim large [
      | none ↦ next none (some id) (set_dirtying s id)
      | some l ↦ elim (merge_two (set_dirtying s id) id l) [
        | too_large sm la seq t ↦
            done (record { pass = wait_sync seq; small = some sm; large = some la; state = t })
        | merged sm la t ↦ next (some sm) (some la) t
      ]
    ]
  ]
]

-- What get_other_set returned.
unfoldable pub join_other :
    (Option ℕ → Option ℕ → BlockInfo → Run Walk) → Option ℕ → SetOrErr × BlockInfo → Run Walk
join_other next large (err_ptr e, s) =
    done (record { pass = failed e; small = none; large = large; state = s })
join_other next large (null, s) = next none large s
join_other next large (set_ptr id, s) = join next large id s

-- The loop over the caller's blocks. `memory` is what kmalloc returns at each block.
unfoldable pub walk : (ℕ → Option ℕ) → List ℕ → Option ℕ → Option ℕ → BlockInfo → Run Walk
walk memory [] small large s =
    done (record { pass = ready large; small = small; large = large; state = s })
walk memory (b ∷ rest) small large s = put_opt s small >>= λ t.
    join_other (walk memory rest) large (get_other_set (memory b) t b large)

abbrev pub set_dirty : Option Block → Option Block
set_dirty none = none
set_dirty (some bl) = some (record bl { dirty = true })

-- The walk from the end of the set's list that marks its new blocks dirty.
unfoldable pub mark_dirty : List ℕ → BlockInfo → BlockInfo
mark_dirty [] s = s
mark_dirty (b ∷ rest) s =
    let more = mark_dirty rest (record s {
      ht = λ c. if c == b then set_dirty (s.ht c) else s.ht c;
      nr_dirty = s.nr_dirty +ℤ pos 1;
    }) in
    if is_dirty (s.ht b) then s else more

-- SET_DIRTY, and the set's place in the order of writeback.
unfoldable pub queue_set : BlockInfo → ℕ → BlockInfo
queue_set s id =
    if (s.sets id).dirty
    then s
    else (let s1 = get_set (set_set s id (record (s.sets id) { dirty = true })) id in
        let seq = s1.dirty_seq + 1 in
        let s2 = set_set s1 id (record (s1.sets id) { dirty_seq = seq }) in
        try_queue_writeback_work
          (record s2 { dirty_seq = seq; writeback_llist = id ∷ s2.writeback_llist }))

-- What the callers of a walk do with its end: `restart` is the label.
pub record DirtyEnv : Type 0 where
  pub memory : ℕ → Option ℕ
  pub others : BlockInfo → BlockInfo

-- The code behind the loop, where every block is in `large`.
unfoldable pub finish_dirty : BlockInfo → Option ℕ → Option ℕ → Run (Ret × BlockInfo)
finish_dirty s small none = bug
finish_dirty s small (some id) = do
  t ← put_opt (queue_set (mark_dirty (reverse (s.sets id).block_list) s) id) small
  done (ok 0, t)

-- The label `out`.
abbrev pub put_both : BlockInfo → Option ℕ → Option ℕ → Run BlockInfo
put_both s small large = do t ← put_opt s small; put_opt t large

-- The walks until one ends with all blocks in one set. What other threads do while this one waits
-- is in `env`, at each round; the fuel bounds the rounds.
unfoldable pub dirty_rounds : ℕ → (ℕ → DirtyEnv) → List ℕ → BlockInfo → Run (Ret × BlockInfo)
dirty_rounds zero env list s = hang
dirty_rounds (suc fuel) env list s = walk (env fuel).memory list none none s >>= λ w. elim w.pass [
  | ready large ↦ finish_dirty w.state w.small large
  | failed e ↦ put_both w.state w.small w.large >>= λ t. done (err e, t)
  | wait_dirtying id ↦
      put_both ((env fuel).others w.state) w.small w.large >>= λ t. dirty_rounds fuel env list t
  | wait_writeback id ↦
      put_both ((env fuel).others w.state) w.small w.large >>= λ t. dirty_rounds fuel env list t
  | wait_sync seq ↦
      let (ret, s1) = sync_up_to_seq (env fuel).others w.state seq in
      put_both s1 w.small w.large >>= λ t. elim ret [
        | err e ↦ done (err e, t)
        | ok n ↦ dirty_rounds fuel env list t
      ]
]

-- The state is the one after the wait for fewer than DIRTY_LIMIT dirty blocks.
unfoldable pub ngnfs_block_dirty_begin :
    ℕ → (ℕ → DirtyEnv) → List ℕ → BlockInfo → Run (Ret × BlockInfo)
ngnfs_block_dirty_begin fuel env [] s = done (ok 0, s)
ngnfs_block_dirty_begin fuel env (b ∷ list) s = dirty_rounds fuel env (b ∷ list) s

unfoldable pub ngnfs_block_dirty_end : List ℕ → BlockInfo → Run BlockInfo
ngnfs_block_dirty_end [] s = done (try_queue_writeback_work s)
ngnfs_block_dirty_end (b ∷ list) s = do
  id ← the (set_of s b)
  t ← put_set (set_set s id (record (s.sets id) { dirtying = false })) id
  done (try_queue_writeback_work t)
