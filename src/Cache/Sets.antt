-- ===== src/Cache/Sets.antt =====
-- The sets of shared/block.c under dirtying: get_other_set, clear_set_dirtying and the merging of
-- two sets in ngnfs_block_dirty_begin.
use mathlib.Core.List.{reverse}
use ngnfs_progs.Prelude.{
  ℕ, ◌+◌, ◌-◌, ◌==◌, if◌then◌else◌, Bool, true, false, Option, none, some, List, [], ◌∷◌, ◌++◌,
}
use ngnfs_progs.Prelude.Int.{pos}
use ngnfs_progs.Prelude.Errno.{Errno, enomem}
use ngnfs_progs.Cache.State.{Block, BlockSet, BlockInfo, set_set}
use ngnfs_progs.Cache.Queues.{get_set, try_queue_writeback_work}

-- A set pointer, NULL or an ERR_PTR.
pub data SetOrErr : Type 0 where
  set_ptr : ℕ → SetOrErr
  null : SetOrErr
  err_ptr : Errno → SetOrErr

-- bl->set of a block that the caller holds.
abbrev pub set_of : BlockInfo → ℕ → Option ℕ
set_of s b = elim (s.ht b) [ none ↦ none | some bl ↦ bl.set ]

abbrev pub assign : Option ℕ → Option Block → Option Block
assign set none = none
assign set (some bl) = some (record bl { set = set })

-- rcu_assign_pointer(bl->set, set)
abbrev pub assign_set : BlockInfo → ℕ → Option ℕ → BlockInfo
assign_set s b set = record s { ht = λ c. if c == b then assign set (s.ht c) else s.ht c }

abbrev pub add_to_set : BlockInfo → ℕ → ℕ → BlockInfo
add_to_set s b id =
    let t = assign_set s b (some id) in
    set_set t id (record (t.sets id) {
      block_list = (t.sets id).block_list ++ (b ∷ []);
      size = (t.sets id).size + 1;
    })

-- The fields that are not set keep what the memory held.
abbrev pub new_set : BlockSet → ℕ → BlockSet
new_set memory b = record memory {
  refcount = pos 2;
  submitted_blocks = pos 0;
  block_list = b ∷ [];
  dirtying = false;
  dirty = false;
  writeback = false;
  size = 1;
}

-- `memory` is what kmalloc returns.
unfoldable pub get_other_set : Option ℕ → BlockInfo → ℕ → Option ℕ → SetOrErr × BlockInfo
get_other_set memory s b existing = elim (set_of s b) [
  | some id ↦ elim existing [
    | none ↦ (set_ptr id, get_set s id)
    | some e ↦ if id == e then (null, s) else (set_ptr id, get_set s id)
  ]
  | none ↦ elim existing [
    | some e ↦ (null, add_to_set s b e)
    | none ↦ elim memory [
      | none ↦ (err_ptr enomem, s)
      | some id ↦ (set_ptr id, set_set (assign_set s b (some id)) id (new_set (s.sets id) b))
    ]
  ]
]

abbrev pub is_dirty : Option Block → Bool
is_dirty none = false
is_dirty (some bl) = bl.dirty

-- The walk from the end of the set's list, here over the reversed list: blocks leave the set up
-- to the first that is dirty. The size counts the list's blocks, so it does not wrap.
unfoldable pub clear_loop : List ℕ → ℕ → BlockInfo → BlockInfo
clear_loop [] id s = set_set s id (record (s.sets id) { block_list = [] })
clear_loop (b ∷ rest) id s =
    let next = assign_set s b none in
    let more =
      clear_loop rest id
        (set_set next id (record (next.sets id) { size = (next.sets id).size - 1 })) in
    if is_dirty (s.ht b)
    then set_set s id (record (s.sets id) { block_list = reverse (b ∷ rest) })
    else more

unfoldable pub clear_set_dirtying : BlockInfo → ℕ → BlockInfo
clear_set_dirtying s id =
    let t = clear_loop (reverse (s.sets id).block_list) id s in
    try_queue_writeback_work (set_set t id (record (t.sets id) { dirtying = false }))

abbrev pub in_set : ℕ → List ℕ → Bool
in_set b [] = false
in_set b (x ∷ xs) = if b == x then true else in_set b xs

-- Every block of `small` gets the set `large`, whose list the others' are put in front of.
unfoldable pub merge_sets : BlockInfo → ℕ → ℕ → BlockInfo
merge_sets s small large =
    let from = s.sets small in
    let to = s.sets large in
    let t : BlockInfo = record s {
      ht = λ b. if in_set b from.block_list then assign (some large) (s.ht b) else s.ht b;
    } in
    set_set
      (set_set t large
        (record to { block_list = from.block_list ++ to.block_list; size = to.size + from.size }))
      small (record from { block_list = []; size = 0; dirty = false; dirtying = false })
