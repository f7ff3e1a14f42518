-- ===== src/Btree/Balance.antt =====
-- Splitting and refilling blocks, and the parent's items, of shared/btree.c.
pub mod Split
pub mod Copy
pub mod Rounds
pub mod Joined
pub mod Refill
use ngnfs_progs.Prelude.{
  ℕ, zero, suc, ◌+◌, ◌*◌, ◌/◌, ◌%◌, Bool, true, false, List, [], ◌∷◌, not, ltb, leb, ◌==◌,
  if◌then◌else◌, length,
}
use ngnfs_progs.Prelude.Run.{Run, done, bug_on, ◌>>=◌, ◌>>◌}
use ngnfs_progs.Prelude.Memory.{write_bytes, read_bytes, load16}
use ngnfs_progs.Btree.Keys.{Bytes}
use ngnfs_progs.Btree.Layout.{
  BtreeBlock, item_ptr, last_item_ptr, key_ptr, val_ptr, item_key_size, item_val_size, key_of,
  val_of, used_pct, min_used_pct,
}
use ngnfs_progs.Btree.Items.{insert_item, remove_item}
use ngnfs_progs.Btree.Compact.{QsortR}
use ngnfs_progs.Btree.Move.{move_items}

-- The bytes of a little-endian number.
abbrev pub le_bytes : ℕ → ℕ → Bytes
le_bytes zero n = []
le_bytes (suc w) n = n % 256 ∷ le_bytes w (n / 256)

-- struct ngnfs_btree_ref as the bytes of an item's value.
abbrev pub init_btree_ref : BtreeBlock → Bytes
init_btree_ref child = le_bytes 8 child.bnr

unfoldable pub insert_parent_item : BtreeBlock → ℕ → BtreeBlock → Run BtreeBlock
insert_parent_item bt pos child = do
  last ← last_item_ptr child
  insert_item bt pos (key_of child.mem last) (init_btree_ref child)

unfoldable pub update_parent_key : BtreeBlock → ℕ → BtreeBlock → Run BtreeBlock
update_parent_key bt pos child = do
  item ← item_ptr bt pos
  last ← last_item_ptr child
  bug_on (not (item_key_size bt.mem item == item_key_size child.mem last))
  done (record bt { mem = write_bytes bt.mem (key_ptr item) (key_of child.mem last) })

-- The reference is made, but what is copied is the value of the child's last item.
unfoldable pub update_parent_ref : BtreeBlock → ℕ → BtreeBlock → Run BtreeBlock
update_parent_ref bt pos child = do
  item ← item_ptr bt pos
  last ← last_item_ptr child
  bug_on (not (item_val_size bt.mem item == item_val_size child.mem last))
  done (record bt { mem = write_bytes bt.mem (val_ptr bt.mem item) (val_of child.mem last) })

-- With the parent, the block and its sibling.
unfoldable pub ngnfs_btree_split :
    QsortR → BtreeBlock → ℕ → BtreeBlock → BtreeBlock → Run (BtreeBlock × BtreeBlock × BtreeBlock)
ngnfs_btree_split qsort_r parent bt_pos bt sib = do
  r ← move_items qsort_r sib bt true false
  parent1 ← insert_parent_item parent bt_pos r.0
  done (parent1, r.1, r.0)

-- Whether all items of the sibling are to be moved.
abbrev pub drains : BtreeBlock → BtreeBlock → Bool
drains bt sib = leb (used_pct bt + used_pct sib) (min_used_pct * 2)

-- The parent's items after the move.
unfoldable pub refill_parent : BtreeBlock → ℕ → ℕ → BtreeBlock → BtreeBlock → Run BtreeBlock
refill_parent parent bt_pos sib_pos bt sib =
    if not (sib.nr_items == 0)
    then (if ltb bt_pos sib_pos
        then update_parent_key parent bt_pos bt
        else update_parent_key parent sib_pos sib)
    else if ltb bt_pos sib_pos
    then (update_parent_ref parent sib_pos bt >>= λ parent1. remove_item parent1 bt_pos)
    else remove_item parent sib_pos

unfoldable pub ngnfs_btree_refill :
    QsortR
    → BtreeBlock
    → ℕ
    → ℕ
    → BtreeBlock
    → BtreeBlock
    → Run (BtreeBlock × BtreeBlock × BtreeBlock)
ngnfs_btree_refill qsort_r parent bt_pos sib_pos bt sib = do
  r ← move_items qsort_r bt sib (ltb bt_pos sib_pos) (drains bt sib)
  parent1 ← refill_parent parent bt_pos sib_pos r.0 r.1
  done (parent1, r.0, r.1)
