-- ===== src/Btree/Items.antt =====
-- insert_item and remove_item of shared/btree.c: the changes to the offset array, the counts of
-- free space and the payload area.
use ngnfs_progs.Prelude.{ℕ, ◌+◌, ltb, ◌==◌, if◌then◌else◌, length}
use ngnfs_progs.Prelude.Run.{Run, done, bug_on, ◌>>=◌, ◌>>◌}
use ngnfs_progs.Prelude.Words.{add16, sub16}
use ngnfs_progs.Prelude.Memory.{Mem, store8, store16, write_bytes}
use ngnfs_progs.Btree.Keys.{Bytes}
use ngnfs_progs.Btree.Layout.{
  BtreeBlock, item_off_size, key_ptr, val_ptr, get_item_off, set_item_off, item_ptr, key_val_size,
  total_item_size, avail_free_end, memmove_tail_offs,
}

-- The stores that fill the new item: its sizes, then its key, then its value.
unfoldable pub fill_item : Mem → ℕ → Bytes → Bytes → Mem
fill_item m item key val =
    let m1 = store8 m (item + 2) (length key) in
    let m2 = store16 m1 item (length val) in
    let m3 = write_bytes m2 (key_ptr item) key in write_bytes m3 (val_ptr m3 item) val

unfoldable pub insert_item : BtreeBlock → ℕ → Bytes → Bytes → Run BtreeBlock
unfolding fill_item
insert_item bt pos key val = do
  bug_on (ltb bt.nr_items pos)
  let size = key_val_size (length key) (length val)
  bug_on (ltb bt.avail_free (item_off_size + size))
  let off = sub16 (avail_free_end bt) size
  bt1 ← set_item_off (memmove_tail_offs bt pos (pos + 1)) pos off
  let bt2 = record bt1 {
    nr_items = add16 bt1.nr_items 1;
    total_free = sub16 bt1.total_free (item_off_size + size);
    avail_free = sub16 bt1.avail_free (item_off_size + size);
  }
  item ← item_ptr bt2 pos
  done (record bt2 { mem = fill_item bt2.mem item key val })

unfoldable pub remove_item : BtreeBlock → ℕ → Run BtreeBlock
remove_item bt pos = do
  bug_on (ltb bt.nr_items pos)
  item ← item_ptr bt pos
  let tot = total_item_size bt.mem item
  let bt1 = record bt { total_free = add16 bt.total_free tot }
  off ← get_item_off bt1 pos
  let bt2 = record bt1 {
    avail_free = add16 bt1.avail_free (if off == avail_free_end bt1 then tot else item_off_size);
  }
  let bt3 = memmove_tail_offs bt2 (pos + 1) pos
  bt4 ← set_item_off bt3 (sub16 bt3.nr_items 1) 0
  done (record bt4 { nr_items = sub16 bt4.nr_items 1 })
