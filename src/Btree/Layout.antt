-- ===== src/Btree/Layout.antt =====
-- struct ngnfs_btree_block of shared/format-block.h and the accessors at the head of
-- shared/btree.c. The scalar fields of the header are fields of a record; everything from
-- item_off on is in `mem`, addressed by its offset in the block, so the offset array and the item
-- payloads share one memory.
use ngnfs_progs.Prelude.{ℕ, ◌+◌, ◌-◌, ◌*◌, ◌/◌, ◌%◌, ◌≤◌, ◌≡◌, arith, ◌&&◌, ltb, if◌then◌else◌}
use ngnfs_progs.Prelude.Run.{Run, done, bug_on, ◌>>◌}
use ngnfs_progs.Prelude.Words.{u16_mod, add16, sub16}
use ngnfs_progs.Prelude.Memory.{Mem, load8, load16, store16, read_bytes, memmove}
use ngnfs_progs.Btree.Keys.{Bytes}

abbrev pub block_size : ℕ
block_size = 4096

-- offsetof(struct ngnfs_btree_block, item_off), the size of the header.
abbrev pub header_size : ℕ
header_size = 16

-- sizeof(struct ngnfs_btree_item), packed: val_size, key_size.
abbrev pub item_header_size : ℕ
item_header_size = 3

abbrev pub item_off_size : ℕ
item_off_size = 2

abbrev pub max_free : ℕ
max_free = block_size - header_size

abbrev pub key_size_max : ℕ
key_size_max = 255

abbrev pub val_size_max : ℕ
val_size_max = 512

abbrev pub min_used_pct : ℕ
min_used_pct = 35

abbrev pub max_items : ℕ
max_items = max_free / (item_off_size + item_header_size + 1 + 0)

pub record BtreeBlock : Type 0 where
  pub bnr : ℕ
  pub nr_items : ℕ
  pub total_free : ℕ
  pub avail_free : ℕ
  pub level : ℕ
  pub mem : Mem

-- &bt->item_off[pos]
abbrev pub item_off_ptr : ℕ → ℕ
item_off_ptr pos = header_size + item_off_size * pos

-- An item pointer is the item's offset in the block.
abbrev pub key_ptr : ℕ → ℕ
key_ptr item = item + item_header_size

abbrev pub item_key_size : Mem → ℕ → ℕ
item_key_size m item = load8 m (item + 2)

abbrev pub item_val_size : Mem → ℕ → ℕ
item_val_size m item = load16 m item

abbrev pub val_ptr : Mem → ℕ → ℕ
val_ptr m item = key_ptr item + item_key_size m item

unfoldable pub get_item_off : BtreeBlock → ℕ → Run ℕ
get_item_off bt pos = do bug_on (ltb bt.nr_items pos); done (load16 bt.mem (item_off_ptr pos))

unfoldable pub set_item_off : BtreeBlock → ℕ → ℕ → Run BtreeBlock
set_item_off bt pos off = do
  bug_on (ltb bt.nr_items pos)
  done (record bt { mem = store16 bt.mem (item_off_ptr pos) off })

unfoldable pub item_ptr : BtreeBlock → ℕ → Run ℕ
unfolding get_item_off
item_ptr bt pos = get_item_off bt pos

unfoldable pub last_item_ptr : BtreeBlock → Run ℕ
unfolding item_ptr
last_item_ptr bt = item_ptr bt (sub16 bt.nr_items 1)

unfoldable pub key_val_size : ℕ → ℕ → ℕ
key_val_size key_size val_size = (item_header_size + key_size + val_size) % u16_mod

unfoldable pub item_size : Mem → ℕ → ℕ
unfolding key_val_size
item_size m item = key_val_size (item_key_size m item) (item_val_size m item)

unfoldable pub total_item_size : Mem → ℕ → ℕ
unfolding item_size
total_item_size m item = add16 item_off_size (item_size m item)

-- The offset after the free region from which items are allocated.
unfoldable pub avail_free_end : BtreeBlock → ℕ
avail_free_end bt = (item_off_ptr bt.nr_items + bt.avail_free) % u16_mod

unfoldable pub used_size : BtreeBlock → ℕ
used_size bt = sub16 block_size (header_size + bt.total_free)

unfoldable pub used_pct : BtreeBlock → ℕ
unfolding used_size
used_pct bt = used_size bt * 100 / max_free % u16_mod

-- memmove_tail_offs(bt, pos, to - pos): the entries of the offset array from `pos` to its end
-- move so that the first is at `to`. The count is the s16 nr_items - pos, and must be positive.
unfoldable pub memmove_tail_offs : BtreeBlock → ℕ → ℕ → BtreeBlock
memmove_tail_offs bt pos to =
    let nr = sub16 bt.nr_items pos in
    if ltb 0 nr && ltb nr 32768
    then record bt {
      mem = memmove bt.mem (item_off_ptr to) (item_off_ptr pos) (nr * item_off_size);
    }
    else bt

-- What the block holds at a position of its offset array.
unfoldable pub off_at : BtreeBlock → ℕ → ℕ
off_at bt i = load16 bt.mem (item_off_ptr i)

abbrev pub key_of : Mem → ℕ → Bytes
key_of m item = read_bytes m (key_ptr item) (item_key_size m item)

abbrev pub val_of : Mem → ℕ → Bytes
val_of m item = read_bytes m (val_ptr m item) (item_val_size m item)

abbrev pub size_of : Mem → ℕ → ℕ
size_of m item = item_header_size + item_key_size m item + item_val_size m item

unfoldable pub key_at : BtreeBlock → ℕ → Bytes
unfolding off_at
key_at bt i = key_of bt.mem (off_at bt i)

unfoldable pub val_at : BtreeBlock → ℕ → Bytes
unfolding off_at
val_at bt i = val_of bt.mem (off_at bt i)

unfoldable pub size_at : BtreeBlock → ℕ → ℕ
unfolding off_at
size_at bt i = size_of bt.mem (off_at bt i)

-- A read below the count passes the assertion.
pub item_ptr-done :
    (bt : BtreeBlock) (pos : ℕ) → pos ≤ bt.nr_items → item_ptr bt pos ≡ done (off_at bt pos)
unfolding item_ptr off_at
item_ptr-done bt pos h = ground arith
