-- ===== src/Btree/Slots.antt =====
-- The effect on memory of what insert_item and remove_item of shared/btree.c store: the offset
-- array with a slot opened or closed, and the bytes of a new item.
use ngnfs_progs.Prelude.{ℕ, ◌+◌, ◌*◌, ◌-◌, ◌≤◌, ◌<◌, ◌≡◌, ltb, if◌then◌else◌, length, get_or, arith}
use ngnfs_progs.Prelude.Run.{done}
use ngnfs_progs.Prelude.Words.{u16_mod, sub16}
use ngnfs_progs.Prelude.Memory.{
  Mem, load16, store8, store16, write_bytes, memmove, read_bytes-of_list,
}
use ngnfs_progs.Btree.Keys.{Bytes}
use ngnfs_progs.Btree.Layout.{
  BtreeBlock, set_item_off, memmove_tail_offs, item_off_ptr, item_off_size, key_of, val_of,
}
use ngnfs_progs.Btree.Items.{fill_item}

-- The array of `nr` entries after memmove_tail_offs(bt, pos, 1) and set_item_off(bt, pos, off).
unfoldable pub open_slot : Mem → ℕ → ℕ → ℕ → Mem
open_slot m nr pos off =
    store16
      (if ltb pos nr
        then memmove m (item_off_ptr (pos + 1)) (item_off_ptr pos) ((nr - pos) * item_off_size)
        else m)
      (item_off_ptr pos) off

-- The array after memmove_tail_offs(bt, pos + 1, -1) and set_item_off(bt, nr_items - 1, 0).
unfoldable pub close_slot : Mem → ℕ → ℕ → Mem
close_slot m nr pos =
    store16
      (if ltb (pos + 1) nr
        then memmove m (item_off_ptr pos) (item_off_ptr (pos + 1))
            ((nr - (pos + 1)) * item_off_size)
        else m)
      (item_off_ptr (nr - 1)) 0

pub memmove_tail_offs_lem :
    (bt : BtreeBlock) (pos to : ℕ)
    → bt.nr_items < 32768
    → pos ≤ bt.nr_items
    → memmove_tail_offs bt pos to ≡ record bt {
      mem =
          if ltb pos bt.nr_items
          then memmove bt.mem
              (item_off_ptr to)
              (item_off_ptr pos)
              ((bt.nr_items - pos) * item_off_size)
          else bt.mem;
    }
unfolding memmove_tail_offs
memmove_tail_offs_lem bt pos to few h =
    let e : sub16 bt.nr_items pos ≡ bt.nr_items - pos = ground arith in
    rw (e, memmove_tail_offs) (ground arith)

pub set_item_off-open_slot :
    (bt : BtreeBlock) (pos off : ℕ)
    → bt.nr_items < 32768
    → pos ≤ bt.nr_items
    → set_item_off (memmove_tail_offs bt pos (pos + 1)) pos off
      ≡ done (record bt { mem = open_slot bt.mem bt.nr_items pos off })
unfolding open_slot set_item_off
set_item_off-open_slot bt pos off few h =
    rw (memmove_tail_offs_lem bt pos (pos + 1) few h) (ground arith)

pub set_item_off-close_slot :
    (bt : BtreeBlock) (pos : ℕ)
    → bt.nr_items < 32768
    → pos < bt.nr_items
    → set_item_off
        (memmove_tail_offs bt (pos + 1) pos)
        (sub16 (memmove_tail_offs bt (pos + 1) pos).nr_items 1)
        0
      ≡ done (record bt { mem = close_slot bt.mem bt.nr_items pos })
unfolding close_slot set_item_off
set_item_off-close_slot bt pos few h =
    let e : sub16 bt.nr_items 1 ≡ bt.nr_items - 1 = omega arith in
    rw (memmove_tail_offs_lem bt (pos + 1) pos few (omega arith), e) (ground arith)

module _ (m : Mem) (nr pos off : ℕ) (in_range : pos ≤ nr) where
  pub open_slot_beyond : (a : ℕ) → item_off_ptr (nr + 1) ≤ a → open_slot m nr pos off a ≡ m a
  unfolding open_slot store16 memmove
  open_slot_beyond a h = ground arith

  pub open_slot_below :
      (i : ℕ)
      → i < pos
      → load16 (open_slot m nr pos off) (item_off_ptr i) ≡ load16 m (item_off_ptr i)
  unfolding open_slot store16 memmove
  open_slot_below i h = ground arith

  pub open_slot_new : off < u16_mod → load16 (open_slot m nr pos off) (item_off_ptr pos) ≡ off
  unfolding open_slot store16
  open_slot_new h = ground arith

  pub open_slot_above :
      (i : ℕ)
      → pos ≤ i
      → i < nr
      → load16 (open_slot m nr pos off) (item_off_ptr (i + 1)) ≡ load16 m (item_off_ptr i)
  unfolding open_slot store16 memmove
  open_slot_above i h k = ground arith

module _ (m : Mem) (nr pos : ℕ) (in_range : pos < nr) where
  pub close_slot_beyond : (a : ℕ) → item_off_ptr nr ≤ a → close_slot m nr pos a ≡ m a
  unfolding close_slot store16 memmove
  close_slot_beyond a h = ground arith

  pub close_slot_below :
      (i : ℕ) → i < pos → load16 (close_slot m nr pos) (item_off_ptr i) ≡ load16 m (item_off_ptr i)
  unfolding close_slot store16 memmove
  close_slot_below i h = ground arith

  pub close_slot_above :
      (i : ℕ)
      → pos ≤ i
      → i + 1 < nr
      → load16 (close_slot m nr pos) (item_off_ptr i) ≡ load16 m (item_off_ptr (i + 1))
  unfolding close_slot store16 memmove
  close_slot_above i h k = ground arith

module _ (m : Mem) (item : ℕ) (key val : Bytes) (small : length key ≤ 255) where
  pub fill_item_below : (a : ℕ) → a < item → fill_item m item key val a ≡ m a
  unfolding fill_item store8 store16 write_bytes
  fill_item_below a h = ground arith

  pub fill_item_beyond :
      (a : ℕ) → item + 3 + length key + length val ≤ a → fill_item m item key val a ≡ m a
  unfolding fill_item store8 store16 write_bytes
  fill_item_beyond a h = ground arith

  pub fill_item-key_size : fill_item m item key val (item + 2) ≡ length key
  unfolding fill_item store8 store16 write_bytes
  fill_item-key_size = ground arith

  pub fill_item-val_size :
      length val < u16_mod → load16 (fill_item m item key val) item ≡ length val
  unfolding fill_item store8 store16 write_bytes
  fill_item-val_size h = ground arith

  fill_item_key :
      (i : ℕ) → i < length key → fill_item m item key val (item + 3 + i) ≡ get_or key i 0
  unfolding fill_item store8 store16 write_bytes
  fill_item_key i h = ground arith

  fill_item_val :
      (i : ℕ)
      → i < length val
      → fill_item m item key val (item + 3 + length key + i) ≡ get_or val i 0
  unfolding fill_item store8 store16 write_bytes
  fill_item_val i h = ground arith

  pub key_of-fill_item : key_of (fill_item m item key val) item ≡ key
  key_of-fill_item =
      rw fill_item-key_size
        (read_bytes-of_list (fill_item m item key val) (item + 3) key fill_item_key)

  pub val_of-fill_item : length val < u16_mod → val_of (fill_item m item key val) item ≡ val
  val_of-fill_item h =
      rw (fill_item-key_size, fill_item-val_size h)
        (read_bytes-of_list (fill_item m item key val) (item + 3 + length key) val fill_item_val)
