-- ===== src/Btree/Move.antt =====
-- move_items of shared/btree.c: items from the end of one block to the opposite end of another.
use ngnfs_progs.Prelude.{
  ℕ, zero, suc, ◌+◌, ◌-◌, ◌/◌, ◌%◌, Bool, true, false, ltb, leb, ◌==◌, ◌&&◌, if◌then◌else◌,
}
use ngnfs_progs.Prelude.Run.{Run, done, bug_on, ◌>>=◌, ◌>>◌}
use ngnfs_progs.Prelude.Words.{u16_mod, add16, sub16}
use ngnfs_progs.Prelude.Memory.{Mem}
use ngnfs_progs.Btree.Layout.{
  BtreeBlock, set_item_off, item_ptr, item_size, total_item_size, avail_free_end, used_size,
  memmove_tail_offs,
}
use ngnfs_progs.Btree.Compact.{QsortR, ngnfs_btree_compact}

-- memcpy from another block.
unfoldable pub memcpy_from : Mem → ℕ → Mem → ℕ → ℕ → Mem
memcpy_from m dst from src n b =
    if leb dst b && ltb b (dst + n) then from (src + (b - dst)) else m b

-- An s16 whose bits are those of the u16, moved to start at 0.
abbrev biased : ℕ → ℕ
biased n = (n + 32768) % u16_mod

-- `moving <= target`; the target is half the difference of the sizes, rounded down.
unfoldable pub in_target : BtreeBlock → BtreeBlock → ℕ → Bool
in_target dst src moving = leb (biased moving) ((used_size src + u16_mod - used_size dst) / 2)

-- The number of items to move and their size, from the first on.
unfoldable pub count_first : BtreeBlock → BtreeBlock → ℕ → ℕ → ℕ → Run (ℕ × ℕ)
count_first dst src zero i moving = done (i, moving)
count_first dst src (suc rest) i moving = elim (in_target dst src moving) [
  | false ↦ done (i, moving)
  | true ↦ do
    item ← item_ptr src i
    count_first dst src rest (i + 1) (add16 moving (total_item_size src.mem item))
]

-- From the last on; this loop does not look at the target.
unfoldable pub count_last : BtreeBlock → ℕ → ℕ → ℕ → Run (ℕ × ℕ)
count_last src zero nr moving = done (nr, moving)
count_last src (suc i) nr moving = do
  item ← item_ptr src i
  count_last src i (nr + 1) (add16 moving (total_item_size src.mem item))

-- The index is an s16, which is negative from 32768 on.
abbrev pub items_of : BtreeBlock → ℕ
items_of src = if leb src.nr_items 32768 then src.nr_items else 0

unfoldable pub count_moving : BtreeBlock → BtreeBlock → Bool → Bool → Run (ℕ × ℕ)
count_moving dst src src_first true = done (src.nr_items, used_size src)
count_moving dst src true false = count_first dst src src.nr_items 0 0
count_moving dst src false false = count_last src (items_of src) 0 0

-- The loop that copies; `off` is where the item before was put.
unfoldable pub copy_items : ℕ → BtreeBlock → BtreeBlock → ℕ → ℕ → ℕ → ℕ → Run BtreeBlock
copy_items zero src dst s d i off = done dst
copy_items (suc rest) src dst s d i off = do
  src_item ← item_ptr src (add16 s i)
  let size = item_size src.mem src_item
  let off1 = sub16 off size
  dst1 ← set_item_off dst (add16 d i) off1
  dst_item ← item_ptr dst1 (add16 d i)
  copy_items rest src (record dst1 { mem = memcpy_from dst1.mem dst_item src.mem src_item size }) s
      d (i + 1) off1

-- The counts of both blocks after the copy.
abbrev pub moved_from : BtreeBlock → ℕ → ℕ → BtreeBlock
moved_from src nr moving = record src {
  nr_items = sub16 src.nr_items nr;
  total_free = add16 src.total_free moving;
}

abbrev pub moved_to : BtreeBlock → ℕ → ℕ → BtreeBlock
moved_to dst nr moving = record dst {
  nr_items = add16 dst.nr_items nr;
  total_free = sub16 dst.total_free moving;
  avail_free = sub16 dst.total_free moving;
}

unfoldable pub move_items :
    QsortR → BtreeBlock → BtreeBlock → Bool → Bool → Run (BtreeBlock × BtreeBlock)
move_items qsort_r dst src src_first drain_src = do
  bug_on (src.nr_items == 0)
  r ← count_moving dst src src_first drain_src
  let s = if src_first then 0 else sub16 src.nr_items r.0
  let d = if src_first then sub16 dst.nr_items r.0 else 0
  dst1 ← ngnfs_btree_compact qsort_r dst
  let dst2 = if src_first then dst1 else memmove_tail_offs dst1 0 r.0
  dst3 ← copy_items r.0 src dst2 s d 0 (avail_free_end dst2)
  let src1 = if src_first then memmove_tail_offs src r.0 0 else src
  done (moved_to dst3 r.0 r.1, moved_from src1 r.0 r.1)
