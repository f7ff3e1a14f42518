-- ===== src/Btree/Ops.antt =====
-- ngnfs_btree_init_block, _lookup, _insert and _delete of shared/btree.c.
use Prim.Native.Nat.{min}
use ngnfs_progs.Prelude.{ℕ, Bool, [], ltb, ◌==◌, ◌||◌, if◌then◌else◌, length}
use ngnfs_progs.Prelude.Run.{Run, done, ◌>>=◌}
use ngnfs_progs.Prelude.Errno.{Ret, ok, err, einval, enoent, eexist}
use ngnfs_progs.Prelude.Memory.{read_bytes}
use ngnfs_progs.Btree.Keys.{Bytes, same}
use ngnfs_progs.Btree.Layout.{
  BtreeBlock, max_free, key_size_max, val_size_max, item_ptr, item_val_size, val_ptr,
}
use ngnfs_progs.Btree.Search.{btree_search}
use ngnfs_progs.Btree.Items.{insert_item, remove_item}

-- The bytes of the block are left as they are.
unfoldable pub ngnfs_btree_init_block : BtreeBlock → ℕ → BtreeBlock
ngnfs_btree_init_block bt level = record bt {
  bnr = 0;
  nr_items = 0;
  total_free = max_free;
  avail_free = max_free;
  level = level;
}

-- With the result, the bytes that are copied to the start of the caller's buffer of `val_size`.
unfoldable pub ngnfs_btree_lookup : BtreeBlock → Bytes → ℕ → Run (Ret × Bytes)
ngnfs_btree_lookup bt key val_size = do
  res ← btree_search bt key
  elim res.cmp [
    | same ↦ do
      item ← item_ptr bt res.pos
      let ret = min val_size (item_val_size bt.mem item)
      done (ok ret, if ltb 0 ret then read_bytes bt.mem (val_ptr bt.mem item) ret else [])
    | _ ↦ done (err enoent, [])
  ]

unfoldable pub bad_sizes : Bytes → Bytes → Bool
bad_sizes key val =
    length key == 0 || ltb key_size_max (length key) || ltb val_size_max (length val)

unfoldable pub ngnfs_btree_insert : BtreeBlock → Bytes → Bytes → Run (Ret × BtreeBlock)
ngnfs_btree_insert bt key val = if bad_sizes key val then done (err einval, bt) else do
  res ← btree_search bt key
  elim res.cmp [
    | same ↦ done (err eexist, bt)
    | _ ↦ do nb ← insert_item bt res.pos key val; done (ok 0, nb)
  ]

unfoldable pub ngnfs_btree_delete : BtreeBlock → Bytes → Run (Ret × BtreeBlock)
ngnfs_btree_delete bt key = do
  res ← btree_search bt key
  elim res.cmp [
    | same ↦ do nb ← remove_item bt res.pos; done (ok 0, nb)
    | _ ↦ done (err enoent, bt)
  ]
