-- ===== src/Tests/Btree.antt =====
-- shared/btree.c: a block of the file system's first inode, and the results at it.
use ngnfs_progs.Prelude.{◌≡◌, refl, [], ◌∷◌, arith}
use ngnfs_progs.Prelude.Run.{Run, Returns, done, ◌>>=◌}
use ngnfs_progs.Prelude.Errno.{Ret, ok}
use ngnfs_progs.Prelude.Memory.{store8, store16, write_bytes, memmove, read_bytes}
use ngnfs_progs.Btree.Items.{insert_item, remove_item}
use ngnfs_progs.Btree.Keys.{Bytes, cmp_keys, cmp_keys_s16, lexicographic, cmp_keys-lexicographic}
use ngnfs_progs.Btree.Layout.{
  BtreeBlock, item_ptr, set_item_off, get_item_off, key_val_size, total_item_size, avail_free_end,
  memmove_tail_offs,
}
use ngnfs_progs.Btree.Search.{Splits, Finds, search_loop, btree_search}
use ngnfs_progs.Btree.Search.Found.{btree_search-Finds}
use ngnfs_progs.Btree.Valid.{IsValid}
use ngnfs_progs.Btree.Insert.{with_item, with_item-IsValid}
use ngnfs_progs.Btree.Ops.{
  ngnfs_btree_init_block, ngnfs_btree_lookup, ngnfs_btree_insert, ngnfs_btree_delete, bad_sizes,
}
use ngnfs_progs.Btree.Map.{init_block-IsValid, keys-AreShort}
use ngnfs_progs.Btree.Map.Lookup.{LooksUp, lookup-LooksUp}
use ngnfs_progs.Btree.Map.Insertion.{Inserts, insert-Inserts}
use ngnfs_progs.Btree.Map.Deletion.{Deletes, delete-Deletes}

-- A page of zeros, and the block that init_block makes of it.
abbrev page : BtreeBlock
page = record { bnr = 7; nr_items = 9; total_free = 0; avail_free = 0; level = 3; mem = λ a. 0 }

abbrev pub empty : BtreeBlock
empty = record {
  bnr = 0;
  nr_items = 0;
  total_free = 4080;
  avail_free = 4080;
  level = 0;
  mem = λ a. 0;
}

abbrev pub inode_key : Bytes
inode_key = 0 ∷ []

abbrev pub inode : Bytes
inode = 1 ∷ 2 ∷ 3 ∷ 4 ∷ []

init_page : ngnfs_btree_init_block page 0 ≡ empty
unfolding ngnfs_btree_init_block
init_page = refl

pub empty-IsValid : IsValid empty
unfolding ngnfs_btree_init_block
empty-IsValid = (init_block-IsValid page 0).0

pub empty-Splits : (key : Bytes) → Splits empty key 0
empty-Splits key = record {
  in_range = omega arith;
  below = λ i h. absurd (omega arith);
  above = λ i p h. absurd (omega arith);
}

abbrev pub one_item : BtreeBlock
one_item = with_item empty 0 inode_key inode

pub one_item-IsValid : IsValid one_item
one_item-IsValid =
    with_item-IsValid empty 0 inode_key inode empty-IsValid (omega arith) (omega arith)
      (omega arith) (empty-Splits inode_key)

btree_search-Finds_example : Returns (btree_search one_item inode_key) (Finds one_item inode_key)
btree_search-Finds_example =
    btree_search-Finds one_item inode_key one_item-IsValid.sorted (omega arith) (omega arith)
      (keys-AreShort one_item one_item-IsValid)

lookup-LooksUp_example :
    Returns (ngnfs_btree_lookup one_item inode_key 3) (LooksUp one_item inode_key 3)
lookup-LooksUp_example = lookup-LooksUp one_item inode_key 3 one_item-IsValid (omega arith)

insert-Inserts_example :
    Returns (ngnfs_btree_insert one_item (1 ∷ []) inode) (Inserts one_item (1 ∷ []) inode)
insert-Inserts_example = insert-Inserts one_item (1 ∷ []) inode one_item-IsValid (omega arith)

delete-Deletes_example :
    Returns (ngnfs_btree_delete one_item inode_key) (Deletes one_item inode_key)
delete-Deletes_example = delete-Deletes one_item inode_key one_item-IsValid (omega arith)

cmp_keys-lexicographic_example :
    cmp_keys (1 ∷ 2 ∷ []) (1 ∷ 2 ∷ 0 ∷ []) ≡ lexicographic (1 ∷ 2 ∷ []) (1 ∷ 2 ∷ 0 ∷ [])
cmp_keys-lexicographic_example = cmp_keys-lexicographic (1 ∷ 2 ∷ []) (1 ∷ 2 ∷ 0 ∷ [])

-- Two insertions and a deletion, run.
abbrev session : Run (Ret × Bytes)
session = do
  r ← ngnfs_btree_insert empty inode_key inode
  s ← ngnfs_btree_insert r.1 (9 ∷ 9 ∷ []) (7 ∷ [])
  t ← ngnfs_btree_delete s.1 (9 ∷ 9 ∷ [])
  ngnfs_btree_lookup t.1 inode_key 3

session_run : session ≡ done (ok 3, 1 ∷ 2 ∷ 3 ∷ [])
unfolding ngnfs_btree_insert ngnfs_btree_delete ngnfs_btree_lookup insert_item remove_item
    btree_search search_loop cmp_keys cmp_keys_s16 bad_sizes item_ptr set_item_off get_item_off
    key_val_size total_item_size avail_free_end memmove_tail_offs store8 store16 write_bytes memmove
    read_bytes
session_run = refl
