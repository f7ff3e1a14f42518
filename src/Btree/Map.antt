-- ===== src/Btree/Map.antt =====
-- The operations of shared/btree.c as operations of a finite map from keys to values: the map
-- of a new block, and how a search ends.
pub mod Lookup
pub mod Insertion
pub mod Deletion
use Prim.Native.Nat.{min}
use native.Mathlib.Nat.{zero-min, min-zero, suc-min-suc}
use ngnfs_progs.Prelude.{
  ℕ, zero, suc, ◌+◌, ◌≤◌, ◌<◌, ◌≡◌, ◌≢◌, ◌⊎◌, ◌↔◌, inl, inr, refl, sym, ap, ◌∙◌, arith, List, [],
  ◌∷◌, ltb, true, false, if◌then◌else◌, length, take, Bool-cases,
}
use ngnfs_progs.Prelude.Run.{Run, done, bug, ◌>>=◌, Returns, Returns-done}
use ngnfs_progs.Prelude.Errno.{Ret, ok, err, einval, enoent, eexist}
use ngnfs_progs.Prelude.Memory.{read_bytes, length-read_bytes}
use ngnfs_progs.Btree.Keys.{Bytes, Sign, less, same, greater, s16_max}
use ngnfs_progs.Btree.Layout.{
  BtreeBlock, max_free, item_off_size, item_ptr, item_ptr-done, item_val_size, val_ptr, off_at,
  key_at, val_at, key_val_size, item_key_size, size_at,
}
use ngnfs_progs.Btree.Search.{BtreeSearchResult, AreShort, Finds, Splits, btree_search}
use ngnfs_progs.Btree.Search.Found.{btree_search-Finds}
use ngnfs_progs.Btree.Items.{insert_item, remove_item}
use ngnfs_progs.Btree.Valid.{IsValid, Maps, Inserted, Maps-Inserted, Maps-ne, Splits-not_Maps, used}
use ngnfs_progs.Btree.Insert.{new_size, insert_item-Inserted}
use ngnfs_progs.Btree.Remove.{remove_item-Inserted}
use ngnfs_progs.Btree.Ops.{
  ngnfs_btree_init_block, ngnfs_btree_lookup, ngnfs_btree_insert, ngnfs_btree_delete, bad_sizes,
}

-- A freshly initialised block is well-formed and maps no key.
pub init_block-IsValid :
    (bt : BtreeBlock) (level : ℕ)
    → IsValid (ngnfs_btree_init_block bt level)
      × ((key val : Bytes) → ¬ Maps (ngnfs_btree_init_block bt level) key val)
unfolding ngnfs_btree_init_block used
init_block-IsValid bt level = (
  record {
    room = omega arith;
    avail_le_total = omega arith;
    account = omega arith;
    behind = λ i h. absurd (omega arith);
    inside = λ i h. absurd (omega arith);
    apart = λ i j h k. absurd (omega arith);
    sorted = λ i j h k. absurd (omega arith);
  },
  λ key val m. omega arith,
)

few : (bt : BtreeBlock) → IsValid bt → bt.nr_items ≤ s16_max
few bt valid = omega (arith, valid.room)

-- The items are within the block, and so are their keys.
pub keys-AreShort : (bt : BtreeBlock) → IsValid bt → AreShort bt
unfolding key_at size_at off_at
keys-AreShort bt valid i h =
    let size : length (key_at bt i) ≡ item_key_size bt.mem (off_at bt i) =
      length-read_bytes bt.mem _ _ in
    omega (arith, size, valid.inside i h)

abbrev pub result : ℕ → Sign → BtreeSearchResult
result pos cmp = record { pos = pos; cmp = cmp }

-- How a search of a well-formed block ends, as its callers branch on it.
pub data Outcome (bt : BtreeBlock) (key : Bytes) : Type 0 where
  hit :
      (pos : ℕ)
      → btree_search bt key ≡ done (result pos same)
      → pos < bt.nr_items
      → key_at bt pos ≡ key
      → Outcome bt key
  lower :
      (pos : ℕ) → btree_search bt key ≡ done (result pos less) → Splits bt key pos → Outcome bt key
  upper :
      (pos : ℕ)
      → btree_search bt key ≡ done (result pos greater)
      → Splits bt key pos
      → Outcome bt key

pub search-Outcome :
    (bt : BtreeBlock) (key : Bytes) → IsValid bt → length key ≤ s16_max → Outcome bt key
search-Outcome bt key valid small =
    let (res, e, f) =
      Returns-done (Finds bt key) (btree_search bt key)
        (btree_search-Finds bt key valid.sorted (few bt valid) small (keys-AreShort bt valid)) in
    go res.cmp res.pos e f
  where
    go :
        (c : Sign) (pos : ℕ)
        → btree_search bt key ≡ done (result pos c)
        → Finds bt key (result pos c)
        → Outcome bt key
    go c pos e (inl (q, p, k)) = hit pos (rw q at e) p k
    go less pos e (inr (_, s)) = lower pos e s
    go same pos e (inr (n, _)) = absurd (n refl)
    go greater pos e (inr (_, s)) = upper pos e s
