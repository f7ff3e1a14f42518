-- ===== src/Btree/Balance/Split.antt =====
-- How ngnfs_btree_split of shared/btree.c ends on an empty sibling.
use ngnfs_progs.Prelude.{
  ℕ, zero, suc, ◌+◌, ◌≤◌, ◌<◌, ◌≡◌, ◌≢◌, ◌==◌, true, false, ltb, refl, ap, arith, Bool-cases, inl,
  inr,
}
use ngnfs_progs.Prelude.Run.{done, bug, Returns, Returns-done, Returns-map}
use ngnfs_progs.Prelude.Words.{sub16, add16}
use ngnfs_progs.Btree.Layout.{
  BtreeBlock, item_ptr, item_ptr-done, used_size, avail_free_end, set_item_off, get_item_off,
}
use ngnfs_progs.Btree.Valid.{IsValid, used}
use ngnfs_progs.Btree.Compact.{QsortR, ngnfs_btree_compact}
use ngnfs_progs.Btree.Move.{count_first, count_moving, in_target, move_items, copy_items}
use ngnfs_progs.Btree.Balance.{ngnfs_btree_split}

-- The loop that counts ends with at least the items before it and at most all.
count_first-Returns :
    (dst src : BtreeBlock) (rest i moving : ℕ)
    → i + rest ≤ src.nr_items
    → Returns (count_first dst src rest i moving) (λ r. (i ≤ r.0) × (r.0 ≤ i + rest))
unfolding count_first
count_first-Returns dst src zero i moving h = (omega arith, omega arith)
count_first-Returns dst src (suc rest) i moving h = elim (Bool-cases (in_target dst src moving)) [
  | inr out ↦ rw (out, count_first) (omega arith, omega arith)
  | inl within ↦
      rw (within, item_ptr-done src i (omega arith), count_first)
        (Returns-map (λ r. (i + 1 ≤ r.0) × (r.0 ≤ i + 1 + rest)) _
          (count_first dst src rest (i + 1) _)
          (count_first-Returns dst src rest (i + 1) _ (omega arith))
          (λ r w. (omega (arith, w), omega (arith, w))))
]

-- The first item is always moved to an empty block.
first_moves :
    (dst src : BtreeBlock)
    → IsValid dst
    → IsValid src
    → dst.nr_items ≡ 0
    → in_target dst src 0 ≡ true
unfolding in_target used_size used
first_moves dst src vd vs e = ground (arith, ap (used dst) e, vs.account, vd.account)

counts_one :
    (dst src : BtreeBlock) (n : ℕ)
    → n ≢ 0
    → n ≤ src.nr_items
    → in_target dst src 0 ≡ true
    → Returns (count_first dst src n 0 0) (λ r. (1 ≤ r.0) × (r.0 ≤ src.nr_items))
unfolding count_first
counts_one dst src zero ne h t = absurd (ne refl)
counts_one dst src (suc n) ne h t =
    rw (t, item_ptr-done src 0 (omega arith), count_first)
      (Returns-map (λ r. (0 + 1 ≤ r.0) × (r.0 ≤ 0 + 1 + n)) _ (count_first dst src n (0 + 1) _)
        (count_first-Returns dst src n (0 + 1) _ (omega arith))
        (λ r w. (omega (arith, w), omega (arith, w))))

-- The copy of an item to a position beyond the count fails an assertion.
copy_items-traps :
    (nr : ℕ) (src dst : BtreeBlock) (d off : ℕ)
    → 1 ≤ nr
    → dst.nr_items < add16 d 0
    → copy_items nr src dst 0 d 0 off ≡ bug
unfolding copy_items set_item_off item_ptr get_item_off
copy_items-traps zero src dst d off h beyond = absurd (omega arith)
copy_items-traps (suc nr) src dst d off h beyond =
    let passed : ltb src.nr_items (add16 0 0) ≡ false = ground arith in
    let out : ltb dst.nr_items (add16 d 0) ≡ true = ground arith in rw (passed, out) refl

pub compact_same :
    (qsort_r : QsortR) (bt : BtreeBlock)
    → bt.avail_free ≡ bt.total_free
    → ngnfs_btree_compact qsort_r bt ≡ done bt
unfolding ngnfs_btree_compact
compact_same qsort_r bt e =
    let t : (bt.avail_free == bt.total_free) ≡ true = ground arith in rw (t, ngnfs_btree_compact)

-- Splitting a well-formed block with items into a sibling with none fails an assertion.
pub split-traps :
    (qsort_r : QsortR) (parent : BtreeBlock) (bt_pos : ℕ) (bt sib : BtreeBlock)
    → IsValid bt
    → IsValid sib
    → bt.nr_items ≢ 0
    → sib.nr_items ≡ 0
    → sib.avail_free ≡ sib.total_free
    → ngnfs_btree_split qsort_r parent bt_pos bt sib ≡ bug
unfolding ngnfs_btree_split move_items count_moving
split-traps qsort_r parent bt_pos bt sib vb vs some_ none_ free =
    let (r, e, w) =
      Returns-done (λ r. (1 ≤ r.0) × (r.0 ≤ bt.nr_items)) (count_first sib bt bt.nr_items 0 0)
        (counts_one sib bt bt.nr_items some_ (omega arith) (first_moves sib bt vs vb none_)) in
    let passed : (bt.nr_items == 0) ≡ false = ground arith in
    rw (passed, e, compact_same qsort_r sib free)
      (rw
        (copy_items-traps r.0 bt sib (sub16 sib.nr_items r.0) (avail_free_end sib) w.0
          (omega (arith, none_, w, vb.room)))
        refl)
