-- ===== src/Btree/Balance/Refill.antt =====
-- move_items and ngnfs_btree_refill of shared/btree.c with a sibling to the left.
use ngnfs_progs.Prelude.{
  ℕ, ◌+◌, ◌*◌, ◌-◌, ◌≤◌, ◌<◌, ◌≡◌, ◌≢◌, ◌==◌, ◌⊎◌, ◌↔◌, true, false, Bool, ltb, refl, ◌∙◌, ap,
  arith, if◌then◌else◌,
}
use ngnfs_progs.Prelude.Run.{Run, done, Returns, Returns-bind}
use ngnfs_progs.Prelude.Words.{sub16, add16}
use ngnfs_progs.Prelude.Memory.{Mem, load16, memmove}
use ngnfs_progs.Btree.Keys.{Bytes, less, cmp_keys}
use ngnfs_progs.Btree.Layout.{
  BtreeBlock, item_off_ptr, off_at, key_at, avail_free_end, memmove_tail_offs,
}
use ngnfs_progs.Btree.Slots.{memmove_tail_offs_lem}
use ngnfs_progs.Btree.Remove.{remove_item-Inserted}
use ngnfs_progs.Btree.Valid.{IsValid, Inserted, Maps, used}
use ngnfs_progs.Btree.Compact.{QsortR}
use ngnfs_progs.Btree.Move.{copy_items, move_items, moved_to, moved_from}
use ngnfs_progs.Btree.Balance.{ngnfs_btree_refill, refill_parent, drains}
use ngnfs_progs.Btree.Balance.Split.{compact_same}
use ngnfs_progs.Btree.Balance.Copy.{Copied, end_of, used_grows, used_none}
use ngnfs_progs.Btree.Balance.Rounds.{count_moving-all, copy_items-Copied}
use ngnfs_progs.Btree.Balance.Joined.{Maps-joined, joined-IsValid}

-- `r` has a well-formed block with the items of both, and the emptied source.
pub record Merges (dst src : BtreeBlock) (r : BtreeBlock × BtreeBlock) : Type 0 where
  pub dst_valid : IsValid r.0
  pub src_valid : IsValid r.1
  pub emptied : r.1.nr_items ≡ 0
  pub maps : (key val : Bytes) → Maps r.0 key val ↔ (Maps dst key val ⊎ Maps src key val)

-- What a merge asks of the blocks: no free space of `dst` is scattered, the items of `src` fit into
-- it, there is at most one more of them than `dst` has, and they come first.
pub record CanMerge (dst src : BtreeBlock) : Type 0 where
  pub dst_valid : IsValid dst
  pub src_valid : IsValid src
  pub gathered : dst.avail_free ≡ dst.total_free
  pub fits : used src src.nr_items ≤ dst.avail_free
  pub few : src.nr_items ≤ dst.nr_items + 1
  pub some_items : src.nr_items ≢ 0
  pub ahead :
      (i j : ℕ)
      → i < src.nr_items
      → j < dst.nr_items
      → cmp_keys (key_at src i) (key_at dst j) ≡ less

module _ (dst src : BtreeBlock) (can : CanMerge dst src) where
  -- The array of `dst` with room in front.
  abbrev room_made : Mem
  room_made =
      if ltb 0 dst.nr_items
      then memmove dst.mem (item_off_ptr src.nr_items) (item_off_ptr 0) ((dst.nr_items - 0) * 2)
      else dst.mem

  made : memmove_tail_offs dst 0 src.nr_items ≡ record dst { mem = room_made }
  made = memmove_tail_offs_lem dst 0 src.nr_items (omega (arith, can.dst_valid.room)) (omega arith)

  room_made_slots :
      (k : ℕ) → k < dst.nr_items → load16 room_made (item_off_ptr (src.nr_items + k)) ≡ off_at dst k
  unfolding off_at memmove
  room_made_slots k h = ground arith

  room_made_others :
      (a : ℕ) → item_off_ptr dst.nr_items + dst.avail_free ≤ a → room_made a ≡ dst.mem a
  unfolding memmove
  room_made_others a h =
      ground (arith, can.fits, used_grows src 0 src.nr_items (omega arith), used_none src)

  room_made-Copied : Copied dst src 0 room_made
  room_made-Copied = record {
    offs = λ k h. absurd (omega arith);
    bytes = λ k j h l. absurd (omega arith);
    slots = room_made_slots;
    others = room_made_others;
  }

  abbrev merged : Mem → BtreeBlock × BtreeBlock
  merged m = (
    moved_to (record dst { mem = m }) src.nr_items (used src src.nr_items),
    moved_from src src.nr_items (used src src.nr_items),
  )

  emptied_count : sub16 src.nr_items src.nr_items ≡ 0
  emptied_count = omega arith

  emptied_free : add16 src.total_free (used src src.nr_items) ≡ 4080
  emptied_free = omega (arith, can.src_valid.account)

  emptied-IsValid : (m : Mem) → IsValid (merged m).1
  emptied-IsValid m = record {
    room = omega (arith, can.src_valid.room, emptied_count);
    avail_le_total =
        omega (arith, can.src_valid.avail_le_total, can.src_valid.account, emptied_free);
    account =
        omega (arith, emptied_free, ap (used (merged m).1) emptied_count, used_none (merged m).1);
    behind = λ i h. absurd (omega (arith, emptied_count));
    inside = λ i h. absurd (omega (arith, emptied_count));
    apart = λ i j h k. absurd (omega (arith, emptied_count));
    sorted = λ i j h k. absurd (omega (arith, emptied_count));
  }

  merged_count : add16 dst.nr_items src.nr_items ≡ src.nr_items + dst.nr_items
  merged_count = omega (arith, can.few, can.dst_valid.room)

  taken : sub16 dst.total_free (used src src.nr_items) ≡ dst.total_free - used src src.nr_items
  taken = omega (arith, can.fits, can.dst_valid.avail_le_total, can.dst_valid.account)

  merged-Merges : (m : Mem) → Copied dst src src.nr_items m → Merges dst src (merged m)
  merged-Merges m c = record {
    dst_valid =
        joined-IsValid dst src (merged m).0 can.dst_valid can.src_valid can.fits merged_count c
          taken (omega (arith, taken, can.gathered)) can.ahead;
    src_valid = emptied-IsValid m;
    emptied = emptied_count;
    maps = Maps-joined dst src (merged m).0 can.dst_valid can.src_valid can.fits merged_count c;
  }

  end_start : avail_free_end dst ≡ end_of dst src 0
  unfolding avail_free_end
  end_start = omega (arith, can.dst_valid.room, used_none src)

  end_made : avail_free_end (record dst { mem = room_made }) ≡ end_of dst src 0
  unfolding avail_free_end
  end_made = omega (arith, can.dst_valid.room, used_none src)

  abbrev copy_all : ℕ → ℕ → Run BtreeBlock
  copy_all s off = copy_items src.nr_items src (record dst { mem = room_made }) s 0 0 off

  all_copied :
      (m : Mem)
      → copy_all 0 (end_of dst src 0) ≡ done (record dst { mem = m })
      → copy_all (sub16 src.nr_items src.nr_items) (avail_free_end (record dst { mem = room_made }))
        ≡ done (record dst { mem = m })
  all_copied m q =
      ap (λ s. copy_all s (avail_free_end (record dst { mem = room_made }))) emptied_count
      ∙ ap (copy_all 0) end_made
      ∙ q

  pub move_items-Merges :
      (qsort_r : QsortR) (drain_src : Bool)
      → Returns (move_items qsort_r dst src false drain_src) (Merges dst src)
  unfolding move_items
  move_items-Merges qsort_r drain_src =
      let passed : (src.nr_items == 0) ≡ false = ground (arith, can.some_items) in
      let (m, q, w) =
        copy_items-Copied dst src can.src_valid can.dst_valid can.fits can.few src.nr_items 0
          (record dst { mem = room_made }) (omega arith) refl room_made-Copied in
      rw
        (
          passed,
          count_moving-all src can.src_valid dst drain_src,
          compact_same qsort_r dst can.gathered,
        )
        (rw made (rw (all_copied m q) (merged-Merges m w)))

-- Refilling a block from its left sibling, where the two can be merged: the parent loses exactly
-- its item for the sibling, the block is well-formed and maps what both mapped, and the sibling is
-- empty, whether or not the two were below the minimum of use.
pub refill-Merges :
    (qsort_r : QsortR) (parent : BtreeBlock) (bt_pos sib_pos : ℕ) (bt sib : BtreeBlock)
    → IsValid parent
    → sib_pos < bt_pos
    → sib_pos < parent.nr_items
    → CanMerge bt sib
    → Returns
        (ngnfs_btree_refill qsort_r parent bt_pos sib_pos bt sib)
        (λ r. IsValid r.0 × Inserted r.0 parent sib_pos × Merges bt sib (r.1, r.2))
unfolding ngnfs_btree_refill refill_parent
refill-Merges qsort_r parent bt_pos sib_pos bt sib valid left in_range can =
    let right : ltb bt_pos sib_pos ≡ false = ground arith in
    let (parent1, q, v, ins) = remove_item-Inserted parent sib_pos valid (omega arith) in
    rw right (
      Returns-bind (Merges bt sib) _ (move_items qsort_r bt sib false (drains bt sib)) _
        (move_items-Merges bt sib can qsort_r (drains bt sib))
        (λ r w.
          let gone : (r.1.nr_items == 0) ≡ true = ground (arith, w.emptied) in
          rw (gone, q) (v, ins, w)))
