-- ===== src/Btree/Remove.antt =====
-- remove_item of shared/btree.c on a well-formed block: the block that it makes, and that this
-- block is well-formed.
use ngnfs_progs.Prelude.{
  ℕ, ◌+◌, ◌*◌, ◌-◌, ◌≤◌, ◌<◌, ◌≡◌, ◌≢◌, ==_iff, ◌⊎◌, inl, inr, false, ltb, ◌==◌, if◌then◌else◌,
  arith, sym, refl, Bool-cases,
}
use ngnfs_progs.Prelude.Run.{done}
use ngnfs_progs.Prelude.Words.{sub16, add16}
use ngnfs_progs.Btree.Layout.{
  BtreeBlock, header_size, item_off_ptr, item_off_size, max_free, off_at, size_at, item_ptr-done,
  get_item_off, total_item_size, avail_free_end,
}
use ngnfs_progs.Btree.Items.{remove_item}
use ngnfs_progs.Btree.Slots.{
  close_slot, close_slot_beyond, close_slot_below, close_slot_above, set_item_off-close_slot,
}
use ngnfs_progs.Btree.Valid.{
  IsValid, Inserted, SameItem-of_bytes, skip, used, used-Inserted, Apart-of_Inserted,
  IsSorted-of_Inserted,
}

-- What the region for allocations grows by: a hole that lies elsewhere is not joined to it.
abbrev pub freed : BtreeBlock → ℕ → ℕ
freed bt pos =
    if off_at bt pos == item_off_ptr bt.nr_items + bt.avail_free
    then item_off_size + size_at bt pos
    else item_off_size

-- The block that remove_item makes, in one expression with nothing left to wrap.
abbrev pub without_item : BtreeBlock → ℕ → BtreeBlock
without_item bt pos = record bt {
  nr_items = bt.nr_items - 1;
  total_free = bt.total_free + (item_off_size + size_at bt pos);
  avail_free = bt.avail_free + freed bt pos;
  mem = close_slot bt.mem bt.nr_items pos;
}

size_at_pos : (bt : BtreeBlock) (i : ℕ) → 3 ≤ size_at bt i
unfolding size_at
size_at_pos bt i = omega arith

ne_cases : (a b : ℕ) → a ≢ b → (a < b) ⊎ (b < a)
ne_cases a b h = ground arith

module _ (bt : BtreeBlock) (pos : ℕ) (valid : IsValid bt) (in_range : pos < bt.nr_items) where
  abbrev rb : BtreeBlock
  rb = without_item bt pos

  off_kept : (i : ℕ) → i < rb.nr_items → off_at bt (skip pos i) ≡ off_at rb i
  unfolding off_at
  off_kept i h = elim (Bool-cases (ltb i pos)) [
    | inl l ↦ rw l (sym (close_slot_below bt.mem bt.nr_items pos in_range i (ground arith)))
    | inr g ↦
        rw g (sym (close_slot_above bt.mem bt.nr_items pos in_range i (ground arith) (omega arith)))
  ]

  bytes_kept : (i a : ℕ) → i < rb.nr_items → off_at rb i ≤ a → bt.mem a ≡ rb.mem a
  bytes_kept i a h k =
      let behind = valid.behind (skip pos i) (ground arith) in
      sym (close_slot_beyond bt.mem bt.nr_items pos in_range a (omega (arith, off_kept i h)))

  pub without_item-Inserted : Inserted rb bt pos
  without_item-Inserted = record {
    count = omega arith;
    in_range = omega arith;
    keeps =
        λ i h. SameItem-of_bytes rb i bt (skip pos i) (off_kept i h) (λ a k. bytes_kept i a h k);
  }

  accounted : rb.total_free + used rb rb.nr_items ≡ max_free
  accounted = omega (arith, valid.account, used-Inserted rb bt pos without_item-Inserted)

  size_exact : total_item_size bt.mem (off_at bt pos) ≡ item_off_size + size_at bt pos
  unfolding total_item_size size_at
  size_exact = omega (arith, accounted)

  total_exact :
      add16 bt.total_free (item_off_size + size_at bt pos)
      ≡ bt.total_free + (item_off_size + size_at bt pos)
  total_exact = omega (arith, accounted)

  avail_exact : add16 bt.avail_free (freed bt pos) ≡ bt.avail_free + freed bt pos
  avail_exact = ground (arith, accounted, valid.avail_le_total)

  few : bt.nr_items < 32768
  few = omega (arith, valid.room)

  less_one : sub16 bt.nr_items 1 ≡ bt.nr_items - 1
  less_one = omega (arith, few)

  -- The block once the counts of free space are changed.
  abbrev counted : BtreeBlock
  counted = record bt {
    total_free = bt.total_free + (item_off_size + size_at bt pos);
    avail_free = bt.avail_free + freed bt pos;
  }

  read_off : (b : BtreeBlock) → b.nr_items ≡ bt.nr_items → get_item_off b pos ≡ done (off_at b pos)
  unfolding get_item_off off_at
  read_off b e = ground arith

  end_exact :
      (b : BtreeBlock)
      → b.nr_items ≡ bt.nr_items
      → b.avail_free ≡ bt.avail_free
      → avail_free_end b ≡ item_off_ptr bt.nr_items + bt.avail_free
  unfolding avail_free_end
  end_exact b e f = omega (arith, valid.room)

  remove_item-without_item : remove_item bt pos ≡ done rb
  unfolding remove_item off_at
  remove_item-without_item =
      let passed : ltb bt.nr_items pos ≡ false = ground arith in
      let bt1 = record bt { total_free = bt.total_free + (item_off_size + size_at bt pos) } in
      rw (
        passed,
        item_ptr-done bt pos (omega arith),
        size_exact,
        total_exact,
        read_off bt1 refl,
        end_exact bt1 refl refl,
        avail_exact,
        set_item_off-close_slot counted pos few in_range,
        less_one,
      )

  apart_any :
      (j : ℕ)
      → j < bt.nr_items
      → j ≢ pos
      → (off_at bt j + size_at bt j ≤ off_at bt pos)
        ⊎ (off_at bt pos + size_at bt pos ≤ off_at bt j)
  apart_any j h ne = elim (ne_cases j pos ne) [
    | inl l ↦ valid.apart j pos l in_range
    | inr g ↦ elim (valid.apart pos j g h) [ inl a ↦ inr a | inr b ↦ inl b ]
  ]

  -- The other items lie behind the region that a removal frees.
  behind_freed :
      (j : ℕ)
      → j < bt.nr_items
      → j ≢ pos
      → header_size + item_off_size * rb.nr_items + rb.avail_free ≤ off_at bt j
  behind_freed j h ne =
      elim (Bool-cases (off_at bt pos == item_off_ptr bt.nr_items + bt.avail_free)) [
        | inl at_end ↦ rw at_end (
            grind (
              arith,
              valid.behind j h,
              apart_any j h ne,
              size_at_pos bt j,
              (==_iff (off_at bt pos) (item_off_ptr bt.nr_items + bt.avail_free)).0 at_end,
            ))
        | inr inner ↦ rw inner (omega (arith, valid.behind j h))
      ]

  pub without_item-IsValid : IsValid rb
  without_item-IsValid = record {
    room = ground (arith, valid.room, valid.inside pos in_range);
    avail_le_total = ground (arith, valid.avail_le_total);
    account = accounted;
    behind = λ i h. rw (← off_kept i h) (behind_freed (skip pos i) (ground arith) (ground arith));
    inside = λ i h. omega (
      arith,
      off_kept i h,
      (without_item-Inserted.keeps i h).size,
      valid.inside (skip pos i) (ground arith),
    );
    apart = Apart-of_Inserted rb bt pos without_item-Inserted valid.apart;
    sorted = IsSorted-of_Inserted rb bt pos without_item-Inserted valid.sorted;
  }

  -- remove_item passes its assertions and takes the item at the position away.
  pub remove_item-Inserted :
      (rb : BtreeBlock) × (remove_item bt pos ≡ done rb) × IsValid rb × Inserted rb bt pos
  remove_item-Inserted = (rb, remove_item-without_item, without_item-IsValid, without_item-Inserted)
