-- ===== src/Btree/Insert.antt =====
-- insert_item of shared/btree.c on a well-formed block: the block that it makes, and that this
-- block is well-formed.
use ngnfs_progs.Prelude.{
  ℕ, ◌+◌, ◌*◌, ◌-◌, ◌≤◌, ◌<◌, ◌≡◌, inl, inr, false, ltb, length, arith, Bool-cases, ◌∙◌,
}
use mathlib.Core.Path.{ap₂}
use ngnfs_progs.Prelude.Run.{done}
use ngnfs_progs.Prelude.Words.{u16_mod, sub16, add16}
use ngnfs_progs.Prelude.Memory.{load16}
use ngnfs_progs.Btree.Keys.{Bytes}
use ngnfs_progs.Btree.Layout.{
  BtreeBlock, block_size, header_size, item_off_ptr, item_off_size, item_header_size, max_free,
  off_at, key_at, val_at, size_at, item_ptr, key_val_size, avail_free_end,
}
use ngnfs_progs.Btree.Search.{Splits}
use ngnfs_progs.Btree.Items.{fill_item, insert_item}
use ngnfs_progs.Btree.Slots.{
  set_item_off-open_slot, open_slot, open_slot_beyond, open_slot_below, open_slot_new,
  open_slot_above, fill_item_below, fill_item_beyond, fill_item-key_size, fill_item-val_size,
  key_of-fill_item, val_of-fill_item,
}
use ngnfs_progs.Btree.Valid.{
  IsValid, SameItem-of_bytes, Apart-Inserted, Inserted, skip, skip_cases, used-Inserted,
  IsSorted-Inserted,
}

abbrev pub new_size : Bytes → Bytes → ℕ
new_size key val = item_header_size + length key + length val

-- Where the new item goes: at the end of the free region.
abbrev pub new_off : BtreeBlock → Bytes → Bytes → ℕ
new_off bt key val = item_off_ptr bt.nr_items + bt.avail_free - new_size key val

-- The block that insert_item makes, in one expression with nothing left to wrap.
abbrev pub with_item : BtreeBlock → ℕ → Bytes → Bytes → BtreeBlock
with_item bt pos key val = record bt {
  nr_items = bt.nr_items + 1;
  total_free = bt.total_free - (item_off_size + new_size key val);
  avail_free = bt.avail_free - (item_off_size + new_size key val);
  mem =
      fill_item (open_slot bt.mem bt.nr_items pos (new_off bt key val)) (new_off bt key val) key
        val;
}

module _ (bt : BtreeBlock) (pos : ℕ) (key val : Bytes) (valid : IsValid bt)
    (in_range : pos ≤ bt.nr_items) (small : length key ≤ 255)
    (fits : item_off_size + new_size key val ≤ bt.avail_free) where
  size_exact : key_val_size (length key) (length val) ≡ new_size key val
  unfolding key_val_size
  size_exact = omega (arith, valid.room)

  end_exact : sub16 (avail_free_end bt) (new_size key val) ≡ new_off bt key val
  unfolding avail_free_end
  end_exact = omega (arith, valid.room)

  few : bt.nr_items < 32768
  few = omega (arith, valid.room)

  total_bound : bt.total_free ≤ max_free
  total_bound = omega (arith, valid.account)

  total_fits : item_off_size + new_size key val ≤ bt.total_free
  total_fits = omega (arith, valid.avail_le_total)

  avail_bound : bt.avail_free ≤ max_free
  avail_bound = omega (arith, valid.avail_le_total, total_bound)

  counted : add16 bt.nr_items 1 ≡ bt.nr_items + 1
  counted = omega (arith, few)

  taken :
      (free : ℕ)
      → free ≤ max_free
      → item_off_size + new_size key val ≤ free
      → sub16 free (item_off_size + new_size key val) ≡ free - (item_off_size + new_size key val)
  taken free h k = omega arith

  off_bound : new_off bt key val < u16_mod
  off_bound = omega (arith, valid.room)

  passed_again : ltb (bt.nr_items + 1) pos ≡ false
  passed_again = ground arith

  -- What is left of insert_item once its assertions have passed.
  insert_item-with_item : insert_item bt pos key val ≡ done (with_item bt pos key val)
  unfolding insert_item item_ptr
  insert_item-with_item =
      let passed : ltb bt.nr_items pos ≡ false = ground arith in
      let roomy : ltb bt.avail_free (item_off_size + new_size key val) ≡ false = ground arith in
      rw
        (
          size_exact,
          end_exact,
          passed,
          roomy,
          set_item_off-open_slot bt pos (new_off bt key val) few in_range,
        )
        (rw
          (
            counted,
            taken bt.total_free total_bound total_fits,
            taken bt.avail_free avail_bound fits,
          )
          (rw (
            passed_again,
            open_slot_new bt.mem bt.nr_items pos (new_off bt key val) in_range off_bound,
          )))

  abbrev nb : BtreeBlock
  nb = with_item bt pos key val

  -- The array slots of the new block, and the bytes that the old items keep.
  slot :
      (j : ℕ)
      → j < bt.nr_items + 1
      → off_at nb j
        ≡ load16 (open_slot bt.mem bt.nr_items pos (new_off bt key val)) (item_off_ptr j)
  unfolding off_at
  slot j h =
      ap₂ (λ a b. a + 256 * b)
        (fill_item_below _ (new_off bt key val) key val small (item_off_ptr j) (omega arith))
        (fill_item_below _ (new_off bt key val) key val small (item_off_ptr j + 1) (omega arith))

  bytes_kept : (i a : ℕ) → i < bt.nr_items → off_at bt i ≤ a → nb.mem a ≡ bt.mem a
  bytes_kept i a h k =
      let behind = valid.behind i h in
      fill_item_beyond _ (new_off bt key val) key val small a (omega arith)
      ∙ open_slot_beyond bt.mem bt.nr_items pos (new_off bt key val) in_range a (omega arith)

  off_kept : (i : ℕ) → i < bt.nr_items → off_at nb (skip pos i) ≡ off_at bt i
  unfolding off_at
  off_kept i h = elim (Bool-cases (ltb i pos)) [
    | inl l ↦ rw l (
        slot i (omega arith)
        ∙ open_slot_below bt.mem bt.nr_items pos (new_off bt key val) in_range i (ground arith))
    | inr g ↦ rw g (
        slot (i + 1) (omega arith)
        ∙ open_slot_above bt.mem bt.nr_items pos (new_off bt key val) in_range i (ground arith) h)
  ]

  pub with_item-Inserted : Inserted bt nb pos
  with_item-Inserted = record {
    count = omega arith;
    in_range = in_range;
    keeps =
        λ i h. SameItem-of_bytes bt i nb (skip pos i) (off_kept i h) (λ a k. bytes_kept i a h k);
  }

  pub off_at-new : off_at nb pos ≡ new_off bt key val
  off_at-new =
      slot pos (omega arith)
      ∙ open_slot_new bt.mem bt.nr_items pos (new_off bt key val) in_range off_bound

  pub key_at-new : key_at nb pos ≡ key
  unfolding key_at
  key_at-new = rw off_at-new (key_of-fill_item _ (new_off bt key val) key val small)

  val_bound : length val < u16_mod
  val_bound = omega (arith, total_bound, total_fits)

  pub val_at-new : val_at nb pos ≡ val
  unfolding val_at
  val_at-new = rw off_at-new (val_of-fill_item _ (new_off bt key val) key val small val_bound)

  pub size_at-new : size_at nb pos ≡ new_size key val
  unfolding size_at
  size_at-new = rw off_at-new (
      omega (
        arith,
        fill_item-key_size _ (new_off bt key val) key val small,
        fill_item-val_size _ (new_off bt key val) key val small val_bound,
      ))

  -- A fact of the new item and of every item that was kept holds of every item of the new block.
  each_item {ℓ} :
      (P : ℕ → Type ℓ)
      → P pos
      → ((i : ℕ) → i < bt.nr_items → P (skip pos i))
      → (j : ℕ) → j < nb.nr_items
      → P j
  each_item P new kept j h = elim (skip_cases pos bt.nr_items j in_range h) [
    | inl e ↦ rw e new
    | inr (i, l, e) ↦ rw e (kept i l)
  ]

  pub with_item-IsValid : Splits bt key pos → IsValid nb
  with_item-IsValid splits = record {
    room = omega (arith, valid.room);
    avail_le_total = omega (arith, valid.avail_le_total);
    account =
        omega (
          arith,
          valid.account,
          used-Inserted bt nb pos with_item-Inserted,
          size_at-new,
          total_fits,
        );
    behind =
        each_item (λ j. header_size + item_off_size * nb.nr_items + nb.avail_free ≤ off_at nb j)
          (omega (arith, off_at-new, fits))
          (λ i h. omega (arith, off_kept i h, valid.behind i h, fits));
    inside =
        each_item (λ j. off_at nb j + size_at nb j ≤ block_size)
          (omega (arith, off_at-new, size_at-new, fits, valid.room))
          (λ i h.
            omega (arith, off_kept i h, (with_item-Inserted.keeps i h).size, valid.inside i h));
    apart =
        Apart-Inserted bt nb pos with_item-Inserted
          (λ i h. omega (arith, off_at-new, size_at-new, valid.behind i h, fits)) valid.apart;
    sorted = IsSorted-Inserted bt nb pos with_item-Inserted valid.sorted (rw key_at-new splits);
  }

  -- Where there is room, insert_item passes its assertions and adds the item at the position.
  pub insert_item-Inserted :
      Splits bt key pos
      → (nb : BtreeBlock) × (insert_item bt pos key val ≡ done nb)
        × IsValid nb
        × Inserted bt nb pos
        × (key_at nb pos ≡ key)
        × (val_at nb pos ≡ val)
  insert_item-Inserted splits = (
    nb,
    insert_item-with_item,
    with_item-IsValid splits,
    with_item-Inserted,
    key_at-new,
    val_at-new,
  )
