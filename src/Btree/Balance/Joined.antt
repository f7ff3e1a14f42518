-- ===== src/Btree/Balance/Joined.antt =====
-- A block that holds the items of one block in front of those of another: that it is well-formed,
-- and the map that it stands for.
use ngnfs_progs.Prelude.{
  ℕ, zero, suc, ◌+◌, ◌*◌, ◌-◌, ◌≤◌, ◌<◌, ◌≡◌, ◌⊎◌, ◌↔◌, inl, inr, refl, sym, ◌∙◌, ap, arith,
}
use ngnfs_progs.Prelude.Memory.{Mem, read_bytes-ext}
use ngnfs_progs.Btree.Keys.{Bytes, less, cmp_keys}
use ngnfs_progs.Btree.Layout.{
  BtreeBlock, block_size, header_size, item_off_size, off_at, size_of, key_of, val_of, size_at,
  key_at, val_at,
}
use ngnfs_progs.Btree.Search.{IsSorted}
use ngnfs_progs.Btree.Valid.{IsValid, SameItem, SameItem-of_bytes, Maps, used, Apart}
use ngnfs_progs.Btree.Balance.Copy.{Copied, end_of, end_step, end_above, used_grows, used_none}

-- The payload of the item at `i` in `bt` stands at `j` in `nb`, maybe elsewhere.
pub record Payload (bt : BtreeBlock) (i : ℕ) (nb : BtreeBlock) (j : ℕ) : Type 0 where
  pub size : size_at nb j ≡ size_at bt i
  pub key : key_at nb j ≡ key_at bt i
  pub val : val_at nb j ≡ val_at bt i

module _ (m n : Mem) (p q : ℕ) (agree : (t : ℕ) → t < size_of n q → m (p + t) ≡ n (q + t)) where
  same_low : m p ≡ n q
  same_low = ground (arith, agree 0)

  same_high : m (p + 1) ≡ n (q + 1)
  same_high = agree 1 (omega arith)

  same_key_size : m (p + 2) ≡ n (q + 2)
  same_key_size = agree 2 (omega arith)

  same_size : size_of m p ≡ size_of n q
  same_size = omega (arith, same_low, same_high, same_key_size)

  same_key : key_of m p ≡ key_of n q
  same_key =
      rw same_key_size
        (read_bytes-ext m n (p + 3) (q + 3) (n (q + 2)) (λ t l. ground (arith, agree (3 + t))))

  same_val : val_of m p ≡ val_of n q
  same_val =
      rw (same_key_size, same_low, same_high)
        (read_bytes-ext m n (p + 3 + n (q + 2)) (q + 3 + n (q + 2)) (n q + 256 * n (q + 1))
          (λ t l. ground (arith, agree (3 + n (q + 2) + t))))

Payload-of_bytes :
    (bt : BtreeBlock) (i : ℕ) (nb : BtreeBlock) (j : ℕ)
    → ((t : ℕ) → t < size_at bt i → nb.mem (off_at nb j + t) ≡ bt.mem (off_at bt i + t))
    → Payload bt i nb j
unfolding key_at val_at size_at
Payload-of_bytes bt i nb j agree = record {
  size = same_size nb.mem bt.mem (off_at nb j) (off_at bt i) agree;
  key = same_key nb.mem bt.mem (off_at nb j) (off_at bt i) agree;
  val = same_val nb.mem bt.mem (off_at nb j) (off_at bt i) agree;
}

module _ (dst src nb : BtreeBlock) (vd : IsValid dst) (vs : IsValid src)
    (fits : used src src.nr_items ≤ dst.avail_free)
    (count : nb.nr_items ≡ src.nr_items + dst.nr_items)
    (c : Copied dst src src.nr_items nb.mem) where
  moved_off : (k : ℕ) → k < src.nr_items → off_at nb k ≡ end_of dst src (suc k)
  unfolding off_at
  moved_off k h = c.offs k h

  moved : (k : ℕ) → k < src.nr_items → Payload src k nb k
  moved k h = Payload-of_bytes src k nb k (λ t l. rw (moved_off k h) (c.bytes k t h l))

  kept : (k : ℕ) → k < dst.nr_items → SameItem dst k nb (src.nr_items + k)
  unfolding off_at
  kept k h =
      SameItem-of_bytes dst k nb (src.nr_items + k) (c.slots k h)
        (λ a l. c.others a (omega (arith, vd.behind k h)))

  -- An item of the block is one that was moved or one that was there.
  pub item_cases :
      (j : ℕ)
      → j < nb.nr_items
      → (j < src.nr_items) ⊎ ((k : ℕ) × (k < dst.nr_items) × (j ≡ src.nr_items + k))
  item_cases j h = elim (side j) [
    | inl l ↦ inl l
    | inr g ↦ inr (j - src.nr_items, omega arith, omega arith)
  ]
    where
      side : (j : ℕ) → (j < src.nr_items) ⊎ (src.nr_items ≤ j)
      side j = ground arith

  used_moved : (n : ℕ) → n ≤ src.nr_items → used nb n ≡ used src n
  unfolding used
  used_moved zero h = refl
  used_moved (suc n) h = omega (arith, used_moved n (omega arith), (moved n h).size)

  used_kept :
      (n : ℕ) → n ≤ dst.nr_items → used nb (n + src.nr_items) ≡ used src src.nr_items + used dst n
  unfolding used
  used_kept zero h =
      let e : 0 + src.nr_items ≡ src.nr_items = omega arith in
      ap (used nb) e ∙ omega (arith, used_moved src.nr_items (omega arith))
  used_kept (suc n) h =
      let e : suc n + src.nr_items ≡ suc (n + src.nr_items) = omega arith in
      let d : n + src.nr_items ≡ src.nr_items + n = omega arith in
      ap (used nb) e ∙ omega (arith, used_kept n (omega arith), ap (size_at nb) d, (kept n h).size)

  joined-IsSorted :
      ((i j : ℕ)
        → i < src.nr_items
        → j < dst.nr_items
        → cmp_keys (key_at src i) (key_at dst j) ≡ less)
      → IsSorted nb
  joined-IsSorted ahead i j h k = elim (item_cases j k) [
    | inl b ↦ rw ((moved i (omega arith)).key, (moved j b).key) (vs.sorted i j h b)
    | inr (y, b, e) ↦ elim (item_cases i (omega arith)) [
      | inl a ↦ rw (e, (moved i a).key, (kept y b).key) (ahead i y a b)
      | inr (x, a, d) ↦ rw (e, d, (kept x a).key, (kept y b).key) (vd.sorted x y (omega arith) b)
    ]
  ]

  pub Maps-joined : (key val : Bytes) → Maps nb key val ↔ (Maps dst key val ⊎ Maps src key val)
  Maps-joined key val = (to, from)
    where
      to : Maps nb key val → Maps dst key val ⊎ Maps src key val
      to (j, h, ek, ev) = elim (item_cases j h) [
        | inl l ↦ inr (j, l, sym (moved j l).key ∙ ek, sym (moved j l).val ∙ ev)
        | inr (k, l, e) ↦ inl (k, l, cc ((kept k l).key, e), cc ((kept k l).val, e))
      ]

      from : Maps dst key val ⊎ Maps src key val → Maps nb key val
      from (inl (k, l, ek, ev)) =
          (src.nr_items + k, omega (arith, count), (kept k l).key ∙ ek, (kept k l).val ∙ ev)
      from (inr (k, l, ek, ev)) =
          (k, omega (arith, count), (moved k l).key ∙ ek, (moved k l).val ∙ ev)

  joined-Apart : Apart nb
  joined-Apart i j h k = elim (item_cases j k) [
    | inl b ↦ inr (
        omega (
          arith,
          moved_off i (omega arith),
          moved_off j b,
          (moved j b).size,
          end_step dst src vs vd fits j b,
          end_above dst src vs vd fits (suc i) j h (omega arith),
        ))
    | inr (y, b, e) ↦ elim (item_cases i (omega arith)) [
      | inl a ↦
          rw (e, (kept y b).off)
            (inl (
              omega (
                arith,
                moved_off i a,
                (moved i a).size,
                vd.behind y b,
                end_step dst src vs vd fits i a,
                end_above dst src vs vd fits 0 i (omega arith) (omega arith),
                used_none src,
              )))
      | inr (x, a, d) ↦
          rw (e, d, (kept x a).off, (kept x a).size, (kept y b).off, (kept y b).size)
            (vd.apart x y (omega arith) b)
    ]
  ]

  used_joined : used nb nb.nr_items ≡ used src src.nr_items + used dst dst.nr_items
  used_joined =
      let e : nb.nr_items ≡ dst.nr_items + src.nr_items = omega (arith, count) in
      ap (used nb) e ∙ used_kept dst.nr_items (omega arith)

  joined_behind :
      nb.avail_free ≡ dst.avail_free - used src src.nr_items
      → (i : ℕ) → i < nb.nr_items
      → header_size + item_off_size * nb.nr_items + nb.avail_free ≤ off_at nb i
  joined_behind avail i h = elim (item_cases i h) [
    | inl l ↦ omega (
      arith,
      avail,
      count,
      fits,
      moved_off i l,
      end_above dst src vs vd fits (suc i) src.nr_items l (omega arith),
    )
    | inr (k, l, e) ↦ rw e (
        omega (
          arith,
          avail,
          count,
          fits,
          (kept k l).off,
          vd.behind k l,
          used_grows src 0 src.nr_items (omega arith),
          used_none src,
        ))
  ]

  joined_inside : (i : ℕ) → i < nb.nr_items → off_at nb i + size_at nb i ≤ block_size
  joined_inside i h = elim (item_cases i h) [
    | inl l ↦ omega (
      arith,
      vd.room,
      moved_off i l,
      (moved i l).size,
      end_step dst src vs vd fits i l,
      end_above dst src vs vd fits 0 i (omega arith) (omega arith),
      used_none src,
    )
    | inr (k, l, e) ↦ rw e (omega (arith, (kept k l).off, (kept k l).size, vd.inside k l))
  ]

  pub joined-IsValid :
      nb.total_free ≡ dst.total_free - used src src.nr_items
      → nb.avail_free ≡ dst.avail_free - used src src.nr_items
      → ((i j : ℕ)
          → i < src.nr_items
          → j < dst.nr_items
          → cmp_keys (key_at src i) (key_at dst j) ≡ less)
      → IsValid nb
  joined-IsValid total avail ahead = record {
    room =
        omega
          (arith, avail, vd.room, fits, used_grows src 0 src.nr_items (omega arith), used_none src);
    avail_le_total = omega (arith, total, avail, vd.avail_le_total);
    account = omega (arith, total, used_joined, vd.account, fits, vd.avail_le_total);
    behind = λ i h. joined_behind avail i h;
    inside = joined_inside;
    apart = joined-Apart;
    sorted = joined-IsSorted ahead;
  }
