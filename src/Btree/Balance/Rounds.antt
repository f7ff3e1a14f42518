-- ===== src/Btree/Balance/Rounds.antt =====
-- The counting and the copying loop of move_items of shared/btree.c, where all items of a block are
-- put in front of those of another.
use ngnfs_progs.Prelude.{
  ℕ, zero, suc, ◌+◌, ◌≤◌, ◌<◌, ◌≡◌, refl, sym, ◌∙◌, arith, false, true, Bool, subst,
}
use ngnfs_progs.Prelude.Run.{done}
use ngnfs_progs.Prelude.Words.{add16, sub16}
use ngnfs_progs.Prelude.Memory.{Mem, store16}
use ngnfs_progs.Btree.Layout.{
  BtreeBlock, item_off_ptr, off_at, size_at, item_size, total_item_size, item_ptr-done,
  set_item_off, used_size,
}
use ngnfs_progs.Btree.Valid.{IsValid, used}
use ngnfs_progs.Btree.Move.{copy_items, count_last, count_moving, items_of}
use ngnfs_progs.Btree.Balance.Copy.{
  Copied, copied, copied-Copied, end_of, end_step, end_above, end_below,
}

set_item_off-done :
    (b : BtreeBlock) (pos off : ℕ)
    → pos ≤ b.nr_items
    → set_item_off b pos off ≡ done (record b { mem = store16 b.mem (item_off_ptr pos) off })
unfolding set_item_off
set_item_off-done b pos off h = ground arith

stored_off :
    (b : BtreeBlock) (pos off : ℕ)
    → off < 65536
    → off_at (record b { mem = store16 b.mem (item_off_ptr pos) off }) pos ≡ off
unfolding off_at store16
stored_off b pos off h = ground arith

module _ (src : BtreeBlock) (vs : IsValid src) where
  pub item_size-exact :
      (i : ℕ) → i < src.nr_items → item_size src.mem (off_at src i) ≡ size_at src i
  unfolding item_size size_at
  item_size-exact i h = omega (arith, vs.inside i h)

  pub used_bound : used src src.nr_items ≤ 4080
  used_bound = omega (arith, vs.account)

  count_last-done :
      (i nr moving : ℕ)
      → i ≤ src.nr_items
      → moving + used src i ≤ 4080
      → count_last src i nr moving ≡ done (nr + i, moving + used src i)
  unfolding count_last used total_item_size
  count_last-done zero nr moving h k = ground arith
  count_last-done (suc i) nr moving h k =
      let added : add16 moving (add16 2 (size_at src i)) ≡ moving + (2 + size_at src i) =
        omega arith in
      rw (item_ptr-done src i (omega arith), item_size-exact i h, added)
        (count_last-done i (nr + 1) (moving + (2 + size_at src i)) (omega arith) (omega arith)
          ∙ ground arith)

  -- All items are counted, whether the block is drained or not.
  pub count_moving-all :
      (dst : BtreeBlock) (drain_src : Bool)
      → count_moving dst src false drain_src ≡ done (src.nr_items, used src src.nr_items)
  unfolding count_moving used_size
  count_moving-all dst true = ground (arith, vs.account)
  count_moving-all dst false =
      let all : items_of src ≡ src.nr_items = ground (arith, vs.room) in
      rw all
        (count_last-done src.nr_items 0 0 (omega arith) (omega (arith, used_bound)) ∙ ground arith)

module _ (dst src : BtreeBlock) (vs : IsValid src) (vd : IsValid dst)
    (fits : used src src.nr_items ≤ dst.avail_free) (few : src.nr_items ≤ dst.nr_items + 1) where
  round :
      (rest i : ℕ) (b : BtreeBlock)
      → i < src.nr_items
      → b.nr_items ≡ dst.nr_items
      → copy_items (suc rest) src b 0 0 i (end_of dst src i)
        ≡ copy_items rest src
            (record b { mem = copied dst src i b.mem })
            0
            0
            (i + 1)
            (end_of dst src (suc i))
  unfolding copy_items
  round rest i b h count =
      let pos : add16 0 i ≡ i = omega (arith, vs.room) in
      let off : sub16 (end_of dst src i) (size_at src i) ≡ end_of dst src (suc i) = omega (
        arith,
        end_step dst src vs vd fits i h,
        end_above dst src vs vd fits 0 i (omega arith) (omega arith),
        end_below dst src vs vd fits 0,
      ) in
      let bound : end_of dst src (suc i) < 65536 = omega (
        arith,
        end_above dst src vs vd fits 0 (suc i) (omega arith) h,
        end_below dst src vs vd fits 0,
      ) in
      rw (pos, item_ptr-done src i (omega arith))
        (rw (item_size-exact src vs i h, off)
          (rw (set_item_off-done b i (end_of dst src (suc i)) (omega (arith, count, few))) (
            rw
              (
                item_ptr-done
                    (record b { mem = store16 b.mem (item_off_ptr i) (end_of dst src (suc i)) }) i
                    (omega (arith, count, few)),
                stored_off b i (end_of dst src (suc i)) bound,
              )
              refl)))

  pub copy_items-Copied :
      (rest i : ℕ) (b : BtreeBlock)
      → i + rest ≡ src.nr_items
      → b.nr_items ≡ dst.nr_items
      → Copied dst src i b.mem
      → (m : Mem) × (copy_items rest src b 0 0 i (end_of dst src i) ≡ done (record b { mem = m }))
        × Copied dst src src.nr_items m
  unfolding copy_items
  copy_items-Copied zero i b e count c =
      let all : i ≡ src.nr_items = omega arith in
      (b.mem, refl, subst (λ n. Copied dst src n b.mem) all c)
  copy_items-Copied (suc rest) i b e count c =
      let h : i < src.nr_items = omega arith in
      let (m, q, w) =
        copy_items-Copied rest (i + 1) (record b { mem = copied dst src i b.mem }) (omega arith)
          count
          (subst (λ n. Copied dst src n (copied dst src i b.mem)) (add-one i)
            (copied-Copied dst src vs vd fits i b.mem h c)) in
      (
        m,
        round rest i b h count
            ∙ subst
                (λ n.
                  copy_items rest src (record b { mem = copied dst src i b.mem }) 0 0 (i + 1)
                    (end_of dst src n)
                  ≡ done (record b { mem = m }))
                (sym (add-one i)) q,
        w,
      )
    where
      add-one : (i : ℕ) → suc i ≡ i + 1
      add-one i = omega arith
