-- ===== src/Tests/Balance.antt =====
-- shared/btree.c: compaction, verification, splitting and refilling at blocks of few items.
use ngnfs_progs.Prelude.{
  ℕ, zero, suc, ◌+◌, ◌-◌, ◌≤◌, ◌<◌, ◌≡◌, ◌≢◌, ◌==◌, ◌↔◌, true, refl, subst, [], ◌∷◌, leb,
  if◌then◌else◌, arith,
}
use ngnfs_progs.Prelude.Run.{Run, done, bug, hang, Returns}
use ngnfs_progs.Prelude.Memory.{Mem}
use ngnfs_progs.Btree.Keys.{Sign, greater, less, same, cmp_keys}
use ngnfs_progs.Btree.Layout.{BtreeBlock, item_off_ptr, item_off_size, key_at}
use ngnfs_progs.Btree.Valid.{IsValid, Inserted}
use ngnfs_progs.Btree.Insert.{key_at-new, with_item, with_item-IsValid}
use ngnfs_progs.Btree.Compact.{
  QsortR, cmp_item_off, swap_loop, swap_words_16, ngnfs_btree_compact, ngnfs_btree_verify,
}
use ngnfs_progs.Btree.Compact.Compaction.{compact-done}
use ngnfs_progs.Btree.Compact.Verification.{Sorts, IsSort, verify-accepts}
use ngnfs_progs.Btree.Balance.{ngnfs_btree_split, ngnfs_btree_refill}
use ngnfs_progs.Btree.Balance.Split.{split-traps}
use ngnfs_progs.Btree.Balance.Refill.{CanMerge, Merges, refill-Merges}
use ngnfs_progs.Tests.Btree.{
  empty, inode_key, inode, one_item, one_item-IsValid, empty-IsValid, empty-Splits,
}

-- The two words at an address, the other way round.
abbrev exchanged : Mem → ℕ → Mem
exchanged m a b =
    if b == a
    then m (a + 2)
    else if b == a + 1
    then m (a + 3)
    else if b == a + 2
    then m a
    else if b == a + 3
    then m (a + 1)
    else m b

-- Sorts up to two words, and does not return for more.
abbrev pair_sort : QsortR
pair_sort m base num size cmp =
    if leb num 1
    then done m
    else if num == 2
    then elim (cmp m base (base + 2)) [ greater ↦ done (exchanged m base) | _ ↦ done m ]
    else hang

sorted_few : (m : Mem) (num : ℕ) → num ≤ 1 → Sorts m num m
sorted_few m num few = record {
  ordered = λ i j h k. absurd (omega arith);
  came_from = λ i h. (i, h, refl);
  behind = λ a h. refl;
}

kept_pair : (m : Mem) → cmp_item_off m 16 18 ≢ greater → Sorts m 2 m
kept_pair m in_order = record {
  ordered = λ i j h k e. in_order (ground (arith, e));
  came_from = λ i h. (i, h, refl);
  behind = λ a h. refl;
}

exchanged_pair : (m : Mem) → cmp_item_off m 16 18 ≡ greater → Sorts m 2 (exchanged m 16)
exchanged_pair m falls = record {
  ordered = λ i j h k e. ground (arith, falls, e);
  came_from = λ i h. (1 - i, omega arith, ground arith);
  behind = λ a h. ground arith;
}

pair_sort-Sorts :
    (m : Mem) (num : ℕ) (s : Mem)
    → pair_sort m (item_off_ptr 0) num item_off_size cmp_item_off ≡ done s
    → Sorts m num s
pair_sort-Sorts m zero s e =
    let q : m ≡ s = cc in subst (Sorts m 0) q (sorted_few m 0 (omega arith))
pair_sort-Sorts m (suc zero) s e =
    let q : m ≡ s = cc in subst (Sorts m 1) q (sorted_few m 1 (omega arith))
pair_sort-Sorts m (suc (suc zero)) s e = go (cmp_item_off m 16 18) refl e
  where
    go :
        (c : Sign)
        → cmp_item_off m 16 18 ≡ c
        → elim c as (λ x. Run Mem) [
          | greater ↦ done (exchanged m 16)
          | less ↦ done m
          | same ↦ done m
        ]
          ≡ done s
        → Sorts m 2 s
    go less q h = let w : m ≡ s = cc in subst (Sorts m 2) w (kept_pair m (λ g. cc))
    go same q h = let w : m ≡ s = cc in subst (Sorts m 2) w (kept_pair m (λ g. cc))
    go greater q h = let w : exchanged m 16 ≡ s = cc in subst (Sorts m 2) w (exchanged_pair m q)
pair_sort-Sorts m (suc (suc (suc n))) s e = absurd (ground (arith, e))

pair_sort-IsSort : IsSort pair_sort
pair_sort-IsSort = (λ m base num size cmp h. ground (arith, h), pair_sort-Sorts)

-- Words of two bytes are not swapped: the loop runs from the byte before them downwards.
swap_words_16_traps : swap_words_16 (λ a. a) 16 18 2 ≢ done (λ a. a)
unfolding swap_words_16 swap_loop
swap_words_16_traps = λ e. ground (arith, e)

compact-done_example :
    (ngnfs_btree_compact pair_sort one_item ≡ done one_item)
    ↔ ((one_item.avail_free ≡ one_item.total_free) × (one_item ≡ one_item))
compact-done_example = compact-done pair_sort one_item one_item

verify-accepts_example :
    ((nb : BtreeBlock) × (ngnfs_btree_verify pair_sort one_item ≡ done (true, nb)))
    ↔ (one_item.nr_items ≡ 1)
verify-accepts_example =
    verify-accepts pair_sort one_item pair_sort-IsSort one_item-IsValid (λ e. omega arith)

split-traps_example : ngnfs_btree_split pair_sort one_item 0 one_item empty ≡ bug
split-traps_example =
    split-traps pair_sort one_item 0 one_item empty one_item-IsValid empty-IsValid
      (λ e. omega arith) refl refl

abbrev next_item : BtreeBlock
next_item = with_item empty 0 (1 ∷ []) inode

next_item-IsValid : IsValid next_item
next_item-IsValid =
    with_item-IsValid empty 0 (1 ∷ []) inode empty-IsValid (omega arith) (omega arith) (omega arith)
      (empty-Splits (1 ∷ []))

keys_ahead : (i j : ℕ) → i < 1 → j < 1 → cmp_keys (key_at one_item i) (key_at next_item j) ≡ less
unfolding cmp_keys
keys_ahead i j h k =
    let first : i ≡ 0 = omega arith in
    let second : j ≡ 0 = omega arith in
    rw
      (
        first,
        second,
        key_at-new empty 0 inode_key inode empty-IsValid (omega arith) (omega arith) (omega arith),
        key_at-new empty 0 (1 ∷ []) inode empty-IsValid (omega arith) (omega arith) (omega arith),
      )
      refl

items-CanMerge : CanMerge next_item one_item
items-CanMerge = record {
  dst_valid = next_item-IsValid;
  src_valid = one_item-IsValid;
  gathered = refl;
  fits = omega (arith, one_item-IsValid.account);
  few = omega arith;
  some_items = λ e. omega arith;
  ahead = keys_ahead;
}

refill-Merges_example :
    Returns
      (ngnfs_btree_refill pair_sort one_item 1 0 next_item one_item)
      (λ r. IsValid r.0 × Inserted r.0 one_item 0 × Merges next_item one_item (r.1, r.2))
refill-Merges_example =
    refill-Merges pair_sort one_item 1 0 next_item one_item one_item-IsValid (omega arith)
      (omega arith) items-CanMerge
