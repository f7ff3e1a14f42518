-- ===== src/Btree/Compact/Verification.antt =====
-- Which well-formed blocks ngnfs_btree_verify of shared/btree.c accepts.
use ngnfs_progs.Prelude.{
  ℕ, suc, ◌+◌, ◌-◌, ◌≤◌, ◌<◌, ◌≡◌, ◌≢◌, ◌==◌, ◌↔◌, ◌⊎◌, Bool, true, false, Option, none, some, refl,
  sym, ap, ◌∙◌, arith, Bool-cases, inl, inr, ltb,
}
use ngnfs_progs.Prelude.Run.{Run, done, bug, hang, ◌>>=◌}
use ngnfs_progs.Prelude.Words.{add16}
use ngnfs_progs.Prelude.Memory.{Mem, load16}
use ngnfs_progs.Btree.Keys.{greater}
use ngnfs_progs.Btree.Layout.{
  BtreeBlock, block_size, max_items, item_off_size, item_off_ptr, get_item_off, item_ptr,
  item_ptr-done, item_size, off_at, size_at, avail_free_end,
}
use ngnfs_progs.Btree.Valid.{IsValid, used}
use ngnfs_progs.Btree.Compact.{
  QsortR, CmpFn, cmp_item_off, cmp_item_key, sort_offs, verify_items, verify_keys, verify_free,
  verify_order, ngnfs_btree_verify,
}

-- A sorted array: no element is greater than a later one, each was in the array before, and the
-- memory behind the array is as it was.
pub record Sorts (m : Mem) (num : ℕ) (s : Mem) : Type 0 where
  pub ordered :
      (i j : ℕ) → i < j → j < num → cmp_item_off s (item_off_ptr i) (item_off_ptr j) ≢ greater
  pub came_from :
      (i : ℕ)
      → i < num
      → (j : ℕ) × (j < num) × (load16 s (item_off_ptr i) ≡ load16 m (item_off_ptr j))
  pub behind : (a : ℕ) → item_off_ptr num ≤ a → s a ≡ m a

-- What is relied on of qsort_r: it does nothing to fewer than two elements, and where it returns
-- after sorting by the offsets, the array is sorted.
abbrev pub IsSort : QsortR → Type 0
IsSort qsort_r =
    ((m : Mem) (base num size : ℕ) (cmp : CmpFn) → num ≤ 1 → qsort_r m base num size cmp ≡ done m)
    × ((m : Mem) (num : ℕ) (s : Mem)
        → qsort_r m (item_off_ptr 0) num item_off_size cmp_item_off ≡ done s
        → Sorts m num s)

-- The items are in descending order of their offsets, so the second starts before the first ends.
two_items :
    (bt : BtreeBlock) (rest off free : ℕ) (x : ℕ × ℕ)
    → off_at bt 1 ≤ off_at bt 0
    → 3 ≤ item_size bt.mem (off_at bt 0)
    → 1 ≤ bt.nr_items
    → verify_items (suc (suc rest)) bt 0 off free ≢ done (some x)
unfolding verify_items get_item_off item_ptr off_at
two_items bt rest off free x falls big n = λ e. ground (arith, e)

size_pos : (bt : BtreeBlock) (i : ℕ) → 3 ≤ size_at bt i
unfolding size_at
size_pos bt i = omega arith

get_item_off-done :
    (bt : BtreeBlock) (i : ℕ) → i ≤ bt.nr_items → get_item_off bt i ≡ done (off_at bt i)
unfolding get_item_off off_at
get_item_off-done bt i h = ground arith

used_one : (bt : BtreeBlock) → used bt 1 ≡ 2 + size_at bt 0
unfolding used
used_one bt = omega arith

-- Where the first loop returns false, so does the function.
refused :
    (qsort_r : QsortR) (bt nb : BtreeBlock) (m : Run (Option (ℕ × ℕ)))
    → ((x : ℕ × ℕ) → m ≢ done (some x))
    → (m >>= λ end. elim end as (λ x. Run (Bool × BtreeBlock)) [
      | none ↦ done (false, bt)
      | some x ↦ verify_free qsort_r bt x.0 x.1
    ])
      ≢ done (true, nb)
refused qsort_r bt nb (done none) never e = cc
refused qsort_r bt nb (done (some x)) never e = never x refl
refused qsort_r bt nb bug never e = cc
refused qsort_r bt nb hang never e = cc

descends :
    (s : Mem)
    → cmp_item_off s (item_off_ptr 0) (item_off_ptr 1) ≢ greater
    → load16 s (item_off_ptr 1) ≤ load16 s (item_off_ptr 0)
descends s h = ground (arith, h)

module _ (qsort_r : QsortR) (bt : BtreeBlock) (sorts : IsSort qsort_r) (valid : IsValid bt) where
  one_sorted : (cmp : CmpFn) → bt.nr_items ≡ 1 → sort_offs qsort_r bt cmp ≡ done bt
  unfolding sort_offs
  one_sorted cmp one =
      rw
        (
          sorts.0 bt.mem (item_off_ptr 0) bt.nr_items item_off_size cmp (omega (arith, one)),
          sort_offs,
        )
        refl

  size_exact : (i : ℕ) → i < bt.nr_items → item_size bt.mem (off_at bt i) ≡ size_at bt i
  unfolding item_size size_at
  size_exact i h = omega (arith, valid.inside i h)

  one_round :
      bt.nr_items ≡ 1
      → verify_items 1 bt 0 (item_off_ptr bt.nr_items) 0
        ≡ done (some (off_at bt 0 + size_at bt 0, off_at bt 0 - 18))
  unfolding verify_items get_item_off item_ptr off_at
  one_round one = ground (
    arith,
    one,
    size_exact 0 (omega (arith, one)),
    valid.behind 0 (omega (arith, one)),
    valid.inside 0 (omega (arith, one)),
    size_pos bt 0,
  )

  end_before : bt.nr_items ≡ 1 → ltb (off_at bt 0) (avail_free_end bt) ≡ false
  unfolding avail_free_end
  end_before one = ground (arith, valid.behind 0 (omega (arith, one)), valid.room)

  one_free :
      bt.nr_items ≡ 1
      → verify_free qsort_r bt (off_at bt 0 + size_at bt 0) (off_at bt 0 - 18) ≡ done (true, bt)
  unfolding verify_free verify_order verify_keys
  one_free one =
      let in_range : 0 < bt.nr_items = omega (arith, one) in
      let ahead : ltb (off_at bt 0) (avail_free_end bt) ≡ false = end_before one in
      let right : (bt.total_free
            == add16 (off_at bt 0 - 18) (block_size - (off_at bt 0 + size_at bt 0)))
          ≡ true =
        ground (
          arith,
          valid.account,
          ap (used bt) one,
          used_one bt,
          valid.inside 0 in_range,
          valid.behind 0 in_range,
          one,
        ) in
      let no_more = ap (λ n. verify_keys (n - 1) bt 1 (off_at bt 0)) one in
      rw (get_item_off-done bt 0 (omega arith)) (
        rw (ahead, right)
          (rw (one_sorted cmp_item_key one)
            (rw (item_ptr-done bt 0 (omega arith)) (rw no_more refl))))

  one_verified : bt.nr_items ≡ 1 → ngnfs_btree_verify qsort_r bt ≡ done (true, bt)
  unfolding ngnfs_btree_verify
  one_verified one =
      let few : ltb max_items bt.nr_items ≡ false = ground (arith, one) in
      let round = ap (λ n. verify_items n bt 0 (item_off_ptr bt.nr_items) 0) one ∙ one_round one in
      rw (few, one_sorted cmp_item_off one, round) (one_free one)

  -- The first of the sorted items is one of the items of the block.
  first_size :
      (s : Mem)
      → 2 ≤ bt.nr_items
      → Sorts bt.mem bt.nr_items s
      → 3 ≤ item_size s (load16 s (item_off_ptr 0))
  unfolding item_size off_at size_at
  first_size s many so =
      let (j, h, e) = so.came_from 0 (omega arith) in
      let b = valid.behind j h in
      let from = load16 bt.mem (item_off_ptr j) in
      let low = so.behind from (omega arith) in
      let high = so.behind (from + 1) (omega arith) in
      let keys = so.behind (from + 2) (omega arith) in
      rw e (omega (arith, low, high, keys, valid.inside j h))

  many_items :
      (s : Mem)
      → 2 ≤ bt.nr_items
      → Sorts bt.mem bt.nr_items s
      → (x : ℕ × ℕ)
      → verify_items bt.nr_items (record bt { mem = s }) 0 (item_off_ptr bt.nr_items) 0
        ≢ done (some x)
  unfolding off_at
  many_items s many so x h =
      let count : bt.nr_items ≡ suc (suc (bt.nr_items - 2)) = omega arith in
      let sb = record bt { mem = s } in
      two_items sb (bt.nr_items - 2) (item_off_ptr bt.nr_items) 0 x
        (descends s (so.ordered 0 1 (omega arith) many)) (first_size s many so) (omega arith)
        (ap (λ n. verify_items n sb 0 (item_off_ptr bt.nr_items) 0) (sym count) ∙ h)

  many_refused :
      (nb : BtreeBlock) → 2 ≤ bt.nr_items → ngnfs_btree_verify qsort_r bt ≢ done (true, nb)
  unfolding ngnfs_btree_verify sort_offs
  many_refused nb many = elim (Bool-cases (ltb max_items bt.nr_items)) [
    | inl over ↦ rw (over, ngnfs_btree_verify) (λ e. cc)
    | inr few ↦
        rw (few, ngnfs_btree_verify)
          (go (qsort_r bt.mem (item_off_ptr 0) bt.nr_items item_off_size cmp_item_off) refl)
  ]
    where
      go :
          (r : Run Mem)
          → qsort_r bt.mem (item_off_ptr 0) bt.nr_items item_off_size cmp_item_off ≡ r
          → (r >>= (λ m. done (record bt { mem = m })) >>= λ bt1.
              verify_items bt1.nr_items bt1 0 (item_off_ptr bt1.nr_items) 0 >>= λ end.
              elim end as (λ x. Run (Bool × BtreeBlock)) [
                | none ↦ done (false, bt1)
                | some x ↦ verify_free qsort_r bt1 x.0 x.1
              ])
            ≢ done (true, nb)
      go bug q e = cc
      go hang q e = cc
      go (done s) q e =
          refused qsort_r (record bt { mem = s }) nb _
            (many_items s many (sorts.1 bt.mem bt.nr_items s q)) e

-- Where qsort_r sorts: of the well-formed blocks with items, verification accepts exactly those with
-- one.
pub verify-accepts :
    (qsort_r : QsortR) (bt : BtreeBlock)
    → IsSort qsort_r
    → IsValid bt
    → bt.nr_items ≢ 0
    → ((nb : BtreeBlock) × (ngnfs_btree_verify qsort_r bt ≡ done (true, nb))) ↔ (bt.nr_items ≡ 1)
verify-accepts qsort_r bt sorts valid some_ = (
  λ (nb, e). elim (cases bt.nr_items some_) [
    | inl one ↦ one
    | inr many ↦ absurd (many_refused qsort_r bt sorts valid nb many e)
  ],
  λ one. (bt, one_verified qsort_r bt sorts valid one),
)
  where
    cases : (n : ℕ) → n ≢ 0 → (n ≡ 1) ⊎ (2 ≤ n)
    cases n h = ground arith
