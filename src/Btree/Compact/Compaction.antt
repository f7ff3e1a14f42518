-- ===== src/Btree/Compact/Compaction.antt =====
-- When ngnfs_btree_compact of shared/btree.c returns.
use ngnfs_progs.Prelude.{
  ℕ, zero, suc, ◌≡◌, ◌≢◌, ◌==◌, ==_iff, ◌↔◌, refl, arith, Bool-cases, inl, inr,
}
use ngnfs_progs.Prelude.Run.{Run, done, bug, hang, ◌>>=◌}
use ngnfs_progs.Prelude.Words.{sub16}
use ngnfs_progs.Btree.Layout.{BtreeBlock, block_size}
use ngnfs_progs.Btree.Compact.{
  QsortR, cmp_item_off, cmp_item_key, sort_offs, compact_item, compact_loop, ngnfs_btree_compact,
}

-- What follows a run that returns nothing is not reached.
>>=-ne-done :
    {A B : Type 0} (m : Run A) (f : A → Run B) (b : B)
    → ((a : A) → f a ≢ done b)
    → (m >>= f) ≢ done b
>>=-ne-done (done a) f b h = h a
>>=-ne-done bug f b h = λ e. cc
>>=-ne-done hang f b h = λ e. cc

compact_loop-ne-done :
    (fuel : ℕ) (bt : BtreeBlock) (i off : ℕ) (nb : BtreeBlock)
    → compact_loop fuel bt i off ≢ done nb
unfolding compact_loop
compact_loop-ne-done zero bt i off nb = λ e. cc
compact_loop-ne-done (suc fuel) bt i off nb =
    >>=-ne-done (compact_item bt i off) _ nb (λ r. compact_loop-ne-done fuel r.0 (sub16 i 1) r.1 nb)

loop-ne-done :
    (qsort_r : QsortR) (fuel : ℕ) (bt : BtreeBlock) (i off : ℕ) (nb : BtreeBlock)
    → (compact_loop fuel bt i off >>= λ r.
        sort_offs qsort_r (record r { avail_free = r.total_free }) cmp_item_key)
      ≢ done nb
loop-ne-done qsort_r fuel bt i off nb h =
    go (compact_loop fuel bt i off) (compact_loop-ne-done fuel bt i off) h
  where
    go :
        (m : Run BtreeBlock)
        → ((b : BtreeBlock) → m ≢ done b)
        → (m >>= λ r. sort_offs qsort_r (record r { avail_free = r.total_free }) cmp_item_key)
          ≢ done nb
    go (done b) never e = never b refl
    go bug never e = cc
    go hang never e = cc

-- Whatever the sort does, compaction returns exactly where there is nothing to gather, that is
-- where all free space is available already, and then it returns the block as it was.
pub compact-done :
    (qsort_r : QsortR) (bt nb : BtreeBlock)
    → (ngnfs_btree_compact qsort_r bt ≡ done nb) ↔ ((bt.avail_free ≡ bt.total_free) × (nb ≡ bt))
unfolding ngnfs_btree_compact
compact-done qsort_r bt nb = elim (Bool-cases (bt.avail_free == bt.total_free)) [
  | inl gathered ↦
      rw (gathered, ngnfs_btree_compact) ((λ e. ((==_iff _ _).0 gathered, cc)), (λ p. cc p.1))
  | inr spread ↦
      rw (spread, ngnfs_btree_compact)
        (
          (λ e. absurd (
              >>=-ne-done (sort_offs qsort_r bt cmp_item_off) _ nb
                (λ b. loop-ne-done qsort_r 65536 b (sub16 b.nr_items 1) block_size nb) e)),
          (λ p. absurd (ground (arith, spread, p.0))),
        )
]
