-- ===== src/Cache/Merge.antt =====
-- The merging of two sets in the walk of ngnfs_block_dirty_begin of shared/block.c.
use ngnfs_progs.Prelude.{
  ℕ, ◌+◌, ◌≡◌, ◌≢◌, ◌⊎◌, ltb, true, false, some, List, arith, inl, inr, Bool-cases, sym,
}
use ngnfs_progs.Cache.State.{BlockInfo, set_limit}
use ngnfs_progs.Cache.Queues.{is_empty}
use ngnfs_progs.Cache.Sets.{set_of, in_set, merge_sets}
use ngnfs_progs.Cache.Dirty.{Merged, merged, too_large, merge_ordered, merge_two}
use ngnfs_progs.Cache.Sound.{
  IsSound, merge_sets-IsSound, swap-IsSound, set_of-merge_sets, merge_sets-full,
}
use ngnfs_progs.Cache.Clear.{clear_set_dirtying-IsSound}
use ngnfs_progs.Cache.Walk.{IsCached, Walking}

-- Two sets become one.
module _ (blocks rest : List ℕ) (small large : ℕ) (s : BlockInfo) where
  pub record Pair : Type 0 where
    pub apart : small ≢ large
    pub sound : IsSound s (some small) (some large)
    pub full : is_empty (s.sets large).block_list ≡ false
    pub full_small : is_empty (s.sets small).block_list ≡ false
    pub locked : (s.sets large).dirtying ≡ true
    pub locked_small : (s.sets small).dirtying ≡ true
    pub either :
        (b : ℕ) → in_set b blocks ≡ true → (set_of s b ≡ some small) ⊎ (set_of s b ≡ some large)
    pub cached : (b : ℕ) → in_set b rest ≡ true → IsCached s b

  merge_sets-Walking :
      Pair → Walking blocks rest (some small) (some large) (merge_sets s small large)
  unfolding merge_sets
  merge_sets-Walking pair = record {
    sound = merge_sets-IsSound s small large pair.apart pair.sound pair.full;
    full = λ t h. ground (arith, h, merge_sets-full s small large pair.apart pair.full);
    locked = λ t h. ground (arith, h, pair.apart, pair.locked);
    apart = λ t h. λ e. ground (arith, h, e, pair.apart);
    alone = λ h. cc;
    gathered = λ b h. set_of-merge_sets s small large pair.apart pair.sound b (pair.either b h);
    cached = λ b h. λ e. ground (arith, pair.cached b h, e);
  }

swap-Pair :
    (blocks rest : List ℕ) (small large : ℕ) (s : BlockInfo)
    → Pair blocks rest small large s
    → Pair blocks rest large small s
swap-Pair blocks rest small large s pair = record {
  apart = λ e. pair.apart (sym e);
  sound = swap-IsSound s (some small) (some large) pair.sound;
  full = pair.full_small;
  full_small = pair.full;
  locked = pair.locked_small;
  locked_small = pair.locked;
  either = λ b h. elim (pair.either b h) [ inl e ↦ inr e | inr e ↦ inl e ];
  cached = pair.cached;
}

-- What the merging of two sets gives to the rest of the walk.
abbrev pub MergedOk : List ℕ → List ℕ → Merged → Type 0
MergedOk blocks rest (merged small large s) = Walking blocks rest (some small) (some large) s
MergedOk blocks rest (too_large small large seq s) = IsSound s (some small) (some large)

merge_ordered-lem :
    (blocks rest : List ℕ) (small large : ℕ) (s : BlockInfo)
    → Pair blocks rest small large s
    → MergedOk blocks rest (merge_ordered s small large)
unfolding merge_ordered
merge_ordered-lem blocks rest small large s pair =
    elim (Bool-cases (ltb set_limit ((s.sets large).size + (s.sets small).size))) [
      | inl over ↦
          rw (over, merge_ordered)
            (clear_set_dirtying-IsSound (some small) (some large) large _
              (clear_set_dirtying-IsSound (some small) (some large) small s pair.sound))
      | inr fits ↦ rw (fits, merge_ordered) (merge_sets-Walking blocks rest small large s pair)
    ]

pub merge_two-lem :
    (blocks rest : List ℕ) (small large : ℕ) (s : BlockInfo)
    → Pair blocks rest small large s
    → MergedOk blocks rest (merge_two s small large)
unfolding merge_two
merge_two-lem blocks rest small large s pair =
    elim (Bool-cases (ltb (s.sets large).size (s.sets small).size)) [
      | inl more ↦
          rw (more, merge_two)
            (merge_ordered-lem blocks rest large small s (swap-Pair blocks rest small large s pair))
      | inr less ↦ rw (less, merge_two) (merge_ordered-lem blocks rest small large s pair)
    ]
