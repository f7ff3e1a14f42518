-- ===== src/Cache/Join.antt =====
-- A set that is held joins the walk of ngnfs_block_dirty_begin of shared/block.c.
use ngnfs_progs.Prelude.{
  ℕ, ◌≡◌, true, false, Option, none, some, List, ◌∷◌, refl, arith, inl, inr, Bool-cases,
}
use ngnfs_progs.Prelude.Run.{Run, done, Returns}
use ngnfs_progs.Cache.State.{BlockInfo}
use ngnfs_progs.Cache.Queues.{is_empty}
use ngnfs_progs.Cache.Sets.{set_of}
use ngnfs_progs.Cache.Dirty.{
  clear_opt, wait_sync, Walk, set_dirtying, Merged, merged, too_large, join,
}
use ngnfs_progs.Cache.Sound.{IsSound, bits-IsSound, swap-IsSound}
use ngnfs_progs.Cache.Clear.{clear_set_dirtying-IsSound}
use ngnfs_progs.Cache.Walk.{Walking, WalkEnds}
use ngnfs_progs.Cache.Merge.{Pair, MergedOk, merge_two-lem}

module _ (before rest : List ℕ) (c id : ℕ) where
  -- The first set becomes `large`.
  join_first :
      (s : BlockInfo)
      → Walking before rest (some id) none s
      → is_empty (s.sets id).block_list ≡ false
      → set_of s c ≡ some id
      → Walking (c ∷ before) rest none (some id) (set_dirtying s id)
  join_first s w own mine = record {
    sound =
        swap-IsSound (set_dirtying s id) (some id) none
          (bits-IsSound s id true (s.sets id).dirty (some id) none w.sound);
    full = λ l h. ground arith;
    locked = λ l h. ground arith;
    apart = λ l h. λ e. cc;
    alone = λ h. cc;
    gathered = λ b h. ground (arith, w.alone refl, mine, h);
    cached = w.cached;
  }

clear_opt-IsSound :
    (set small large : Option ℕ) (s : BlockInfo)
    → IsSound s small large
    → IsSound (clear_opt s set) small large
clear_opt-IsSound none small large s sound = sound
clear_opt-IsSound (some id) small large s sound = clear_set_dirtying-IsSound small large id s sound

module _ (list before rest : List ℕ) (c : ℕ) (next : Option ℕ → Option ℕ → BlockInfo → Run Walk)
    (rest_ok : (small : Option ℕ) (large : Option ℕ) (s : BlockInfo)
      → Walking (c ∷ before) rest small large s
      → Returns (next small large s) (WalkEnds list)) where
  after_merge :
      (m : Merged)
      → MergedOk (c ∷ before) rest m
      → Returns
          (elim m [
            | too_large sm la seq t ↦
                done (record { pass = wait_sync seq; small = some sm; large = some la; state = t })
            | merged sm la t ↦ next (some sm) (some la) t
          ])
          (WalkEnds list)
  after_merge (too_large sm la seq t) sound = record { sound = sound; pass = tt }
  after_merge (merged sm la t) w = rest_ok (some sm) (some la) t w

  pair_of :
      (l id : ℕ) (s : BlockInfo)
      → Walking before rest (some id) (some l) s
      → is_empty (s.sets id).block_list ≡ false
      → set_of s c ≡ some id
      → Pair (c ∷ before) rest id l (set_dirtying s id)
  pair_of l id s w own mine = record {
    apart = λ e. ground (arith, w.apart l refl, e);
    sound = bits-IsSound s id true (s.sets id).dirty (some id) (some l) w.sound;
    full = ground (arith, w.full l refl);
    full_small = ground (arith, own);
    locked = ground (arith, w.locked l refl);
    locked_small = ground arith;
    either = λ b h. ground (arith, w.gathered b, mine, h);
    cached = w.cached;
  }

  pub join-lem :
      (large : Option ℕ) (id : ℕ) (s : BlockInfo)
      → Walking before rest (some id) large s
      → is_empty (s.sets id).block_list ≡ false
      → set_of s c ≡ some id
      → Returns (join next large id s) (WalkEnds list)
  unfolding join
  join-lem large id s w own mine = elim (Bool-cases (s.sets id).dirtying) [
    | inl busy ↦
        rw (busy, join)
          (record { sound = clear_opt-IsSound large (some id) large s w.sound; pass = tt })
    | inr free ↦ elim (Bool-cases (s.sets id).writeback) [
      | inl busy ↦
          rw (free, busy, join)
            (record {
              sound = clear_opt-IsSound large (some id) large _ (
                  clear_set_dirtying-IsSound (some id) large id (set_dirtying s id)
                    (bits-IsSound s id true (s.sets id).dirty (some id) large w.sound));
              pass = tt;
            })
      | inr idle ↦ go large w refl free idle
    ]
  ]
    where
      go :
          (lg : Option ℕ)
          → Walking before rest (some id) lg s
          → large ≡ lg
          → (s.sets id).dirtying ≡ false
          → (s.sets id).writeback ≡ false
          → Returns (join next lg id s) (WalkEnds list)
      go none w e free idle =
          rw (free, idle, join)
            (rest_ok none (some id) _ (join_first before rest c id s w own mine))
      go (some l) w e free idle =
          rw (free, idle, join)
            (after_merge _ (merge_two-lem (c ∷ before) rest id l _ (pair_of l id s w own mine)))
