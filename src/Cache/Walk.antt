-- ===== src/Cache/Walk.antt =====
-- The walk of ngnfs_block_dirty_begin of shared/block.c gathers the caller's blocks in one set.
use ngnfs_progs.Prelude.{ℕ, ◌≡◌, ◌≢◌, true, false, Option, none, some, List, [], refl, arith}
use ngnfs_progs.Prelude.Errno.{enomem}
use ngnfs_progs.Prelude.Run.{Returns}
use ngnfs_progs.Cache.State.{BlockInfo}
use ngnfs_progs.Cache.Queues.{is_empty}
use ngnfs_progs.Cache.Sets.{set_of, in_set}
use ngnfs_progs.Cache.Dirty.{
  put_opt, Pass, ready, wait_dirtying, wait_writeback, wait_sync, failed, Walk,
}
use ngnfs_progs.Cache.Sound.{IsSound, put_set-put, put-IsSound}

abbrev pub IsCached : BlockInfo → ℕ → Type 0
IsCached s b = s.ht b ≢ none

-- The loop's invariant: the blocks before the current one are in `large`, which this thread is
-- dirtying.
pub record Walking (done_blocks todo : List ℕ) (small large : Option ℕ) (s : BlockInfo)
    : Type 0 where
  pub sound : IsSound s small large
  pub full : (l : ℕ) → large ≡ some l → is_empty (s.sets l).block_list ≡ false
  pub locked : (l : ℕ) → large ≡ some l → (s.sets l).dirtying ≡ true
  pub apart : (l : ℕ) → large ≡ some l → small ≢ some l
  pub alone : large ≡ none → done_blocks ≡ []
  pub gathered : (b : ℕ) → in_set b done_blocks ≡ true → set_of s b ≡ large
  pub cached : (b : ℕ) → in_set b todo ≡ true → IsCached s b

-- What the walk's end says of all blocks.
abbrev pub PassOk : List ℕ → Pass → BlockInfo → Type 0
PassOk list (ready none) s = list ≡ []
PassOk list (ready (some l)) s =
    ((b : ℕ) → in_set b list ≡ true → set_of s b ≡ some l)
    × ((s.sets l).dirtying ≡ true)
    × (is_empty (s.sets l).block_list ≡ false)
PassOk list (failed e) s = e ≡ enomem
PassOk list (wait_dirtying id) s = Unit
PassOk list (wait_writeback id) s = Unit
PassOk list (wait_sync seq) s = Unit

pub record WalkEnds (list : List ℕ) (w : Walk) : Type 0 where
  pub sound : IsSound w.state w.small w.large
  pub pass : PassOk list w.pass w.state

-- Putting the set that the last round left.
pub put_opt-Walking :
    (before todo : List ℕ) (small large : Option ℕ) (s : BlockInfo)
    → Walking before todo small large s
    → Returns (put_opt s small) (λ t. Walking before todo none large t × (t.ht ≡ s.ht))
put_opt-Walking before todo none large s w = (
  record {
    sound = w.sound;
    full = w.full;
    locked = w.locked;
    apart = λ l h. λ e. cc;
    alone = w.alone;
    gathered = w.gathered;
    cached = w.cached;
  },
  refl,
)
put_opt-Walking before todo (some id) large s w = rw (put_set-put s id large w.sound) (
  record {
    sound = put-IsSound s id large w.sound;
    full = λ l h. ground (arith, w.full l, h);
    locked = λ l h. ground (arith, w.locked l, h);
    apart = λ l h. λ e. cc;
    alone = w.alone;
    gathered = w.gathered;
    cached = w.cached;
  },
  refl,
)
