-- ===== src/Tests/Cache.antt =====
-- shared/block.c: a cache of two queued blocks, and the results at it.
use ngnfs_progs.Prelude.{
  ℕ, ltb, ◌==◌, ◌≡◌, if◌then◌else◌, refl, none, some, true, false, arith, List, [], ◌∷◌, ◌++◌,
}
use ngnfs_progs.Prelude.Int.{pos, ◌-ℤ◌}
use ngnfs_progs.Prelude.Run.{Returns}
use ngnfs_progs.Prelude.Errno.{ok}
use ngnfs_progs.Cache.State.{Block, BlockSet, BlockInfo}
use ngnfs_progs.Cache.Waiters.{
  Latch, fail, step, step_counter, encode, IsLatch, sync_waiters_has_error, sync_waiters_dec_error,
  step_counter-encode,
}
use ngnfs_progs.Cache.Queues.{
  reverse_onto, del_all_reverse_add_tail, llist_add_all, del_all_reverse_add_tail-llist_add_all,
}
use ngnfs_progs.Cache.Submit.{ngnfs_block_submit_work}
use ngnfs_progs.Cache.SubmitOrder.{Known, SubmitsSome, submit_work-SubmitsSome}
use ngnfs_progs.Cache.EndIo.{end_write_io}
use ngnfs_progs.Cache.Get.{AllocEnv, bad_nbf, block_get_start, Started, block_get_start-Started}
use ngnfs_progs.Cache.Writeback.{WriteDone, end_write_io-WriteDone}
use ngnfs_progs.Cache.Sound.{IsSound}
use ngnfs_progs.Cache.Walk.{WalkEnds}
use ngnfs_progs.Cache.Dirty.{walk}
use ngnfs_progs.Cache.Gather.{walk-one_set}

abbrev two_waiters : Latch
two_waiters = record { waiters = 2; failed = false }

step_counter-encode_example :
    (step_counter (encode two_waiters) fail ≡ encode (step two_waiters fail))
    × IsLatch (step two_waiters fail)
    × (sync_waiters_has_error (encode two_waiters) ≡ false)
    × ((sync_waiters_dec_error (encode two_waiters)).0 ≡ ok 0)
step_counter-encode_example = step_counter-encode two_waiters fail (λ f. omega arith) tt

abbrev queued : List ℕ
queued = 1 ∷ []

abbrev added : List ℕ
added = 2 ∷ []

abbrev later : List ℕ
later = 3 ∷ 4 ∷ []

del_all_reverse_add_tail-llist_add_all_example :
    del_all_reverse_add_tail queued (llist_add_all later added)
    ≡ del_all_reverse_add_tail queued added ++ later
del_all_reverse_add_tail-llist_add_all_example =
    del_all_reverse_add_tail-llist_add_all queued added later

-- A block that is being read.
abbrev reading_block : Block
reading_block = record {
  set = none;
  refcount = pos 2;
  reading = true;
  uptodate = false;
  error_bit = false;
  dirty = false;
  error = none;
  page = 0;
}

abbrev no_set : BlockSet
no_set = record {
  refcount = pos 1;
  submitted_blocks = pos 0;
  block_list = [];
  dirty_seq = 0;
  dirtying = false;
  dirty = false;
  writeback = false;
  size = 0;
}

-- Blocks 5 and 6, queued in this order.
abbrev cache : BlockInfo
cache = record {
  ht = λ b. if ltb b 8 then some reading_block else none;
  sets = λ i. no_set;
  queue_depth = 1;
  nr_dirty = pos 0;
  nr_writeback = pos 0;
  nr_submitted = pos 0;
  sync_waiters = 0;
  dirty_seq = 0;
  writeback_seq = 0;
  sync_seq = 0;
  submit_llist = 6 ∷ 5 ∷ [];
  submit_list = [];
  writeback_llist = [];
  writeback_list = [];
  submit_queued = false;
  writeback_queued = false;
}

cache-Known : Known cache (del_all_reverse_add_tail cache.submit_list cache.submit_llist)
unfolding del_all_reverse_add_tail reverse_onto
cache-Known = ((λ e. absurd (ground arith)), ((λ e. absurd (ground arith)), tt))

submit_work-SubmitsSome_example : Returns (ngnfs_block_submit_work (λ x. ok 0) cache) (
    SubmitsSome
      (del_all_reverse_add_tail cache.submit_list cache.submit_llist)
      (pos cache.queue_depth -ℤ cache.nr_submitted)
      cache)
submit_work-SubmitsSome_example = submit_work-SubmitsSome (λ x. ok 0) (λ x. refl) cache cache-Known

-- The last block of set 0 is being written.
abbrev written : Block
written = record reading_block { set = some 0; reading = false; uptodate = true; dirty = true }

abbrev writing : BlockInfo
writing = record cache {
  ht = λ b. if ltb b 8 then some written else none;
  sets = λ i. record no_set {
    refcount = pos 3;
    submitted_blocks = pos 1;
    block_list = 5 ∷ [];
    writeback = true;
    size = 1;
  };
  nr_dirty = pos 1;
  nr_writeback = pos 1;
}

end_write_io-WriteDone_example : Returns (end_write_io writing written) (WriteDone writing 0)
end_write_io-WriteDone_example = end_write_io-WriteDone writing written 0 refl refl

-- No memory is left, and nothing happens in between.
abbrev quiet : AllocEnv
quiet = record { page = none; others = λ s. s }

block_get_start-Started_example :
    ((block_get_start quiet writing 6 2).0 ≡ none)
    × Started writing 6 2 written (block_get_start quiet writing 6 2).1
unfolding bad_nbf
block_get_start-Started_example = block_get_start-Started quiet writing 6 2 written refl refl

-- Block 3 is in set 0, the other blocks are in none.
abbrev mixed : BlockInfo
mixed = record cache {
  ht = λ b.
      if b == 3
      then some (record reading_block { set = some 0 })
      else if ltb b 8
      then some reading_block
      else none;
  sets = λ i. if i == 0 then record no_set { block_list = 3 ∷ []; size = 1 } else no_set;
}

mixed-IsSound : IsSound mixed none none
mixed-IsSound = record {
  member = λ b t h. ground (arith, h);
  sized = λ t. ground arith;
  held = λ t h. ground (arith, h);
}

-- Block 5 gets set 1, and block 3's set is merged with it.
walk-one_set_example :
    Returns (walk (λ b. some 1) (5 ∷ 3 ∷ []) none none mixed) (WalkEnds (5 ∷ 3 ∷ []))
walk-one_set_example =
    walk-one_set (λ b. some 1) (5 ∷ 3 ∷ []) mixed mixed-IsSound (λ b h. λ e. ground (arith, h, e))
      (λ b id m c. λ e. ground (arith, m, e))
