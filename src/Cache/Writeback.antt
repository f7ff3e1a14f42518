-- ===== src/Cache/Writeback.antt =====
-- What the completion of a write does to the block's set in shared/block.c.
use ngnfs_progs.Prelude.{
  ℕ, ◌≡◌, ◌&&◌, ◌⊎◌, if◌then◌else◌, Bool, true, false, [], some, refl, ==_refl, Bool-cases, inl,
  inr,
}
use ngnfs_progs.Prelude.Int.{pos, ◌-ℤ◌, ltb_ℤ}
use ngnfs_progs.Prelude.Run.{done, Returns}
use ngnfs_progs.Cache.State.{Block, BlockInfo, set_set}
use ngnfs_progs.Cache.Queues.{put_set, is_zero, should_writeback, try_queue_writeback_work}
use ngnfs_progs.Cache.EndIo.{finish_write, end_write_io, clear_set, detach}
use ngnfs_progs.Cache.Completion.{in_list, detach_lem}

-- The write of one block of the set `id` completes. While others of the set are being written, the
-- count of these falls. With the last one the set's blocks leave it and are no longer counted as
-- dirty, and the set is emptied and loses the reference that the writeback held.
pub record WriteDone (s : BlockInfo) (id : ℕ) (t : BlockInfo) : Type 0 where
  pub writeback : t.nr_writeback ≡ s.nr_writeback -ℤ pos 1
  pub submitted : (t.sets id).submitted_blocks ≡ (s.sets id).submitted_blocks -ℤ pos 1
  pub set :
      ((ltb_ℤ (pos 0) ((s.sets id).submitted_blocks -ℤ pos 1) ≡ true)
        × ((b : ℕ) → t.ht b ≡ s.ht b)
        × (t.nr_dirty ≡ s.nr_dirty)
        × ((t.sets id).block_list ≡ (s.sets id).block_list)
        × ((t.sets id).size ≡ (s.sets id).size)
        × ((t.sets id).refcount ≡ (s.sets id).refcount))
      ⊎ ((ltb_ℤ (pos 0) ((s.sets id).submitted_blocks -ℤ pos 1) ≡ false)
          × ((b : ℕ)
              → t.ht b ≡ (if in_list b (s.sets id).block_list then clear_set (s.ht b) else s.ht b))
          × (t.nr_dirty ≡ s.nr_dirty -ℤ pos (s.sets id).size)
          × ((t.sets id).block_list ≡ [])
          × ((t.sets id).size ≡ 0)
          × ((t.sets id).refcount ≡ (s.sets id).refcount -ℤ pos 1))

and_false : (b : Bool) → (b && false) ≡ false
and_false true = refl
and_false false = refl

-- An emptied set is put without a failed assertion.
pub put_set-empty :
    (s : BlockInfo) (id : ℕ)
    → (s.sets id).block_list ≡ []
    → (s.sets id).size ≡ 0
    → put_set s id
      ≡ done (set_set s id (record (s.sets id) { refcount = (s.sets id).refcount -ℤ pos 1 }))
unfolding put_set
put_set-empty s id e z = rw (e, z, and_false (is_zero ((s.sets id).refcount -ℤ pos 1))) refl

finish_write-WriteDone :
    (s s1 : BlockInfo) (id : ℕ)
    → s1.sets id ≡ s.sets id
    → ((b : ℕ) → s1.ht b ≡ s.ht b)
    → s1.nr_dirty ≡ s.nr_dirty
    → s1.nr_writeback ≡ s.nr_writeback -ℤ pos 1
    → Returns (finish_write s1 id) (WriteDone s id)
unfolding finish_write
finish_write-WriteDone s s1 id sets ht dirty writeback =
    elim (Bool-cases (ltb_ℤ (pos 0) ((s1.sets id).submitted_blocks -ℤ pos 1))) [
      | inl more ↦
          rw (more, finish_write)
            (record {
              writeback = writeback;
              submitted = rw (==_refl id, sets) refl;
              set =
                  rw (==_refl id)
                    (inl (rw sets at more, ht, dirty, rw sets refl, rw sets refl, rw sets refl));
            })
      | inr last ↦
          let set = s1.sets id in
          let s2 =
            set_set s1 id (record set { submitted_blocks = set.submitted_blocks -ℤ pos 1 }) in
          let s3 : BlockInfo = record s2 {
            nr_dirty = s2.nr_dirty -ℤ pos set.size;
            ht = detach set.block_list s2.ht;
          } in
          let s4 =
            set_set s3 id (record (s3.sets id) { size = 0; block_list = []; writeback = false }) in
          rw (last, put_set-empty s4 id (rw (==_refl id) refl) (rw (==_refl id) refl), finish_write)
            (record {
              writeback = writeback;
              submitted = rw (==_refl id, sets) refl;
              set = rw (==_refl id) (
                  inr (
                    rw sets at last,
                    λ b. rw (sets, detach_lem (s.sets id).block_list s1.ht b, ht b) refl,
                    rw (sets, dirty) refl,
                    refl,
                    refl,
                    rw sets refl,
                  ));
            })
    ]

-- What the completion of a block's write gives, if the write succeeded and the block is in a set.
pub end_write_io-WriteDone :
    (s : BlockInfo) (bl : Block) (id : ℕ)
    → bl.set ≡ some id
    → bl.error_bit ≡ false
    → Returns (end_write_io s bl) (WriteDone s id)
unfolding end_write_io try_queue_writeback_work
end_write_io-WriteDone s bl id e ok_write =
    elim (Bool-cases (should_writeback (record s { nr_writeback = s.nr_writeback -ℤ pos 1 }))) [
      | inl more ↦
          rw (e, ok_write, more, end_write_io)
            (finish_write-WriteDone s _ id refl (λ b. refl) refl refl)
      | inr less ↦
          rw (e, ok_write, less, end_write_io)
            (finish_write-WriteDone s _ id refl (λ b. refl) refl refl)
    ]
