-- ===== src/Cache/EndIo.antt =====
-- ngnfs_block_end_io of shared/block.c: the completion of a read or a write. Wake-ups change no
-- state here and are left out.
use ngnfs_progs.Prelude.{ℕ, ◌==◌, if◌then◌else◌, true, false, List, [], ◌∷◌, Option, none, some}
use ngnfs_progs.Prelude.Int.{pos, ◌-ℤ◌, ltb_ℤ}
use ngnfs_progs.Prelude.Run.{Run, done, bug, bug_on, ◌>>=◌, ◌>>◌}
use ngnfs_progs.Prelude.Errno.{Ret, ok, err, Errno}
use ngnfs_progs.Cache.State.{Block, BlockInfo, set_block, set_set}
use ngnfs_progs.Cache.Queues.{get_block, put_block, put_set, try_queue_writeback_work}
use ngnfs_progs.Cache.Waiters.{sync_waiters_set_error}

abbrev pub the {ℓ} : {A : Type ℓ} → Option A → Run A
the none = bug
the (some a) = done a

-- `data_page` is the page that the transport read into, if it brings one.
unfoldable pub end_read_io : BlockInfo → ℕ → Block → Option ℕ → BlockInfo
end_read_io s bnr bl data_page =
    let page : ℕ = elim data_page [ some p ↦ p | none ↦ bl.page ] in
    set_block s bnr (
      some (record bl {
        page = page;
        uptodate = if bl.error_bit then bl.uptodate else true;
        reading = false;
      }))

abbrev pub clear_set : Option Block → Option Block
clear_set none = none
clear_set (some bl) = some (record bl { set = none })

-- The clearing of bl->set for each block of a set's list, which is emptied.
unfoldable pub detach : List ℕ → (ℕ → Option Block) → ℕ → Option Block
detach [] ht = ht
detach (b ∷ bs) ht = detach bs (λ c. if c == b then clear_set (ht c) else ht c)

-- end_write_io from the count of the set's submitted blocks on.
unfoldable pub finish_write : BlockInfo → ℕ → Run BlockInfo
finish_write s1 id =
    let set = s1.sets id in
    let left = set.submitted_blocks -ℤ pos 1 in
    let s2 = set_set s1 id (record set { submitted_blocks = left }) in
    let s3 = record s2 {
      nr_dirty = s2.nr_dirty -ℤ pos set.size;
      ht = detach set.block_list s2.ht;
    } in
    let s4 = set_set s3 id (record (s3.sets id) { size = 0; block_list = []; writeback = false }) in
    if ltb_ℤ (pos 0) left then done s2 else put_set s4 id

unfoldable pub end_write_io : BlockInfo → Block → Run BlockInfo
end_write_io s bl = do
  id ← the bl.set
  bug_on bl.error_bit
  finish_write (try_queue_writeback_work (record s { nr_writeback = s.nr_writeback -ℤ pos 1 })) id

abbrev pub fail_block : BlockInfo → ℕ → Block → Errno → BlockInfo
fail_block s bnr bl e =
    record (set_block s bnr (some (record bl { error_bit = true; error = some e }))) {
      sync_waiters = sync_waiters_set_error s.sync_waiters;
    }

unfoldable pub mark_error : BlockInfo → ℕ → Ret → BlockInfo
mark_error s bnr (ok n) = s
mark_error s bnr (err e) = elim (s.ht bnr) [ none ↦ s | some bl ↦ fail_block s bnr bl e ]

unfoldable pub ngnfs_block_end_io : BlockInfo → ℕ → Option ℕ → Ret → Run BlockInfo
unfolding mark_error
ngnfs_block_end_io s bnr data_page e = do
  found ← the (s.ht bnr)
  let s2 = mark_error (get_block s bnr found) bnr e
  bl ← the (s2.ht bnr)
  s3 ← (if bl.reading then done (end_read_io s2 bnr bl data_page) else end_write_io s2 bl)
  last ← the (s3.ht bnr)
  done (put_block s3 bnr last)
