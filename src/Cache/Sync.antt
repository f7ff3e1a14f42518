-- ===== src/Cache/Sync.antt =====
-- sync_up_to_seq of shared/block.c, up to its wait and after it, and ngnfs_block_sync.
use ngnfs_progs.Prelude.{ℕ, ltb, leb, ◌&&◌, ◌||◌, if◌then◌else◌, Bool}
use ngnfs_progs.Prelude.Errno.{Ret}
use ngnfs_progs.Cache.State.{BlockInfo}
use ngnfs_progs.Cache.Queues.{is_zero, try_queue_writeback_work}
use ngnfs_progs.Cache.Waiters.{sync_waiters_inc, sync_waiters_has_error, sync_waiters_dec_error}

unfoldable pub sync_start : BlockInfo → ℕ → BlockInfo
sync_start s seq =
    let t = record s { sync_waiters = sync_waiters_inc s.sync_waiters } in
    if ltb t.sync_seq seq then try_queue_writeback_work (record t { sync_seq = seq }) else t

-- What the wait is for.
unfoldable pub sync_done : BlockInfo → ℕ → Bool
sync_done s seq =
    sync_waiters_has_error s.sync_waiters || (leb seq s.writeback_seq && is_zero s.nr_writeback)

unfoldable pub sync_end : BlockInfo → Ret × BlockInfo
sync_end s =
    let (ret, w) = sync_waiters_dec_error s.sync_waiters in (ret, record s { sync_waiters = w })

-- `others` is what other threads do until the wait ends.
unfoldable pub sync_up_to_seq : (BlockInfo → BlockInfo) → BlockInfo → ℕ → Ret × BlockInfo
sync_up_to_seq others s seq = sync_end (others (sync_start s seq))

unfoldable pub ngnfs_block_sync : (BlockInfo → BlockInfo) → BlockInfo → Ret × BlockInfo
ngnfs_block_sync others s = sync_up_to_seq others s s.dirty_seq
