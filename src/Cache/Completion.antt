-- ===== src/Cache/Completion.antt =====
-- What a completion does to the accounting of shared/block.c.
use ngnfs_progs.Prelude.{
  ℕ, ◌≡◌, ◌≢◌, ◌==◌, ◌||◌, if◌then◌else◌, Bool, true, false, List, [], ◌∷◌, Option, some, refl,
  ==_refl, arith,
}
use ngnfs_progs.Prelude.Int.{ℤ, pos, ◌+ℤ◌, ◌-ℤ◌}
use ngnfs_progs.Prelude.Run.{done, Returns}
use ngnfs_progs.Prelude.Errno.{Ret, ok, err, is_err, errno_of}
use ngnfs_progs.Cache.State.{Block, BlockInfo}
use ngnfs_progs.Cache.Waiters.{sync_waiters_set_error}
use ngnfs_progs.Cache.Queues.{get_block, put_block}
use ngnfs_progs.Cache.EndIo.{end_read_io, detach, clear_set, mark_error, ngnfs_block_end_io}

abbrev pub in_list : ℕ → List ℕ → Bool
in_list b [] = false
in_list b (x ∷ xs) = if b == x then true else in_list b xs

ht-end_read_io :
    (s : BlockInfo) (b : ℕ) (bl : Block) (page : ℕ)
    → (end_read_io s b bl (some page)).ht b
      ≡ some (record bl {
        page = page;
        uptodate = if bl.error_bit then bl.uptodate else true;
        reading = false;
      })
unfolding end_read_io
ht-end_read_io s b bl page = ground arith

pub detach_lem :
    (bs : List ℕ) (ht : ℕ → Option Block) (b : ℕ)
    → detach bs ht b ≡ (if in_list b bs then clear_set (ht b) else ht b)
unfolding detach
detach_lem [] ht b = refl
detach_lem (x ∷ xs) ht b =
    ground (arith, detach_lem xs (λ c. if c == x then clear_set (ht c) else ht c) b)

-- The read of a block completes: its page is the transport's, it is no longer being read, and it
-- is up to date unless the read failed, in which case the error is recorded for its readers
-- and for the tasks in sync. No count of blocks changes, and the block's references are as before.
pub record ReadDone (s : BlockInfo) (bnr : ℕ) (bl : Block) (page : ℕ) (e : Ret) (t : BlockInfo)
    : Type 0 where
  pub block :
      t.ht bnr
      ≡ some (record bl {
        reading = false;
        page = page;
        uptodate = (if is_err e || bl.error_bit then bl.uptodate else true);
        error_bit = is_err e || bl.error_bit;
        error = errno_of e bl.error;
      })
  pub waiters :
      t.sync_waiters ≡ (if is_err e then sync_waiters_set_error s.sync_waiters else s.sync_waiters)
  pub counts :
      (t.nr_dirty ≡ s.nr_dirty)
      × (t.nr_writeback ≡ s.nr_writeback)
      × (t.nr_submitted ≡ s.nr_submitted)
  pub others : (b : ℕ) → b ≢ bnr → t.ht b ≡ s.ht b

-- The block once the result of its IO is recorded.
abbrev marked : Ret → Block → Block
marked e bl = record bl { error_bit = is_err e || bl.error_bit; error = errno_of e bl.error }

abbrev counted : Block → Block
counted bl = record bl { refcount = bl.refcount +ℤ pos 1 }

ht-get_block : (s : BlockInfo) (b : ℕ) (bl : Block) → (get_block s b bl).ht b ≡ some (counted bl)
unfolding get_block
ht-get_block s b bl = ground arith

ht-mark_error :
    (s : BlockInfo) (b : ℕ) (e : Ret) (bl : Block)
    → s.ht b ≡ some bl
    → (mark_error s b e).ht b ≡ some (marked e bl)
unfolding mark_error
ht-mark_error s b (ok n) bl h = h
ht-mark_error s b (err x) bl h = ground arith

mark_error_others :
    (s : BlockInfo) (b : ℕ) (e : Ret) (c : ℕ) → c ≢ b → (mark_error s b e).ht c ≡ s.ht c
unfolding mark_error
mark_error_others s b (ok n) c h = refl
mark_error_others s b (err x) c h = ground arith

mark_error_counts :
    (s : BlockInfo) (b : ℕ) (e : Ret) (bl : Block)
    → s.ht b ≡ some bl
    → let t = mark_error s b e in
      (t.sync_waiters
        ≡ (if is_err e then sync_waiters_set_error s.sync_waiters else s.sync_waiters))
      × (t.nr_dirty ≡ s.nr_dirty)
      × (t.nr_writeback ≡ s.nr_writeback)
      × (t.nr_submitted ≡ s.nr_submitted)
unfolding mark_error
mark_error_counts s b (ok n) bl h = (refl, refl, refl, refl)
mark_error_counts s b (err x) bl h = ground arith

-- The block when a read of it has ended and the completion's own reference is put.
abbrev read_block : Ret → ℕ → Block → Block
read_block e page bl = record (marked e bl) {
  reading = false;
  page = page;
  uptodate = (if is_err e || bl.error_bit then bl.uptodate else true);
}

abbrev after_read : BlockInfo → ℕ → ℕ → Ret → Block → BlockInfo
after_read s bnr page e bl =
    let t = mark_error (get_block s bnr bl) bnr e in
    put_block (end_read_io t bnr (marked e (counted bl)) (some page)) bnr
      (counted (read_block e page bl))

end_io-after_read :
    (s : BlockInfo) (bnr page : ℕ) (e : Ret) (bl : Block)
    → s.ht bnr ≡ some bl
    → bl.reading ≡ true
    → ngnfs_block_end_io s bnr (some page) e ≡ done (after_read s bnr page e bl)
unfolding ngnfs_block_end_io
end_io-after_read s bnr page e bl h r =
    rw (h, ht-mark_error (get_block s bnr bl) bnr e (counted bl) (ht-get_block s bnr bl))
      (simp (r, ht-end_read_io))

count_back : (n : ℤ) → n +ℤ pos 1 -ℤ pos 1 ≡ n
count_back n = ground arith

-- A read that completes is recorded as it should be, whatever the result of the IO.
pub end_io-ReadDone :
    (s : BlockInfo) (bnr page : ℕ) (e : Ret) (bl : Block)
    → s.ht bnr ≡ some bl
    → bl.reading ≡ true
    → Returns (ngnfs_block_end_io s bnr (some page) e) (ReadDone s bnr bl page e)
unfolding put_block end_read_io get_block
end_io-ReadDone s bnr page e bl h r = rw (end_io-after_read s bnr page e bl h r) (record {
  block = rw (==_refl bnr, count_back bl.refcount);
  waiters = (mark_error_counts (get_block s bnr bl) bnr e (counted bl) (ht-get_block s bnr bl)).0;
  counts =
      let (_, dirty, writeback, submitted) =
        mark_error_counts (get_block s bnr bl) bnr e (counted bl) (ht-get_block s bnr bl) in
      (dirty, writeback, submitted);
  others = λ b ne. untouched b ne;
})
  where
    untouched : (b : ℕ) → b ≢ bnr → (after_read s bnr page e bl).ht b ≡ s.ht b
    untouched b ne =
        let other : (b == bnr) ≡ false = ground arith in
        rw (other, mark_error_others (get_block s bnr bl) bnr e b ne) (rw other)
