-- ===== src/Cache/Get.antt =====
-- ngnfs_block_get of shared/block.c, in two parts: up to the wait for the end of the reading, and
-- after it. The contents of pages are not modelled, so NBF_NEW's clearing of the page is left out.
use ngnfs_progs.Prelude.{
  ℕ, ◌/◌, ◌%◌, ◌≡◌, ◌==◌, ◌&&◌, ◌||◌, if◌then◌else◌, Bool, true, false, ◌∷◌, Option, none, some,
  refl, ap, ==_refl, arith, Bool-cases, inl, inr,
}
use ngnfs_progs.Prelude.Int.{pos, ◌+ℤ◌}
use ngnfs_progs.Prelude.Errno.{Errno, einval, enomem}
use ngnfs_progs.Cache.State.{Block, BlockInfo, set_block}
use ngnfs_progs.Cache.Queues.{get_block, put_block, try_queue_submit_work}

-- The bits NBF_NEW, NBF_READ and NBF_WRITE.
abbrev pub has_new : ℕ → Bool
has_new nbf = nbf % 2 == 1

-- Both NBF_READ and NBF_WRITE are set.
unfoldable pub bad_nbf : ℕ → Bool
bad_nbf nbf = (nbf / 2 % 2 == 1) && (nbf / 4 % 2 == 1)

-- What an allocation returns, the number of the new page, and what other threads do between the
-- lookup and the insertion.
pub record AllocEnv : Type 0 where
  pub page : Option ℕ
  pub others : BlockInfo → BlockInfo

pub data Found : Type 0 where
  found : Block → Found
  failed : Errno → Found

abbrev pub alloc_block : ℕ → Block
alloc_block page = record {
  set = none;
  refcount = pos 1;
  reading = false;
  uptodate = false;
  error_bit = false;
  dirty = false;
  error = none;
  page = page;
}

abbrev pub counted : Block → Block
counted bl = record bl { refcount = bl.refcount +ℤ pos 1 }

-- rhashtable_lookup_get_insert_fast, and the reference for the caller.
abbrev pub insert_block : BlockInfo → ℕ → Block → Found × BlockInfo
insert_block s bnr new = elim (s.ht bnr) [
  | some other ↦ (found (counted other), get_block s bnr other)
  | none ↦ (found (counted new), get_block s bnr new)
]

-- The block as it is after the reference was taken.
unfoldable pub lookup_or_alloc_block : AllocEnv → BlockInfo → ℕ → Found × BlockInfo
lookup_or_alloc_block env s bnr = elim (s.ht bnr) [
  | some bl ↦ (found (counted bl), get_block s bnr bl)
  | none ↦ elim env.page [
    | none ↦ (failed enomem, s)
    | some page ↦ insert_block (env.others s) bnr (alloc_block page)
  ]
]

abbrev pub renew : ℕ → Block → Block
renew nbf bl = if has_new nbf then record bl { uptodate = true } else bl

-- The test of BL_UPTODATE and BL_READING on a block to which a reference is held.
unfoldable pub start_read : BlockInfo → ℕ → Block → BlockInfo
start_read s bnr bl =
    if bl.uptodate || bl.reading
    then set_block s bnr (some bl)
    else (let s1 = get_block s bnr (record bl { reading = true }) in
        try_queue_submit_work (record s1 { submit_llist = bnr ∷ s1.submit_llist }))

abbrev pub after_lookup : ℕ → ℕ → Found × BlockInfo → Option Errno × BlockInfo
after_lookup bnr nbf (failed e, s) = (some e, s)
after_lookup bnr nbf (found bl, s) = (none, start_read s bnr (renew nbf bl))

unfoldable pub block_get_start : AllocEnv → BlockInfo → ℕ → ℕ → Option Errno × BlockInfo
block_get_start env s bnr nbf =
    if bad_nbf nbf then (some einval, s) else after_lookup bnr nbf (lookup_or_alloc_block env s bnr)

-- The result of the block's error, once it is not being read.
unfoldable pub block_get_end : BlockInfo → ℕ → Block → Option Errno × BlockInfo
block_get_end s bnr bl = if bl.error_bit then (bl.error, put_block s bnr bl) else (none, s)

-- The block after the first part of a get, and what it queues.
pub record Started (s : BlockInfo) (bnr nbf : ℕ) (bl : Block) (t : BlockInfo) : Type 0 where
  pub block :
      t.ht bnr
      ≡ some (record bl {
        refcount =
            if has_new nbf || bl.uptodate || bl.reading
            then bl.refcount +ℤ pos 1
            else bl.refcount +ℤ pos 1 +ℤ pos 1;
        uptodate = has_new nbf || bl.uptodate;
        reading = if has_new nbf || bl.uptodate then bl.reading else true;
      })
  pub queued :
      t.submit_llist
      ≡ (if has_new nbf || bl.uptodate || bl.reading then s.submit_llist else bnr ∷ s.submit_llist)

ht-try_queue_submit_work : (s : BlockInfo) (b : ℕ) → (try_queue_submit_work s).ht b ≡ s.ht b
unfolding try_queue_submit_work
ht-try_queue_submit_work s b = ground arith

llist-try_queue_submit_work :
    (s : BlockInfo) → (try_queue_submit_work s).submit_llist ≡ s.submit_llist
unfolding try_queue_submit_work
llist-try_queue_submit_work s = ground arith

start_read-Started :
    (s s1 : BlockInfo) (bnr nbf : ℕ) (bl : Block)
    → s1.submit_llist ≡ s.submit_llist
    → Started s bnr nbf bl (start_read s1 bnr (renew nbf (counted bl)))
unfolding start_read get_block
start_read-Started s s1 bnr nbf bl e = elim (Bool-cases (has_new nbf)) [
  | inl new ↦
      rw (new, start_read) (record { block = rw (==_refl bnr, new) refl; queued = rw (new) e })
  | inr old ↦ elim (Bool-cases bl.uptodate) [
    | inl fresh ↦
        rw (old, fresh, start_read)
          (record { block = rw (==_refl bnr, old) refl; queued = rw old e })
    | inr stale ↦ elim (Bool-cases bl.reading) [
      | inl busy ↦
          rw (old, stale, busy, start_read)
            (record { block = rw (==_refl bnr, old) refl; queued = rw old e })
      | inr idle ↦
          rw (old, stale, idle, start_read)
            (record {
              block = rw (ht-try_queue_submit_work, ==_refl bnr, old) refl;
              queued = rw (llist-try_queue_submit_work, old) (ap (◌∷◌ bnr) e);
            })
    ]
  ]
]

lookup-cached :
    (env : AllocEnv) (s : BlockInfo) (bnr : ℕ) (bl : Block)
    → s.ht bnr ≡ some bl
    → lookup_or_alloc_block env s bnr ≡ (found (counted bl), get_block s bnr bl)
unfolding lookup_or_alloc_block
lookup-cached env s bnr bl e = rw (e, lookup_or_alloc_block) refl

-- A get of a cached block, with flags that are allowed, takes a reference on it. It queues the block for
-- reading, with another reference, exactly where the block is neither up to date nor being read,
-- and NBF_NEW makes it up to date.
pub block_get_start-Started :
    (env : AllocEnv) (s : BlockInfo) (bnr nbf : ℕ) (bl : Block)
    → s.ht bnr ≡ some bl
    → bad_nbf nbf ≡ false
    → ((block_get_start env s bnr nbf).0 ≡ none)
      × Started s bnr nbf bl (block_get_start env s bnr nbf).1
unfolding block_get_start
block_get_start-Started env s bnr nbf bl e good =
    rw (good, lookup-cached env s bnr bl e)
      (refl, start_read-Started s (get_block s bnr bl) bnr nbf bl (unfold get_block in refl))
