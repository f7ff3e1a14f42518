-- ===== src/Aio/InFlight.antt =====
-- How many blocks devd/btr-aio.c has in flight.
use ngnfs_progs.Prelude.{
  ℕ, ◌+◌, ◌-◌, ◌^◌, ◌<◌, ◌≡◌, ◌==◌, leb, if◌then◌else◌, true, false, Option, none, some, [], ◌∷◌,
  length, refl, arith, inl, inr, ap, ◌∙◌,
}
use ngnfs_progs.Prelude.Errno.{Ret, ok}
use ngnfs_progs.Prelude.Run.{Run, done, bug, bug_on, ◌>>=◌, ◌>>◌, Returns, Returns-done}
use ngnfs_progs.Cache.Submit.{BtxOp}
use ngnfs_progs.Aio.Bitmap.{
  Bmap, bits_per_long, set_bit, get_and_clear_iocb_bit, IsClear, Highest, take_bit-Highest,
}
use ngnfs_progs.Aio.Transport.{
  AioInfo, fill_iocb, btr_aio_submit_block, gather_iocbs, submit_round, EventRes, event_err, bnr_of,
  complete_events, getevents_round,
}

-- An empty bitmap has no iocb.
take_bit-IsClear :
    (bmap : Bmap)
    → IsClear bmap
    → (after : Bmap) × (get_and_clear_iocb_bit bmap ≡ done (none, after)) × IsClear after
take_bit-IsClear bmap clear =
    let ((o, after), run, (c, highest)) =
      Returns-done _ (get_and_clear_iocb_bit bmap) (take_bit-Highest bmap) in
    go o after run c highest
  where
    go :
        (o : Option ℕ) (after : Bmap)
        → get_and_clear_iocb_bit bmap ≡ done (o, after)
        → IsClear after
        → Highest bmap none o
        → (after : Bmap) × (get_and_clear_iocb_bit bmap ≡ done (none, after)) × IsClear after
    go none after run c h = (after, run, c)
    go (some nr) after run c (inl (x, e)) = absurd (ground (arith, e))
    go (some nr) after run c (inr (inside, on, above)) =
        absurd (ground (arith, clear nr, inside, on))

-- From a bitmap with a bit that is set: the highest is returned.
take_bit-some :
    (bmap : Bmap) (j : ℕ)
    → j < bits_per_long
    → bmap j ≡ true
    → (nr : ℕ) × (after : Bmap) × (get_and_clear_iocb_bit bmap ≡ done (some nr, after))
      × IsClear after
      × (nr < bits_per_long)
      × (bmap nr ≡ true)
take_bit-some bmap j h on =
    let ((o, after), run, (c, highest)) =
      Returns-done _ (get_and_clear_iocb_bit bmap) (take_bit-Highest bmap) in
    go o after run c highest
  where
    go :
        (o : Option ℕ) (after : Bmap)
        → get_and_clear_iocb_bit bmap ≡ done (o, after)
        → IsClear after
        → Highest bmap none o
        → (nr : ℕ) × (after : Bmap) × (get_and_clear_iocb_bit bmap ≡ done (some nr, after))
          × IsClear after
          × (nr < bits_per_long)
          × (bmap nr ≡ true)
    go none after run c (clear, e) = absurd (ground (arith, clear j, h, on))
    go (some nr) after run c (inl (x, e)) = absurd (ground (arith, e))
    go (some nr) after run c (inr (inside, set, above)) = (nr, after, run, c, inside, set)

submit-bug :
    (ainf : AioInfo) (op : BtxOp) (bnr page : ℕ)
    → IsClear ainf.empty_bmap
    → btr_aio_submit_block ainf op bnr page ≡ bug
unfolding btr_aio_submit_block
submit-bug ainf op bnr page clear =
    let (after, run, c) = take_bit-IsClear ainf.empty_bmap clear in
    rw (run, btr_aio_submit_block) refl

-- The block number is what the offset of its iocb stands for.
bnr_of-fill_iocb :
    (ainf : AioInfo) (op : BtxOp) (bnr page : ℕ)
    → bnr < 2 ^ 51
    → bnr_of (fill_iocb ainf op bnr page) ≡ bnr
bnr_of-fill_iocb ainf op bnr page h = ground (arith, h)

-- The state after an event of one iocb.
abbrev pub freed : AioInfo → ℕ → ℕ → AioInfo
freed ainf page nr = record ainf {
  refs = λ p. if p == page then ainf.refs p - 1 else ainf.refs p;
  empty_bmap = set_bit nr ainf.empty_bmap;
}

one_event :
    {S : Type 0} (end_io : S → ℕ → ℕ → Ret → Run S) (ainf : AioInfo) (bnr page nr : ℕ)
    (res : EventRes) (s : S)
    → bnr_of (ainf.iocbs nr) ≡ bnr
    → leb ainf.queue_depth nr ≡ false
    → getevents_round end_io (record { res = res; data_page = page; obj = nr } ∷ []) ainf s
      ≡ (end_io s bnr page (event_err res) >>= λ t. done (freed ainf page nr, t))
unfolding getevents_round complete_events
one_event end_io ainf bnr page nr res s number valid =
    ap
      (λ b. end_io s (bnr_of (ainf.iocbs nr)) page (event_err res) >>= λ t.
        bug_on b >> done (freed ainf page nr, t))
      valid
    ∙ ap (λ n. end_io s n page (event_err res) >>= λ t. done (freed ainf page nr, t)) number

-- What a submission is like: its iocb was free and is pending, no other is free, so that the next
-- submission fails an assertion, and the iocb's event completes the block.
pub record InFlight {S : Type 0} (end_io : S → ℕ → ℕ → Ret → Run S) (ainf : AioInfo) (bnr page : ℕ)
    (r : Ret × AioInfo) : Type 0 where
  pub accepted : r.0 ≡ ok 0
  pub nr : ℕ
  pub was_free : ainf.empty_bmap nr ≡ true
  pub pending : r.1.submit_bmap nr ≡ true
  pub counted : r.1.refs page ≡ ainf.refs page + 1
  pub no_other : (op : BtxOp) (b p : ℕ) → btr_aio_submit_block r.1 op b p ≡ bug
  pub completes :
      (res : EventRes) (s : S)
      → getevents_round end_io (record { res = res; data_page = page; obj = nr } ∷ []) r.1 s
        ≡ (end_io s bnr page (event_err res) >>= λ t. done (freed r.1 page nr, t))

-- Where an iocb is free and the free ones are within the queue depth, a block whose number is below
-- 2^51 is accepted: its iocb was free and is pending, its page has a reference more, and the iocb's
-- event completes that block with the event's result, drops the reference and frees the iocb. But
-- no other iocb is free then: a submission before the completion fails an assertion.
pub submit_block-InFlight :
    {S : Type 0} (end_io : S → ℕ → ℕ → Ret → Run S) (ainf : AioInfo) (op : BtxOp) (bnr page j : ℕ)
    → bnr < 2 ^ 51
    → j < bits_per_long
    → ainf.empty_bmap j ≡ true
    → ((i : ℕ) → i < bits_per_long → ainf.empty_bmap i ≡ true → i < ainf.queue_depth)
    → Returns (btr_aio_submit_block ainf op bnr page) (InFlight end_io ainf bnr page)
unfolding btr_aio_submit_block
submit_block-InFlight end_io ainf op bnr page j small h on depth =
    let (nr, after, run, clear, inside, free) = take_bit-some ainf.empty_bmap j h on in
    let valid : leb ainf.queue_depth nr ≡ false = ground (arith, depth nr inside free) in
    rw (run, valid, btr_aio_submit_block)
      (record {
        accepted = refl;
        nr = nr;
        was_free = free;
        pending = ground arith;
        counted = ground arith;
        no_other = λ o b p. submit-bug _ o b p clear;
        completes = λ res s.
            one_event end_io _ bnr page nr res s
              (let same : (nr == nr) ≡ true = ground arith in
                rw same (bnr_of-fill_iocb ainf op bnr page small))
              valid;
      })

-- Where an iocb is pending, and io_submit takes all that it is given: a round of the submit thread
-- hands exactly one pending iocb to the system, and none is pending after it.
pub submit_round-one :
    (ainf : AioInfo) (j : ℕ)
    → j < bits_per_long
    → ainf.submit_bmap j ≡ true
    → Returns
        (submit_round (λ iocbps. length iocbps) ainf)
        (λ r. ((nr : ℕ) × (r.0 ≡ nr ∷ []) × (ainf.submit_bmap nr ≡ true)) × IsClear r.1.submit_bmap)
unfolding submit_round gather_iocbs
submit_round-one ainf j h on =
    let (nr, after, run, clear, inside, set) = take_bit-some ainf.submit_bmap j h on in
    let (last, run2, clear2) = take_bit-IsClear after clear in
    rw (run, run2, submit_round, gather_iocbs) ((nr, refl, set), clear2)
