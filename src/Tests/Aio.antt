-- ===== src/Tests/Aio.antt =====
-- devd/btr-aio.c: a new info, and two pending iocbs.
use ngnfs_progs.Prelude.{
  ℕ, ◌≡◌, ◌==◌, ◌||◌, ltb, true, false, none, some, List, [], ◌∷◌, length, refl, arith,
}
use ngnfs_progs.Prelude.Errno.{Ret, einval}
use ngnfs_progs.Prelude.Run.{Run, done, bug, Returns}
use ngnfs_progs.Cache.Submit.{write}
use ngnfs_progs.Socket.Iovec.{got, failed}
use ngnfs_progs.Socket.Threads.{thread_init}
use ngnfs_progs.Socket.Descriptors.{opened}
use ngnfs_progs.Aio.Bitmap.{Bmap, get_and_clear_iocb_bit, IsClear, Highest, take_bit-Highest}
use ngnfs_progs.Aio.Transport.{
  AioInfo, AioEnds, AioSys, open_device, aio_queue_depth, btr_aio_setup, btr_aio_submit_block,
  submit_round,
}
use ngnfs_progs.Aio.InFlight.{InFlight, submit_block-InFlight, submit_round-one}
use ngnfs_progs.Aio.Setup.{SetsUp, destroyed, is_made, setup-SetsUp}

abbrev pending : Bmap
pending i = i == 3 || i == 8

take_bit-Highest_example :
    Returns (get_and_clear_iocb_bit pending) (λ r. IsClear r.1 × Highest pending none r.0)
take_bit-Highest_example = take_bit-Highest pending

abbrev ready : AioInfo
ready = record {
  ctx = true;
  queue_depth = aio_queue_depth;
  dev_fd = some 4;
  submit_thr = thread_init;
  getevents_thr = thread_init;
  iocbs = λ i. record { data_page = 0; pwrite = false; fildes = none; nbytes = 0; offset = 0 };
  empty_bmap = λ i. ltb i aio_queue_depth;
  submit_bmap = pending;
  refs = λ p. 1;
}

-- The completed block numbers.
abbrev complete : List ℕ → ℕ → ℕ → Ret → Run (List ℕ)
complete s bnr page r = done (bnr ∷ s)

submit_block-InFlight_example :
    Returns (btr_aio_submit_block ready write 1000 7) (InFlight complete ready 1000 7)
submit_block-InFlight_example =
    submit_block-InFlight complete ready write 1000 7 0 (omega arith) (omega arith) refl
      (λ i h k. ground (arith, k))

submit_round-one_example :
    Returns
      (submit_round (λ iocbps. length iocbps) ready)
      (λ r. ((nr : ℕ) × (r.0 ≡ nr ∷ []) × (ready.submit_bmap nr ≡ true)) × IsClear r.1.submit_bmap)
submit_round-one_example = submit_round-one ready 3 (omega arith) refl

-- A device without O_DIRECT; the getevents thread waits for events.
abbrev buffered : AioSys
buffered = record {
  open_direct = failed einval;
  open_buffered = got 4;
  rings = true;
  io_setup = none;
  create_submit = none;
  create_getevents = none;
}

abbrev waiting : AioEnds
waiting = record { submitting = false; getting = true }

setup-SetsUp_example : Returns (btr_aio_setup waiting buffered (some ready)) (
    SetsUp waiting
      (opened (open_device buffered))
      (is_made buffered.create_submit)
      (is_made buffered.create_getevents))
setup-SetsUp_example = setup-SetsUp waiting buffered ready

-- The destruction of the info that this setup returns aborts the process.
aborts : destroyed waiting true true (some 4) ≡ bug
aborts = refl
