-- ===== src/Aio/Transport.antt =====
-- devd/btr-aio.c: the submission of blocks, the rounds of its two threads, setup and destruction. The
-- system's calls are parameters. The threads are taken to run one round or call at a time.
use ngnfs_progs.Prelude.{
  ℕ, zero, suc, ◌+◌, ◌-◌, ◌*◌, ◌/◌, ◌%◌, ◌^◌, ◌==◌, ltb, leb, not, ◌&&◌, if◌then◌else◌, Bool, true,
  false, Option, none, some, List, [], ◌∷◌, length,
}
use ngnfs_progs.Prelude.Errno.{Ret, ok, err, Errno, einval, eio, enomem}
use ngnfs_progs.Prelude.Run.{Run, done, bug, hang, bug_on, ◌>>=◌, ◌>>◌}
use ngnfs_progs.Btree.Layout.{block_size}
use ngnfs_progs.Cache.Submit.{BtxOp, get_read, get_write, write}
use ngnfs_progs.Socket.Iovec.{SysRet, got, failed}
use ngnfs_progs.Socket.Threads.{Thread, thread_init, thread_start, thread_stop_indicate, close_fd}
use ngnfs_progs.Aio.Bitmap.{Bmap, bits_per_long, set_bit, get_and_clear_iocb_bit}

abbrev pub aio_queue_depth : ℕ
aio_queue_depth = bits_per_long - 1

-- struct iocb; the offset is 64 bits wide. The buffer is that of the page.
pub record Iocb : Type 0 where
  pub data_page : ℕ
  pub pwrite : Bool
  pub fildes : Option ℕ
  pub nbytes : ℕ
  pub offset : ℕ

-- A context or a descriptor that is not there is `false` or `none`; `refs` counts references on pages.
pub record AioInfo : Type 0 where
  pub ctx : Bool
  pub queue_depth : ℕ
  pub dev_fd : Option ℕ
  pub submit_thr : Thread
  pub getevents_thr : Thread
  pub iocbs : ℕ → Iocb
  pub empty_bmap : Bmap
  pub submit_bmap : Bmap
  pub refs : ℕ → ℕ

-- The assertion of iocb_bit_nr.
abbrev pub iocb_bit_nr : AioInfo → ℕ → Run (Unit {0})
iocb_bit_nr ainf nr = bug_on (leb ainf.queue_depth nr)

abbrev pub is_write : BtxOp → Bool
is_write get_read = false
is_write get_write = false
is_write write = true

abbrev pub fill_iocb : AioInfo → BtxOp → ℕ → ℕ → Iocb
fill_iocb ainf op bnr page = record {
  data_page = page;
  pwrite = is_write op;
  fildes = ainf.dev_fd;
  nbytes = block_size;
  offset = bnr * block_size % 2 ^ 64;
}

unfoldable pub btr_aio_submit_block : AioInfo → BtxOp → ℕ → ℕ → Run (Ret × AioInfo)
btr_aio_submit_block ainf op bnr page = get_and_clear_iocb_bit ainf.empty_bmap >>= λ r. elim r.0 [
  | none ↦ bug
  | some nr ↦
      iocb_bit_nr ainf nr
      >> done (
        ok 0,
        record ainf {
          empty_bmap = r.1;
          iocbs = λ i. if i == nr then fill_iocb ainf op bnr page else ainf.iocbs i;
          refs = λ p. if p == page then ainf.refs p + 1 else ainf.refs p;
          submit_bmap = set_bit nr ainf.submit_bmap;
        },
      )
]

-- The inner loop of the submit thread; the fuel bounds its rounds.
unfoldable pub gather_iocbs : ℕ → Bmap → Run (List ℕ × Bmap)
gather_iocbs zero bmap = hang
gather_iocbs (suc fuel) bmap = get_and_clear_iocb_bit bmap >>= λ r. elim r.0 [
  | none ↦ done ([], r.1)
  | some nr ↦ gather_iocbs fuel r.1 >>= λ more. done (nr ∷ more.0, more.1)
]

-- A round of the submit thread after its wait, with the iocbs that it submits: `io_submit` is the
-- call's return value.
unfoldable pub submit_round : (List ℕ → ℕ) → AioInfo → Run (List ℕ × AioInfo)
submit_round io_submit ainf = gather_iocbs (bits_per_long + 1) ainf.submit_bmap >>= λ r.
    bug_on (ltb 0 (length r.0) && not (io_submit r.0 == length r.0))
    >> done (r.0, record ainf { submit_bmap = r.1 })

-- The `res` of an event: a count or a negative errno.
pub data EventRes : Type 0 where
  bytes : ℕ → EventRes
  negative : Errno → EventRes

pub record IoEvent : Type 0 where
  pub res : EventRes
  pub data_page : ℕ
  pub obj : ℕ

abbrev pub event_err : EventRes → Ret
event_err (bytes n) = if n == block_size then ok 0 else err eio
event_err (negative e) = err e

-- The arithmetic shift of the signed offset, as a u64.
abbrev pub bnr_of : Iocb → ℕ
bnr_of iocb = iocb.offset / block_size + (if ltb iocb.offset (2 ^ 63) then 0 else 2 ^ 64 - 2 ^ 52)

module _ {S : Type 0} (end_io : S → ℕ → ℕ → Ret → Run S) where
  unfoldable pub complete_events : List IoEvent → AioInfo → S → Run (AioInfo × S)
  complete_events [] ainf s = done (ainf, s)
  complete_events (event ∷ rest) ainf s =
      end_io s (bnr_of (ainf.iocbs event.obj)) event.data_page (event_err event.res) >>= λ t.
      iocb_bit_nr ainf event.obj
      >> complete_events rest
          (record ainf {
            refs = λ p. if p == event.data_page then ainf.refs p - 1 else ainf.refs p;
            empty_bmap = set_bit event.obj ainf.empty_bmap;
          })
          t

  -- A round of the getevents thread with the events that the system returns.
  unfoldable pub getevents_round : List IoEvent → AioInfo → S → Run (AioInfo × S)
  getevents_round [] ainf s = bug
  getevents_round (event ∷ rest) ainf s = complete_events (event ∷ rest) ainf s

-- What the system returns during setup: open(2) with and without O_DIRECT, and whether the rings
-- can be allocated.
pub record AioSys : Type 0 where
  pub open_direct : SysRet
  pub open_buffered : SysRet
  pub rings : Bool
  pub io_setup : Option Errno
  pub create_submit : Option Errno
  pub create_getevents : Option Errno

-- The second open where the first failed with EINVAL.
abbrev pub open_device : AioSys → SysRet
open_device sys = elim sys.open_direct [
  | got fd ↦ got fd
  | failed e ↦ elim e [ einval ↦ sys.open_buffered | other ↦ failed other ]
]

pub data SetupRet : Type 0 where
  info : AioInfo → SetupRet
  err_ptr : Errno → SetupRet

-- What the threads do once the context is destroyed: whether the submit thread submits iocbs that
-- it has found, and whether the getevents thread is in io_getevents or calls it.
pub record AioEnds : Type 0 where
  pub submitting : Bool
  pub getting : Bool

-- The thread was told to return and is woken. A call of a destroyed context fails, which both threads
-- assert not to happen.
abbrev pub joined : Bool → Thread → Run Thread
joined calls thr = elim thr.created [ true ↦ if calls then bug else done thr | false ↦ done thr ]

-- The info, and the descriptors that are closed.
unfoldable pub btr_aio_destroy : AioEnds → AioInfo → Run (AioInfo × List ℕ)
btr_aio_destroy ends ainf = do
  submit ← joined (ainf.ctx && ends.submitting) (thread_stop_indicate ainf.submit_thr)
  getevents ← joined (ainf.ctx && ends.getting) (thread_stop_indicate ainf.getevents_thr)
  done (
    record ainf { ctx = false; submit_thr = submit; getevents_thr = getevents },
    close_fd ainf.dev_fd,
  )

abbrev pub setup_failed : AioEnds → AioInfo → Errno → Run (SetupRet × List ℕ)
setup_failed ends ainf e = btr_aio_destroy ends ainf >>= λ r. done (err_ptr e, r.1)

-- The info before the device is opened; `memory` has the iocbs.
abbrev pub init_info : AioInfo → AioInfo
init_info memory = record memory {
  ctx = false;
  queue_depth = aio_queue_depth;
  dev_fd = none;
  submit_thr = thread_init;
  getevents_thr = thread_init;
  empty_bmap = λ i. ltb i aio_queue_depth;
  submit_bmap = λ i. false;
}

-- The getevents thread is started where the submit thread was. The result of both is overwritten.
abbrev pub start_threads : AioSys → AioInfo → AioInfo
start_threads sys ainf =
    let (ret, thr) = thread_start sys.create_submit ainf.submit_thr in
    let p : AioInfo = record ainf { submit_thr = thr } in
    elim ret [
      | err e ↦ p
      | ok n ↦ record p { getevents_thr = (thread_start sys.create_getevents p.getevents_thr).1 }
    ]

unfoldable pub btr_aio_setup : AioEnds → AioSys → Option AioInfo → Run (SetupRet × List ℕ)
btr_aio_setup ends sys none = done (err_ptr enomem, [])
btr_aio_setup ends sys (some memory) =
    let ainf = init_info memory in
    elim (open_device sys) [
      | failed e ↦ setup_failed ends ainf e
      | got fd ↦
          (let p : AioInfo = record ainf { dev_fd = some fd } in
            elim sys.rings [
              | false ↦ setup_failed ends p enomem
              | true ↦ elim sys.io_setup [
                | some e ↦ setup_failed ends p e
                | none ↦ done (info (start_threads sys (record p { ctx = true })), [])
              ]
            ])
    ]
