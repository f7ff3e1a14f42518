-- ===== src/Aio/Setup.antt =====
-- The setup of devd/btr-aio.c: what it leaves on each path.
use ngnfs_progs.Prelude.{
  ℕ, ◌<◌, ◌≡◌, Bool, true, false, Option, none, some, List, [], refl, ap, arith, ◌&&◌, ◌||◌,
  if◌then◌else◌, inl, inr, Bool-cases, Option-cases,
}
use ngnfs_progs.Prelude.Run.{Run, done, bug, ◌>>=◌, Returns}
use ngnfs_progs.Prelude.Errno.{Errno}
use ngnfs_progs.Socket.Threads.{thread_start, close_fd}
use ngnfs_progs.Socket.Descriptors.{opened, SysRet-cases}
use ngnfs_progs.Aio.Bitmap.{bits_per_long}
use ngnfs_progs.Aio.Transport.{
  AioInfo, AioEnds, aio_queue_depth, AioSys, open_device, SetupRet, info, err_ptr, btr_aio_setup,
  btr_aio_destroy, start_threads, init_info,
}

-- A thread that pthread_create did not make.
abbrev pub is_made : Option Errno → Bool
is_made none = true
is_made (some e) = false

-- How the destruction of an info with these threads ends.
abbrev pub destroyed : AioEnds → Bool → Bool → Option ℕ → Run (List ℕ)
destroyed ends submit getevents fd =
    if submit && (ends.submitting || (getevents && ends.getting)) then bug else done (close_fd fd)

abbrev pub SetsUp : AioEnds → Option ℕ → Bool → Bool → SetupRet × List ℕ → Type 0
SetsUp ends fd submit getevents (info ainf, closed) =
    (closed ≡ [])
    × ((btr_aio_destroy ends ainf >>= λ r. done r.1) ≡ destroyed ends submit getevents fd)
    × (ainf.empty_bmap 0 ≡ true)
    × ((i : ℕ) → i < bits_per_long → ainf.empty_bmap i ≡ true → i < ainf.queue_depth)
    × (ainf.submit_thr.created ≡ submit)
SetsUp ends fd submit getevents (err_ptr e, closed) = closed ≡ close_fd fd

destroyed-started :
    (submitting getting : Bool) (sys : AioSys) (memory : AioInfo) (fd : ℕ)
    (submit getevents : Option Errno)
    → (let ends : AioEnds = record { submitting = submitting; getting = getting } in
        let sys2 : AioSys = record sys { create_submit = submit; create_getevents = getevents } in
        let ainf =
          start_threads sys2 (record (init_info memory) { dev_fd = some fd; ctx = true }) in
        ((btr_aio_destroy ends ainf >>= λ r. done r.1)
          ≡ destroyed ends (is_made submit) (is_made getevents) (some fd))
        × (ainf.submit_thr.created ≡ is_made submit)
        × (ainf.empty_bmap ≡ (init_info memory).empty_bmap)
        × (ainf.queue_depth ≡ aio_queue_depth))
unfolding thread_start btr_aio_destroy
destroyed-started s true sys memory fd (some e) g = (refl, refl, refl, refl)
destroyed-started s false sys memory fd (some e) g = (refl, refl, refl, refl)
destroyed-started true g sys memory fd none (some e) = (refl, refl, refl, refl)
destroyed-started false g sys memory fd none (some e) = (refl, refl, refl, refl)
destroyed-started true g sys memory fd none none = (refl, refl, refl, refl)
destroyed-started false true sys memory fd none none = (refl, refl, refl, refl)
destroyed-started false false sys memory fd none none = (refl, refl, refl, refl)

started :
    (ends : AioEnds) (sys : AioSys) (memory : AioInfo) (fd : ℕ)
    → SetsUp ends
        (some fd)
        (is_made sys.create_submit)
        (is_made sys.create_getevents)
        (info (start_threads sys (record (init_info memory) { dev_fd = some fd; ctx = true })), [])
started ends sys memory fd =
    let (end, created, bmap, depth) =
      destroyed-started ends.submitting ends.getting sys memory fd sys.create_submit
        sys.create_getevents in
    (refl, end, ap (λ b. b 0) bmap, λ i h k. ground (arith, bmap, depth, k), created)

-- Where the memory for the info is there: the setup ends, and either fails and closes the descriptor
-- that it opened, if any, or returns an info that has a free iocb, whose free iocbs are all within the
-- queue depth, and that is returned also where a thread could not be made. The destruction of that
-- info fails an assertion where the getevents thread was made and is in io_getevents, or the submit
-- thread was made and submits iocbs, as the context is destroyed; otherwise it closes the descriptor.
pub setup-SetsUp :
    (ends : AioEnds) (sys : AioSys) (memory : AioInfo)
    → Returns (btr_aio_setup ends sys (some memory)) (
        SetsUp ends
          (opened (open_device sys))
          (is_made sys.create_submit)
          (is_made sys.create_getevents))
unfolding btr_aio_setup btr_aio_destroy
setup-SetsUp ends sys memory = elim (SysRet-cases (open_device sys)) [
  | inr (e, q) ↦ rw (q, btr_aio_setup) refl
  | inl (fd, q) ↦ elim (Bool-cases sys.rings) [
    | inr r ↦ rw (q, r, btr_aio_setup) refl
    | inl r ↦ elim (Option-cases sys.io_setup) [
      | inr (e, o) ↦ rw (q, r, o, btr_aio_setup) refl
      | inl o ↦ rw (q, r, o, btr_aio_setup) (started ends sys memory fd)
    ]
  ]
]
