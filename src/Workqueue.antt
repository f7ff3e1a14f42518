-- ===== src/Workqueue.antt =====
-- shared/lk/workqueue.c: work structs that are queued to a single thread. Work structs are numbers.
pub mod Drain
use ngnfs_progs.Prelude.{
  ℕ, zero, suc, ◌==◌, Bool, true, false, not, Option, none, some, List, [], ◌∷◌, ◌++◌,
  if◌then◌else◌,
}
use ngnfs_progs.Prelude.Errno.{Ret, ok, err}
use ngnfs_progs.Prelude.Run.{Run, done, bug, hang, ◌>>=◌}

-- `func` of a work struct: WORK_DESTROY_FUNC, or a function on the state that may queue works.
pub data WorkFunc (S : Type 0) : Type 0 where
  work_destroy_func : WorkFunc S
  work_func : (S → S × List ℕ) → WorkFunc S

-- The queue, and the bit WORK_QUEUED of each work struct.
pub record WorkqueueStruct : Type 0 where
  pub queue : List ℕ
  pub queued : ℕ → Bool

abbrev pub set_queued : WorkqueueStruct → ℕ → Bool → WorkqueueStruct
set_queued wq work b = record wq { queued = λ w. if w == work then b else wq.queued w }

unfoldable pub queue_work : WorkqueueStruct → ℕ → Bool × WorkqueueStruct
queue_work wq work =
    if wq.queued work
    then (false, wq)
    else (true, record (set_queued wq work true) { queue = wq.queue ++ (work ∷ []) })

abbrev pub queue_works : List ℕ → WorkqueueStruct → WorkqueueStruct
queue_works [] wq = wq
queue_works (w ∷ ws) wq = queue_works ws (queue_work wq w).1

module _ {S : Type 0} (func : ℕ → WorkFunc S) where
  -- A round with a work: where the thread goes on, the queue and the state.
  abbrev pub run_work : WorkFunc S → ℕ → WorkqueueStruct → S → Option (WorkqueueStruct × S)
  run_work work_destroy_func work wq s = none
  run_work (work_func f) work wq s =
      let r = f s in some (queue_works r.1 (set_queued wq work false), r.0)

  -- `rounds` is the number of rounds that the thread starts before it finds THR_SHOULD_RETURN set,
  -- `seen` whether the bit is set where the thread waits with an empty queue. If it is not, the wait
  -- has no end, since setting the bit wakes nobody.
  unfoldable pub workqueue_thread : ℕ → Bool → WorkqueueStruct → S → Run (WorkqueueStruct × S)
  workqueue_thread zero seen wq s = done (wq, s)
  workqueue_thread (suc rounds) seen wq s = elim wq.queue [
    | [] ↦ if seen then done (wq, s) else hang
    | work ∷ rest ↦ elim (run_work (func work) work (record wq { queue = rest }) s) [
      | none ↦ done (record wq { queue = rest }, s)
      | some r ↦ workqueue_thread rounds seen r.0 r.1
    ]
  ]

  -- The assertion behind the wait for the thread.
  abbrev pub check_empty : List ℕ → S → Run S
  check_empty [] s = done s
  check_empty (w ∷ ws) s = bug

  -- `dummy` is the work struct on the stack; INIT_WORK leaves its bits as they are. thread_stop_wait
  -- sets THR_SHOULD_RETURN, so `rounds` is the number of rounds from here until it is seen.
  unfoldable pub destroy_workqueue : ℕ → Bool → WorkqueueStruct → S → ℕ → Run S
  destroy_workqueue rounds seen wq s dummy =
      workqueue_thread rounds seen (queue_work wq dummy).1 s >>= λ r. check_empty r.0.queue r.1

-- `memory` is that of the struct, `started` what thread_start returns; NULL is `none`.
unfoldable pub create_singlethread_workqueue : Bool → Ret → (ℕ → Bool) → Option WorkqueueStruct
create_singlethread_workqueue false started bits = none
create_singlethread_workqueue true (err e) bits = none
create_singlethread_workqueue true (ok n) bits = some (record { queue = []; queued = bits })
