-- ===== src/Tests/Workqueue.antt =====
-- shared/lk/workqueue.c: a queue of two works that write to a log, and its destruction.
use ngnfs_progs.Prelude.{
  ℕ, ◌==◌, ◌≡◌, ◌≢◌, Bool, true, false, List, [], ◌∷◌, if◌then◌else◌, refl, arith,
}
use ngnfs_progs.Prelude.Run.{done, bug, hang}
use ngnfs_progs.Workqueue.{
  WorkFunc, work_destroy_func, work_func, WorkqueueStruct, destroy_workqueue, workqueue_thread,
  queue_work,
}
use ngnfs_progs.Workqueue.Drain.{drained, destroy_workqueue-drained}

-- The work struct on the stack.
abbrev dummy_work : ℕ
dummy_work = 9

abbrev write : ℕ → List ℕ → List ℕ
write w log = w ∷ log

abbrev func : ℕ → WorkFunc (List ℕ)
func w = if w == dummy_work then work_destroy_func else work_func (λ log. (write w log, []))

writes : (w : ℕ) → w ≢ dummy_work → func w ≡ work_func (λ log. (write w log, []))
writes w n = ground (arith, n)

-- Two works are queued; on the stack, the bit of the third is `bit`.
abbrev two_works : Bool → WorkqueueStruct
two_works bit = record { queue = 1 ∷ 2 ∷ []; queued = λ w. if w == dummy_work then bit else true }

destroy_workqueue-drained_example :
    destroy_workqueue func 3 false (two_works false) [] dummy_work
    ≡ drained write false 3 false (1 ∷ 2 ∷ []) []
destroy_workqueue-drained_example =
    destroy_workqueue-drained func write 3 false dummy_work (two_works false) [] writes refl
      (omega arith, (omega arith, tt))

drained_run : drained write false 3 false (1 ∷ 2 ∷ []) [] ≡ done (2 ∷ 1 ∷ [])
drained_run = refl

-- The thread finds its stop bit set after the first work.
early_stop : destroy_workqueue func 1 false (two_works false) [] dummy_work ≡ bug
unfolding destroy_workqueue workqueue_thread queue_work
early_stop = refl

bit_left_set : destroy_workqueue func 3 false (two_works true) [] dummy_work ≡ hang
unfolding destroy_workqueue workqueue_thread queue_work
bit_left_set = refl
